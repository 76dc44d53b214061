-- ===== src/History/Victim.antt =====
-- `LeastUsedRecord` of `AddHistoryRecord` in src/OSDHistory.c.
use opl_future_beta.Base.{
  ℕ, suc, ◌+◌, ◌≤◌, ◌<◌, ◌≡◌, ◌∙◌, ap, refl, Bool, true, false, ◌&&◌, List, [], ◌∷◌, some, inl, inr,
  ◌⊎◌, ltb, ◌==◌, if◌then◌else◌, Each, Each-mono, arith,
}
use opl_future_beta.History.{HistoryEntry, Least, least_step, nth}

abbrev pub least_from : (i : ℕ) → List HistoryEntry → Least → Least
least_from i [] l = l
least_from i (e ∷ es) l = least_from (i + 1) es (least_step i e l)

-- What a step does: it keeps the record, or takes an entry that is launched as often or less.
abbrev Steps : (i : ℕ) → HistoryEntry → (l l' : Least) → Type 0
Steps i e l l' =
    ((l'.index ≡ l.index) × (l'.count ≡ l.count) × (l.count ≤ e.launch_count))
    ⊎ ((l'.index ≡ i) × (l'.count ≡ e.launch_count) × (e.launch_count ≤ l.count))

least_step-Steps : (i : ℕ) (e : HistoryEntry) (l : Least) → Steps i e l (least_step i e l)
unfolding least_step
least_step-Steps i e l = by (ltb (e.launch_count) (l.count)) refl
  where
    second :
        (l' : Least) (b : Bool)
        → (l'.count == e.launch_count && ltb (e.date_stamp) (l'.stamp)) ≡ b
        → Steps i e l l'
        → Steps i e l (if b then record l' { index = i; stamp = e.date_stamp } else l')
    second l' false q s = s
    second l' true q (inr s) = inr (refl, s.1, s.2)
    second l' true q (inl s) = inr (refl, ground (arith, q), ground (arith, q, s.1))

    by :
        (b : Bool)
        → ltb (e.launch_count) (l.count) ≡ b
        → (let l' = if b then record l { index = i; count = e.launch_count } else l in
            Steps i e l (
              if l'.count == e.launch_count && ltb (e.date_stamp) (l'.stamp)
              then record l' { index = i; stamp = e.date_stamp }
              else l'))
    by true q =
        let l' = record l { index = i; count = e.launch_count } in
        second l' (l'.count == e.launch_count && ltb (e.date_stamp) (l'.stamp)) refl
          (inr (refl, refl, ground (arith, q)))
    by false q =
        second l (l.count == e.launch_count && ltb (e.date_stamp) (l.stamp)) refl
          (inl (refl, refl, ground (arith, q)))

-- An entry that is launched no more often than any other.
abbrev pub IsLeast : List HistoryEntry → HistoryEntry → Type 0
IsLeast es v = Each (λ e. v.launch_count ≤ e.launch_count) es

-- The record of the loop from entry `i` on: the one before it, or an entry.
abbrev Chosen : (i : ℕ) → List HistoryEntry → (l l' : Least) → Type 0
Chosen i es l l' =
    ((l'.index ≡ l.index) × (l'.count ≡ l.count) × Each (λ e. l.count ≤ e.launch_count) es)
    ⊎ ((k : ℕ) × (v : HistoryEntry) × (l'.index ≡ i + k)
        × (nth es k ≡ some v)
        × IsLeast es v
        × (v.launch_count ≡ l'.count)
        × (v.launch_count ≤ l.count))

least_from-Chosen : (i : ℕ) (es : List HistoryEntry) (l : Least) → Chosen i es l (least_from i es l)
least_from-Chosen i [] l = inl (refl, refl, tt)
least_from-Chosen i (e ∷ es) l =
    by (least_step i e l) (least_from (i + 1) es (least_step i e l)) (least_step-Steps i e l)
      (least_from-Chosen (i + 1) es (least_step i e l))
  where
    by : (l' l'' : Least) → Steps i e l l' → Chosen (i + 1) es l' l'' → Chosen i (e ∷ es) l l''
    by l' l'' (inl (a, b, c)) (inl (d, f, g)) =
        inl (d ∙ a, f ∙ b, (c, Each-mono es (λ x h. omega (arith, h, b)) g))
    by l' l'' (inr (a, b, c)) (inl (d, f, g)) = inr (
      0,
      e,
      omega (arith, d, a),
      refl,
      (omega arith, Each-mono es (λ x h. omega (arith, h, b)) g),
      omega (arith, f, b),
      c,
    )
    by l' l'' (inl (a, b, c)) (inr (k, v, d, f, g, h, m)) =
        inr (suc k, v, omega (arith, d), f, (omega (arith, m, b, c), g), h, omega (arith, m, b))
    by l' l'' (inr (a, b, c)) (inr (k, v, d, f, g, h, m)) =
        inr (suc k, v, omega (arith, d), f, (omega (arith, m, b, c), g), h, omega (arith, m, b, c))

-- The record of a history whose launch counts are below the one that the loop starts with.
pub least_from-IsLeast :
    (e : HistoryEntry) (es : List HistoryEntry) (l : Least)
    → e.launch_count < l.count
    → (v : HistoryEntry) × (nth (e ∷ es) ((least_from 0 (e ∷ es) l).index) ≡ some v)
      × IsLeast (e ∷ es) v
least_from-IsLeast e es l h = by (least_from 0 (e ∷ es) l) (least_from-Chosen 0 (e ∷ es) l)
  where
    by :
        (l' : Least)
        → Chosen 0 (e ∷ es) l l'
        → (v : HistoryEntry) × (nth (e ∷ es) (l'.index) ≡ some v) × IsLeast (e ∷ es) v
    by l' (inl (a, b, c)) = absurd (omega (arith, c.0, h))
    by l' (inr (k, v, d, f, g, m, o)) =
        let q : l'.index ≡ k = omega (arith, d) in (v, ap (nth (e ∷ es)) q ∙ f, g)
