-- ===== src/Menu/Paging.antt =====
-- The page that the keys of src/menusys.c keep the selection on.
use opl_future_beta.Base.{
  ℕ, zero, suc, ◌+◌, ◌-◌, ◌≤◌, ◌<◌, ◌≡◌, ◌≢◌, ap, ap₂, refl, sym, subst, Bool, true, false, List,
  [], ◌∷◌, Option, some, inl, inr, ◌⊎◌, ltb, ◌==◌, if◌then◌else◌, if-elim, arith,
}
use opl_future_beta.Menu.Pages.{
  Selection, walk_back, walk_forward, on_page, menu_first_page, steps_back, menu_last_page,
  page_holds, menu_next_v, menu_prev_v, menu_next_page, menu_prev_page, Move, next_v, prev_v,
  next_page, prev_page, first_page, last_page, move,
}

-- The selected item is on the page.
pub record IsOnPage (displayed : ℕ) (s : Selection) : Type 0 where
  pub at : ℕ
  pub start : ℕ
  pub current : s.current ≡ some at
  pub pagestart : s.pagestart ≡ some start
  pub inside : at < s.count
  pub behind : start ≤ at
  pub shown : at < start + displayed

walk_back_lem : (steps k : ℕ) → walk_back steps k ≡ k - steps
walk_back_lem zero k = omega arith
walk_back_lem (suc steps) zero = omega arith
walk_back_lem (suc steps) (suc k) = omega (arith, walk_back_lem steps k)

walk_forward-inside : (steps count k : ℕ) → k < count → walk_forward steps count k < count
walk_forward-inside zero count k h = h
walk_forward-inside (suc steps) count k h =
    if-elim (λ m. m < count) (ltb (k + 1) count)
      (λ t. walk_forward-inside steps count (k + 1) (ground (arith, t))) (λ t. h)

on_page-inside :
    (steps count current k : ℕ)
    → on_page steps count current k ≡ true
    → (k ≤ current) × (current < k + steps)
on_page-inside zero count current k e = absurd cc
on_page-inside (suc steps) count current k e =
    if-elim (λ b. b ≡ true → (k ≤ current) × (current < k + suc steps)) (current == k)
      (λ t _. let q : current ≡ k = ground (arith, t) in (omega (arith, q), omega (arith, q)))
      (λ t.
        if-elim (λ b. b ≡ true → (k ≤ current) × (current < k + suc steps)) (ltb (k + 1) count)
          (λ _ q.
            let ih = on_page-inside steps count current (k + 1) q in
            (omega (arith, ih.0), omega (arith, ih.1)))
          (λ _ q. absurd cc))
      e

steps_back_lem : (displayed count : ℕ) → 1 ≤ displayed → steps_back displayed count ≡ displayed - 1
steps_back_lem zero count h = absurd (omega (arith, h))
steps_back_lem (suc displayed) count h = omega arith

abbrev selected : (count k p : ℕ) → Selection
selected count k p = record { count = count; current = some k; pagestart = some p }

-- Where a page is, in numbers.
abbrev InPage : (displayed count k p : ℕ) → Type 0
InPage displayed count k p = (k < count) × (p ≤ k) × (k < p + displayed)

on-page :
    (displayed count k p : ℕ) → InPage displayed count k p → IsOnPage displayed (selected count k p)
on-page displayed count k p h = record {
  at = k;
  start = p;
  current = refl;
  pagestart = refl;
  inside = h.0;
  behind = h.1;
  shown = h.2;
}

first-IsOnPage :
    (displayed count k p : ℕ)
    → 1 ≤ displayed
    → k < count
    → IsOnPage displayed (menu_first_page (selected count k p))
unfolding menu_first_page
first-IsOnPage displayed zero k p d h = absurd (omega (arith, h))
first-IsOnPage displayed (suc count) k p d h =
    on-page displayed (suc count) 0 0 (omega arith, omega arith, omega (arith, d))

last-IsOnPage :
    (displayed count k p : ℕ)
    → 1 ≤ displayed
    → k < count
    → IsOnPage displayed (menu_last_page displayed (selected count k p))
unfolding menu_last_page
last-IsOnPage displayed count k p d h =
    let start = walk_back_lem (steps_back displayed count) (count - 1) in
    let steps = steps_back_lem displayed count d in
    on-page displayed count (count - 1) (walk_back (steps_back displayed count) (count - 1))
      (omega (arith, h), omega (arith, start), omega (arith, start, steps, d))

next-IsOnPage :
    (displayed count k p : ℕ)
    → 1 ≤ displayed
    → InPage displayed count k p
    → IsOnPage displayed (menu_next_v displayed (selected count k p))
unfolding menu_next_v
next-IsOnPage displayed count k p d h =
    if-elim (IsOnPage displayed) (ltb (k + 1) count)
      (λ t. by (on_page displayed count (k + 1) p) refl (ground (arith, t)))
      (λ t. first-IsOnPage displayed count k p d (h.0))
  where
    by :
        (b : Bool)
        → on_page displayed count (k + 1) p ≡ b
        → k + 1 < count
        → IsOnPage displayed (
            if b
            then record (selected count k p) { current = some (k + 1) }
            else record (selected count k p) { current = some (k + 1); pagestart = some (k + 1) })
    by true e l =
        let i = on_page-inside displayed count (k + 1) p e in
        on-page displayed count (k + 1) p (l, i.0, i.1)
    by false e l = on-page displayed count (k + 1) (k + 1) (l, omega arith, omega (arith, d))

prev-IsOnPage :
    (displayed count k p : ℕ)
    → 1 ≤ displayed
    → InPage displayed count k p
    → IsOnPage displayed (menu_prev_v displayed (selected count k p))
unfolding menu_prev_v
prev-IsOnPage displayed count k p d h =
    if-elim (IsOnPage displayed) (ltb 0 k)
      (λ t.
        if-elim
          (λ o.
            IsOnPage displayed
              (record (selected count k p) { current = some (k - 1); pagestart = o }))
          (p == k)
          (λ q.
            let start = walk_back_lem displayed p in
            let e : p ≡ k = ground (arith, q) in
            let l : 0 < k = ground (arith, t) in
            on-page displayed count (k - 1) (walk_back displayed p)
              (omega (arith, h.0), omega (arith, start, e, l, d), omega (arith, start, e, l, d)))
          (λ q.
            let e : p ≢ k = ground (arith, q) in
            on-page displayed count (k - 1) p
              (omega (arith, h.0), omega (arith, e, h.1), omega (arith, h.2))))
      (λ t. last-IsOnPage displayed count k p d (h.0))

next_page-IsOnPage :
    (displayed count k p : ℕ)
    → 1 ≤ displayed
    → InPage displayed count k p
    → IsOnPage displayed (menu_next_page displayed (selected count k p))
unfolding menu_next_page
next_page-IsOnPage displayed count k p d h =
    if-elim (IsOnPage displayed) (ltb (p + 1) count)
      (λ t.
        let l : p < count = ground (arith, t) in
        let q = walk_forward displayed count p in
        on-page displayed count q q
          (walk_forward-inside displayed count p l, omega arith, omega (arith, d)))
      (λ t. first-IsOnPage displayed count k p d (h.0))

prev_page-IsOnPage :
    (displayed count k p : ℕ)
    → 1 ≤ displayed
    → InPage displayed count k p
    → IsOnPage displayed (menu_prev_page displayed (selected count k p))
unfolding menu_prev_page
prev_page-IsOnPage displayed count k p d h =
    if-elim (IsOnPage displayed) (ltb 0 p)
      (λ t.
        let q = walk_back displayed p in
        on-page displayed count q q
          (omega (arith, walk_back_lem displayed p, h.0, h.1), omega arith, omega (arith, d)))
      (λ t. last-IsOnPage displayed count k p d (h.0))

selected-IsOnPage :
    (displayed : ℕ) (m : Move) (count k p : ℕ)
    → 1 ≤ displayed
    → InPage displayed count k p
    → IsOnPage displayed (move displayed m (selected count k p))
unfolding move
selected-IsOnPage displayed next_v count k p d h = next-IsOnPage displayed count k p d h
selected-IsOnPage displayed prev_v count k p d h = prev-IsOnPage displayed count k p d h
selected-IsOnPage displayed next_page count k p d h = next_page-IsOnPage displayed count k p d h
selected-IsOnPage displayed prev_page count k p d h = prev_page-IsOnPage displayed count k p d h
selected-IsOnPage displayed first_page count k p d h = first-IsOnPage displayed count k p d (h.0)
selected-IsOnPage displayed last_page count k p d h = last-IsOnPage displayed count k p d (h.0)

move-IsOnPage :
    (displayed : ℕ) (m : Move) (s : Selection)
    → 1 ≤ displayed
    → IsOnPage displayed s
    → IsOnPage displayed (move displayed m s)
move-IsOnPage displayed m s d v =
    let e =
      ap₂ (λ k p. record s { current = k; pagestart = p }) (sym (v.current)) (sym (v.pagestart)) in
    subst (λ t. IsOnPage displayed (move displayed m t)) e
      (selected-IsOnPage displayed m (s.count) (v.at) (v.start) d (v.inside, v.behind, v.shown))

abbrev pub moves : (displayed : ℕ) → List Move → Selection → Selection
moves displayed [] s = s
moves displayed (m ∷ ms) s = moves displayed ms (move displayed m s)

-- Any number of moves of a selection on its page, with at least one item on a page: there is always a selected
-- item of the submenu, and it is on the page that starts at `pagestart`.
pub moves-IsOnPage :
    (displayed : ℕ) (ms : List Move) (s : Selection)
    → 1 ≤ displayed
    → IsOnPage displayed s
    → IsOnPage displayed (moves displayed ms s)
moves-IsOnPage displayed [] s d v = v
moves-IsOnPage displayed (m ∷ ms) s d v =
    moves-IsOnPage displayed ms (move displayed m s) d (move-IsOnPage displayed m s d v)

-- Where `menuNextV` goes from item `k`.
abbrev StepsDown : (count k : ℕ) → Selection → Type 0
StepsDown count k t =
    (((t.current ≡ some (k + 1)) × (k + 1 < count)) ⊎ ((t.current ≡ some 0) × (k + 1 ≡ count)))
    × (t.count ≡ count)

next-StepsDown :
    (displayed k : ℕ) (count : ℕ) (p : Option ℕ)
    → k < count
    → StepsDown count k
        (menu_next_v displayed (record { count = count; current = some k; pagestart = p }))
unfolding menu_next_v menu_first_page
next-StepsDown displayed k zero p h = absurd (omega (arith, h))
next-StepsDown displayed k (suc count) p h =
    if-elim (StepsDown (suc count) k) (ltb (k + 1) (suc count))
      (λ t.
        if-elim (StepsDown (suc count) k) (page_holds displayed (suc count) (k + 1) p)
          (λ _. (inl (refl, ground (arith, t)), refl)) (λ _. (inl (refl, ground (arith, t)), refl)))
      (λ t. (inr (refl, ground (arith, t, h)), refl))

prev-current :
    (displayed k k' : ℕ) (s : Selection)
    → s.current ≡ some k
    → ((0 < k) × (k - 1 ≡ k')) ⊎ ((k ≡ 0) × (s.count - 1 ≡ k'))
    → (menu_prev_v displayed s).current ≡ some k'
unfolding menu_prev_v menu_last_page
prev-current displayed k k' s e h =
    subst (λ c. (menu_prev_v displayed (record s { current = c })).current ≡ some k') (sym e)
      (if-elim (λ (t : Selection). t.current ≡ some k') (ltb 0 k)
        (λ t. ap some (elim h [ inl q ↦ q.1 | inr q ↦ ground (arith, t, q.0) ]))
        (λ t. ap some (elim h [ inl q ↦ ground (arith, t, q.0) | inr q ↦ q.1 ])))

-- From every selected item of a submenu, however its page stands: moving down with `menuNextV` and up with
-- `menuPrevV` comes back to the item, also around the end of the list.
pub prev-next :
    (displayed k : ℕ) (s : Selection)
    → s.current ≡ some k
    → k < s.count
    → (menu_prev_v displayed (menu_next_v displayed s)).current ≡ s.current
prev-next displayed k s e h =
    subst
      (λ c. (menu_prev_v displayed (menu_next_v displayed (record s { current = c }))).current ≡ c)
      (sym e)
      (by (menu_next_v displayed (record s { current = some k }))
        (next-StepsDown displayed k (s.count) (s.pagestart) h))
  where
    by : (t : Selection) → StepsDown (s.count) k t → (menu_prev_v displayed t).current ≡ some k
    by t (inl (q, l), c) = prev-current displayed (k + 1) k t q (inl (omega arith, omega arith))
    by t (inr (q, l), c) = prev-current displayed 0 k t q (inr (refl, omega (arith, l, c)))
