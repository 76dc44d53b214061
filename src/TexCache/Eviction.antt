-- ===== src/TexCache/Eviction.antt =====
-- What `lru_evict` of src/texcache.c takes out of a list.
use opl_future_beta.Base.{
  ℕ, zero, suc, ◌+◌, ◌≤◌, ◌<◌, ◌≡◌, ◌≢◌, ◌∙◌, ap, ap₂, refl, sym, subst, Bool, true, false, List,
  [], ◌∷◌, ◌++◌, Option, none, some, inl, inr, ◌⊎◌, ltb, ◌==◌, if◌then◌else◌, if-elim, get_elem?,
  length, Each, arith,
}
use opl_future_beta.TexCache.Pool.{Apart}
use opl_future_beta.TexCache.Lru.{
  texcache_max_entries, CacheEntry, Ref, head, tail, node, same_ref, write, Lru, through,
  used_before, older, entry_older, find_oldest, unlink_oldest, lru_evict,
}

-- The nodes in front of a node, by the `prev` pointers, down to `head`.
abbrev pub Chain : (Ref → Option Ref) → Ref → List ℕ → Type 0
Chain prev r [] = prev r ≡ some head
Chain prev r (n ∷ ns) = (prev r ≡ some (node n)) × Chain prev (node n) ns

-- A node whose entry was used at a time.
abbrev pub UsedAt : Lru → List CacheEntry → (time : ℕ → ℕ) → ℕ → Type 0
UsedAt l es time n =
    (e : ℕ) × (x : CacheEntry) × (l.entry n ≡ some e)
    × (get_elem? es e ≡ some x)
    × (x.last_used ≡ some (time n))

module _ (l : Lru) (es : List CacheEntry) (time : ℕ → ℕ) where
  older-ltb :
      (n o : ℕ)
      → UsedAt l es time n
      → UsedAt l es time o
      → older es (l.entry n) (l.entry o) ≡ ltb (time n) (time o)
  older-ltb n o (e, x, p, q, u) (e', x', p', q', u') =
      ap₂ (older es) p p' ∙ ap₂ entry_older q q' ∙ ap₂ used_before u u'

  -- The node that the loop ends with.
  abbrev pick : (oldest : ℕ) → List ℕ → ℕ
  pick o [] = o
  pick o (n ∷ ns) = pick (if ltb (time n) (time o) then n else o) ns

  abbrev Picks : (oldest : ℕ) → List ℕ → ℕ → Type 0
  Picks o ns m =
      ((m ≡ o) × Each (λ x. time o ≤ time x) ns)
      ⊎ ((back : List ℕ) × (front : List ℕ) × (ns ≡ back ++ m ∷ front)
          × (time m ≤ time o)
          × Each (λ x. time m ≤ time x) ns)

  pick-Picks : (o : ℕ) (ns : List ℕ) → Picks o ns (pick o ns)
  pick-Picks o [] = inl (refl, tt)
  pick-Picks o (n ∷ ns) =
      if-elim (λ b. Picks o (n ∷ ns) (pick b ns)) (ltb (time n) (time o))
        (λ t. newer (pick n ns) (ground (arith, t)) (pick-Picks n ns))
        (λ t. kept (pick o ns) (ground (arith, t)) (pick-Picks o ns))
    where
      newer : (m : ℕ) → time n < time o → Picks n ns m → Picks o (n ∷ ns) m
      newer m h (inl (e, a)) =
          subst (Picks o (n ∷ ns)) (sym e) (inr ([], ns, refl, omega (arith, h), (omega arith, a)))
      newer m h (inr (back, front, e, a, k)) =
          inr (n ∷ back, front, ap (λ s. n ∷ s) e, omega (arith, a, h), (a, k))

      kept : (m : ℕ) → time o ≤ time n → Picks o ns m → Picks o (n ∷ ns) m
      kept m h (inl (e, a)) = inl (e, (h, a))
      kept m h (inr (back, front, e, a, k)) =
          inr (n ∷ back, front, ap (λ s. n ∷ s) e, a, (omega (arith, a, h), k))

  find-pick :
      (ns : List ℕ) (fuel o : ℕ) (r : Ref)
      → Chain (l.prev) r ns
      → length ns < fuel
      → UsedAt l es time o
      → Each (UsedAt l es time) ns
      → find_oldest fuel l es (node o) (l.prev r) ≡ some (node (pick o ns))
  unfolding find_oldest
  find-pick ns zero o r c h u v = absurd (omega (arith, h))
  find-pick [] (suc fuel) o r c h u v = ap (find_oldest (suc fuel) l es (node o)) c
  find-pick (n ∷ ns) (suc fuel) o r c h u v =
      ap (find_oldest (suc fuel) l es (node o)) (c.0)
      ∙ ap (λ b. find_oldest fuel l es (if b then node n else node o) (l.prev (node n)))
          (older-ltb n o (v.0) u)
      ∙ by (ltb (time n) (time o))
          (find-pick ns fuel n (node n) (c.1) (omega (arith, h)) (v.0) (v.1))
          (find-pick ns fuel o (node n) (c.1) (omega (arith, h)) u (v.1))
    where
      by :
          (b : Bool)
          → find_oldest fuel l es (node n) (l.prev (node n)) ≡ some (node (pick n ns))
          → find_oldest fuel l es (node o) (l.prev (node n)) ≡ some (node (pick o ns))
          → find_oldest fuel l es (if b then node n else node o) (l.prev (node n))
            ≡ some (node (pick (if b then n else o) ns))
      by true g k = g
      by false g k = k

-- A chain that a write to another node and to `tail` leaves.
Chain-unlink :
    (ns : List ℕ) (y m : ℕ) (prev : Ref → Option Ref) (p : Option Ref)
    → m ≢ y
    → Each (λ x. m ≢ x) ns
    → Chain prev (node y) ns
    → Chain (write (node m) none (write tail p prev)) (node y) ns
Chain-unlink [] y m prev p h d c =
    let e : (m == y) ≡ false = ground (arith, h) in
    ap (λ b. if b then none else prev (node y)) e ∙ c
Chain-unlink (x ∷ ns) y m prev p h d c =
    let e : (m == y) ≡ false = ground (arith, h) in
    (
      ap (λ b. if b then none else prev (node y)) e ∙ c.0,
      Chain-unlink ns x m prev p (d.0) (d.1) (c.1),
    )

-- The chain from `tail`, where the node `m` has been taken out and `tail` points to what stands in front of it.
Chain-front :
    (front : List ℕ) (m : ℕ) (prev : Ref → Option Ref)
    → Each (λ x. m ≢ x) front
    → Chain prev (node m) front
    → (p : Ref) × (prev (node m) ≡ some p)
      × Chain (write (node m) none (write tail (some p) prev)) tail front
Chain-front [] m prev d c = (head, c, refl)
Chain-front (x ∷ front) m prev d c =
    (node x, c.0, (refl, Chain-unlink front x m prev (some (node x)) (d.0) (d.1) (c.1)))

Chain-behind :
    (back : List ℕ) (m : ℕ) (front : List ℕ) (prev : Ref → Option Ref) (r : Ref)
    → Chain prev r (back ++ m ∷ front)
    → Chain prev (node m) front
Chain-behind [] m front prev r c = c.1
Chain-behind (x ∷ back) m front prev r c = Chain-behind back m front prev (node x) (c.1)

Apart-behind :
    (back : List ℕ) (m : ℕ) (front : List ℕ) → Apart (back ++ m ∷ front) → Each (λ x. m ≢ x) front
Apart-behind [] m front a = a.0
Apart-behind (x ∷ back) m front a = Apart-behind back m front (a.1)

-- The node that an eviction takes from a list, with the nodes behind it and in front of it.
pub record Evicts (l : Lru) (es : List CacheEntry) (time : ℕ → ℕ) (ns : List ℕ) : Type 0 where
  pub back : List ℕ
  pub victim : ℕ
  pub front : List ℕ
  pub parts : ns ≡ back ++ victim ∷ front
  pub oldest : Each (λ x. time victim ≤ time x) ns
  pub result : Lru
  pub evicts : lru_evict l es ≡ some (result, l.entry victim)
  pub left : Chain (result.prev) tail front

-- The links that `lru_evict` of a list with the nodes `n ∷ ns`, from the last one on, leaves.
evict-picked :
    (l : Lru) (es : List CacheEntry) (time : ℕ → ℕ) (n : ℕ) (ns back front : List ℕ)
    → Chain (l.prev) tail (n ∷ ns)
    → Apart (n ∷ ns)
    → n ∷ ns ≡ back ++ pick l es time n ns ∷ front
    → Each (λ x. time (pick l es time n ns) ≤ time x) (n ∷ ns)
    → lru_evict l es ≡ unlink_oldest l (node (pick l es time n ns))
    → Evicts l es time (n ∷ ns)
evict-picked l es time n ns back front c a q k e =
    let m = pick l es time n ns in
    let chain = Chain-behind back m front (l.prev) tail (subst (Chain (l.prev) tail) q c) in
    let (p, there, left) =
      Chain-front front m (l.prev) (Apart-behind back m front (subst Apart q a)) chain in
    record {
      back = back;
      victim = m;
      front = front;
      parts = q;
      oldest = k;
      result = record l {
        prev = write (node m) none (write tail (some p) (l.prev));
        next = write (node m) none (write p (some tail) (l.next));
      };
      evicts =
          e
          ∙ ap
              (λ o. through o (λ p. some (
                record l {
                  prev = write (node m) none (write tail (some p) (l.prev));
                  next = write (node m) none (write p (some tail) (l.next));
                },
                l.entry m,
              )))
              there;
      left = left;
    }

-- On a list of up to 128 different nodes with entries: `lru_evict` returns the entry of a node whose last use is not
-- behind that of any other one; but the list it leaves is only what stands in front of that node: all the nodes
-- between it and `tail` are lost with it.
pub lru_evict-Evicts :
    (l : Lru) (es : List CacheEntry) (time : ℕ → ℕ) (n : ℕ) (ns : List ℕ)
    → Chain (l.prev) tail (n ∷ ns)
    → Apart (n ∷ ns)
    → length (n ∷ ns) ≤ texcache_max_entries
    → Each (UsedAt l es time) (n ∷ ns)
    → Evicts l es time (n ∷ ns)
unfolding lru_evict
lru_evict-Evicts l es time n ns c a h u =
    let search =
      find-pick l es time ns (texcache_max_entries + 1) n (node n) (c.1) (omega (arith, h)) (u.0)
        (u.1) in
    let found : lru_evict l es ≡ unlink_oldest l (node (pick l es time n ns)) =
      ap
        (λ o. through o (λ last.
          if same_ref last head
          then some (l, none)
          else through (find_oldest (texcache_max_entries + 1) l es last (l.prev last))
              (unlink_oldest l)))
        (c.0)
      ∙ ap (λ o. through o (unlink_oldest l)) search in
    elim (pick-Picks l es time n ns) [
      | inl (e, k) ↦
          evict-picked l es time n ns [] ns c a (ap (λ m. m ∷ ns) (sym e))
            (subst (λ m. Each (λ x. time m ≤ time x) (n ∷ ns)) (sym e) (omega arith, k)) found
      | inr (back, front, q, o, k) ↦
          evict-picked l es time n ns (n ∷ back) front c a (ap (λ s. n ∷ s) q) (o, k) found
    ]
