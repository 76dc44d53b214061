-- ===== src/Menu/Passes.antt =====
-- One pass of `submenuSort` of src/menusys.c.
use opl_future_beta.Base.{
  ℕ, ◌+◌, ◌≤◌, ◌≡◌, ap, refl, Bool, true, false, List, [], ◌∷◌, Option, none, some, if◌then◌else◌,
  if-elim, arith,
}
use opl_future_beta.Text.{Str}
use opl_future_beta.Menu.{SubmenuItem, Node, wrong_order, relink, sort_pass, pass}

-- How many items have a property.
abbrev pub count : (SubmenuItem → Bool) → List Node → ℕ
count p [] = 0
count p (n ∷ ns) = (if p (n.item) then 1 else 0) + count p ns

-- The `prev` pointers are those of the list, behind a node at `p`.
abbrev pub Linked : (p : Option ℕ) → List Node → Type 0
Linked p [] = Unit {0}
Linked p (n ∷ ns) = (n.prev ≡ p) × Linked (some (n.addr)) ns

module _ (lang : ℕ → Str) (is_behind : Str → Str → Bool) where
  abbrev wrong : SubmenuItem → SubmenuItem → Bool
  wrong a b = wrong_order lang is_behind a b

  -- No item is in the wrong order with the next one.
  abbrev pub IsSorted : List Node → Type 0
  IsSorted [] = Unit {0}
  IsSorted (a ∷ []) = Unit {0}
  IsSorted (a ∷ b ∷ ns) = (wrong (a.item) (b.item) ≡ false) × IsSorted (b ∷ ns)

  -- The pairs of items in the wrong order.
  abbrev pub inversions : List Node → ℕ
  inversions [] = 0
  inversions (n ∷ ns) = count (wrong (n.item)) ns + inversions ns

  pub pass-count :
      (p : SubmenuItem → Bool) (ns : List Node) (tip : Node) (s : Bool)
      → count p ((sort_pass lang is_behind ns tip s).0) ≡ count p (tip ∷ ns)
  unfolding sort_pass
  pass-count p [] tip s = refl
  pass-count p (n ∷ ns) tip s =
      let nxt = relink lang is_behind s tip n in
      let moved = pass-count p ns (record tip { prev = some (n.addr) }) true in
      let rest = pass-count p ns nxt false in
      if-elim (λ (r : List Node × Bool). count p (r.0) ≡ count p (tip ∷ n ∷ ns))
        (wrong (tip.item) (n.item)) (λ t. omega (arith, moved)) (λ t. omega (arith, rest))

  -- The nodes behind `tip` as the pass sees them.
  abbrev relinked : (s : Bool) (tip : Node) → List Node → List Node
  relinked s tip [] = []
  relinked s tip (n ∷ ns) = relink lang is_behind s tip n ∷ ns

  Linked-relinked :
      (ns : List Node) (tip n : Node)
      → Linked (some (n.addr)) ns
      → Linked (some (tip.addr)) (relinked true tip ns)
  Linked-relinked [] tip n h = tt
  Linked-relinked (m ∷ ns) tip n h = (refl, h.1)

  same :
      (ns : List Node) (tip : Node)
      → Linked (some (tip.addr)) ns
      → Linked (some (tip.addr)) (relinked false tip ns)
  same [] tip h = tt
  same (m ∷ ns) tip h = h

  pub pass-Linked :
      (ns : List Node) (tip : Node) (s : Bool) (p : Option ℕ)
      → tip.prev ≡ p
      → Linked (some (tip.addr)) (relinked s tip ns)
      → Linked p ((sort_pass lang is_behind ns tip s).0)
  unfolding sort_pass
  pass-Linked [] tip s p q h = (q, tt)
  pass-Linked (n ∷ ns) tip s p q h =
      let nxt = relink lang is_behind s tip n in
      if-elim (λ (r : List Node × Bool). Linked p (r.0)) (wrong (tip.item) (n.item))
        (λ t. (
          q,
          pass-Linked ns (record tip { prev = some (n.addr) }) true (some (n.addr)) refl
              (Linked-relinked ns tip n (h.1)),
        ))
        (λ t. (q, pass-Linked ns nxt false (some (tip.addr)) (h.0) (same ns nxt (h.1))))

  pub pass_all-Linked : (ns : List Node) → Linked none ns → Linked none ((pass lang is_behind ns).0)
  pass_all-Linked [] h = tt
  pass_all-Linked (n ∷ ns) h = pass-Linked ns n false none (h.0) (same ns n (h.1))

  -- A pass that swaps nothing leaves a sorted list as it is.
  pub pass-IsSorted :
      (ns : List Node) (tip : Node)
      → (sort_pass lang is_behind ns tip false).1 ≡ true
      → ((sort_pass lang is_behind ns tip false).0 ≡ tip ∷ ns) × IsSorted (tip ∷ ns)
  unfolding sort_pass
  pass-IsSorted [] tip e = (refl, tt)
  pass-IsSorted (n ∷ ns) tip e =
      if-elim
        (λ (r : List Node × Bool). r.1 ≡ true → (r.0 ≡ tip ∷ n ∷ ns) × IsSorted (tip ∷ n ∷ ns))
        (wrong (tip.item) (n.item)) (λ t q. absurd cc)
        (λ t q. let ih = pass-IsSorted ns n q in (ap (λ l. tip ∷ l) (ih.0), (t, ih.1))) e

  -- Items are not in the wrong order both ways.
  abbrev pub Asymmetric : Type 0
  Asymmetric = (a b : SubmenuItem) → wrong a b ≡ true → wrong b a ≡ false

  -- A pass that swaps leaves fewer pairs in the wrong order.
  pub pass-inversions :
      Asymmetric
      → (ns : List Node) (tip : Node) (s : Bool)
      → inversions ((sort_pass lang is_behind ns tip s).0)
          + (if (sort_pass lang is_behind ns tip s).1 then 0 else 1)
        ≤ inversions (tip ∷ ns)
  unfolding sort_pass
  pass-inversions asym [] tip s = omega arith
  pass-inversions asym (n ∷ ns) tip s =
      let nxt = relink lang is_behind s tip n in
      let tip' = record tip { prev = some (n.addr) } in
      let here : ℕ = if wrong (tip.item) (n.item) then 1 else 0 in
      if-elim
        (λ (r : List Node × Bool).
          inversions (r.0) + (if r.1 then 0 else 1) ≤ inversions (tip ∷ n ∷ ns))
        (wrong (tip.item) (n.item))
        (λ t.
          let one : here ≡ 1 = ap (λ b. if b then 1 else 0) t in
          let backward : ℕ = if wrong (n.item) (tip.item) then 1 else 0 in
          let back : backward ≡ 0 = ap (λ b. if b then 1 else 0) (asym (tip.item) (n.item) t) in
          omega (
            arith,
            one,
            back,
            pass-inversions asym ns tip' true,
            pass-count (wrong (n.item)) ns tip' true,
          ))
        (λ t.
          omega
            (arith, pass-inversions asym ns nxt false, pass-count (wrong (tip.item)) ns nxt false))
