-- ===== src/Menu/Sorting.antt =====
-- `submenuSort` of src/menusys.c.
use opl_future_beta.Base.{
  ℕ, zero, suc, ◌<◌, ◌≡◌, ◌∙◌, ap, refl, sym, subst, Bool, true, false, List, [], ◌∷◌, ◌++◌, Option,
  none, some, if◌then◌else◌, arith,
}
use opl_future_beta.Text.{Str}
use opl_future_beta.Menu.{
  SubmenuItem, Node, last_addr, submenu_append_item, sort_pass, pass, again, submenu_sort,
}
use opl_future_beta.Menu.Passes.{
  count, Linked, IsSorted, inversions, pass-count, pass_all-Linked, pass-IsSorted, Asymmetric,
  pass-inversions,
}

-- An item behind a list is linked to its last node.
pub append-Linked :
    (addr : ℕ) (item : SubmenuItem) (ns : List Node)
    → Linked none ns
    → Linked none (submenu_append_item addr item ns)
unfolding submenu_append_item
append-Linked addr item ns h = from none ns h
  where
    from :
        (p : Option ℕ) (ns : List Node)
        → Linked p ns
        → Linked p (ns ++ record { addr = addr; prev = last_addr p ns; item = item } ∷ [])
    from p [] h = (refl, tt)
    from p (n ∷ ns) h = (h.0, from (some (n.addr)) ns (h.1))

module _ (lang : ℕ → Str) (is_behind : Str → Str → Bool) where
  -- A list sorted, with the items and the links of a list.
  pub record Sorts (ns ns' : List Node) : Type 0 where
    pub sorted : IsSorted lang is_behind ns'
    pub linked : Linked none ns'
    pub same : (p : SubmenuItem → Bool) → count p ns' ≡ count p ns

  abbrev Swept : List Node → List Node × Bool → Type 0
  Swept ns r =
      Linked none (r.0)
      × ((p : SubmenuItem → Bool) → count p (r.0) ≡ count p ns)
      × (r.1 ≡ true → IsSorted lang is_behind (r.0))
      × (r.1 ≡ false → inversions lang is_behind (r.0) < inversions lang is_behind ns)

  pass-Swept :
      Asymmetric lang is_behind
      → (ns : List Node) → Linked none ns
      → Swept ns (pass lang is_behind ns)
  pass-Swept asym [] h = (tt, λ p. refl, λ _. tt, λ q. absurd cc)
  pass-Swept asym (n ∷ ns) h =
      let fewer = pass-inversions lang is_behind asym ns n false in
      (
        pass_all-Linked lang is_behind (n ∷ ns) h,
        λ p. pass-count lang is_behind p ns n false,
        λ q.
            let s = pass-IsSorted lang is_behind ns n q in
            subst (IsSorted lang is_behind) (sym (s.0)) (s.1),
        λ q.
            let flag : ℕ = if (sort_pass lang is_behind ns n false).1 then 0 else 1 in
            let one : flag ≡ 1 = ap (λ b. if b then 0 else 1) q in omega (arith, fewer, one),
      )

  sort-Sorts :
      Asymmetric lang is_behind
      → (passes : ℕ) (ns : List Node) → inversions lang is_behind ns < passes
      → Linked none ns
      → (ns' : List Node) × (submenu_sort lang is_behind passes ns ≡ some ns') × Sorts ns ns'
  unfolding submenu_sort
  sort-Sorts asym zero ns h k = absurd (omega (arith, h))
  sort-Sorts asym (suc passes) ns h k =
      by (pass lang is_behind ns) (pass-Swept asym ns k) (λ ms f g. sort-Sorts asym passes ms f g)
    where
      by :
          (r : List Node × Bool)
          → Swept ns r
          → ((ms : List Node)
              → inversions lang is_behind ms < passes
              → Linked none ms
              → (ns' : List Node) × (submenu_sort lang is_behind passes ms ≡ some ns')
                × Sorts ms ns')
          → (ns' : List Node) × (again lang is_behind (submenu_sort lang is_behind passes) r
              ≡ some ns')
            × Sorts ns ns'
      by (ms, true) (l, c, s, f) go = (ms, refl, record { sorted = s refl; linked = l; same = c })
      by (ms, false) (l, c, s, f) go =
          let (ns', e, v) = go ms (omega (arith, h, f refl)) l in
          (ns', e, record { sorted = v.sorted; linked = v.linked; same = λ p. v.same p ∙ c p })

-- For a comparison that is never positive both ways, and a list with the links of its order, with one pass more
-- than there are pairs in the wrong order: `submenuSort` ends, no item is in the wrong order with the next one,
-- the links are those of the new order, and the items are the same.
pub submenu_sort-Sorts :
    (lang : ℕ → Str) (is_behind : Str → Str → Bool) (passes : ℕ) (ns : List Node)
    → Asymmetric lang is_behind
    → inversions lang is_behind ns < passes
    → Linked none ns
    → (ns' : List Node) × (submenu_sort lang is_behind passes ns ≡ some ns')
      × Sorts lang is_behind ns ns'
submenu_sort-Sorts lang is_behind passes ns asym h k = sort-Sorts lang is_behind asym passes ns h k
