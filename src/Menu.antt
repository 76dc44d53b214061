-- ===== src/Menu.antt =====
-- The submenus of src/menusys.c: doubly linked lists of items, in the order of their `next` pointers.
pub mod Passes
pub mod Sorting
pub mod Removal
pub mod Pages
pub mod Paging
mod Tests
use opl_future_beta.Base.{
  ℕ, zero, suc, ◌+◌, Bool, true, false, not, ◌&&◌, List, [], ◌∷◌, ◌++◌, Option, none, some, ◌==◌,
  if◌then◌else◌,
}
use opl_future_beta.Text.{Str}

-- `submenu_item_t` without its icon and its caches: `text_id` is none where it is negative.
pub record SubmenuItem : Type 0 where
  pub text : Str
  pub text_id : Option ℕ
  pub id : ℕ

-- `submenu_list_t`: a node at an address, with its `prev` pointer; the node behind it is the next one of the list.
pub record Node : Type 0 where
  pub addr : ℕ
  pub prev : Option ℕ
  pub item : SubmenuItem

abbrev pub last_addr : Option ℕ → List Node → Option ℕ
last_addr p [] = p
last_addr p (n ∷ ns) = last_addr (some (n.addr)) ns

-- `submenuAppendItem`, with the address that `malloc` gives.
unfoldable pub submenu_append_item : (addr : ℕ) → SubmenuItem → List Node → List Node
submenu_append_item addr item ns =
    ns ++ record { addr = addr; prev = last_addr none ns; item = item } ∷ []

-- `submenuRemoveItem`: the items with the id. No `prev` pointer is written.
unfoldable pub submenu_remove_item : (id : ℕ) → List Node → List Node
submenu_remove_item id [] = []
submenu_remove_item id (n ∷ ns) =
    let rest = submenu_remove_item id ns in if n.item.id == id then rest else n ∷ rest

-- `_l` gives the text of the language for an id, and `is_behind` is `strcasecmp(a, b) > 0`.
module _ (lang : ℕ → Str) (is_behind : Str → Str → Bool) where
  -- `submenuItemGetText`
  abbrev pub submenu_item_get_text : SubmenuItem → Str
  submenu_item_get_text it = elim (it.text_id) [ some id ↦ lang id | none ↦ it.text ]

  -- `cmp > 0`
  unfoldable pub wrong_order : SubmenuItem → SubmenuItem → Bool
  wrong_order a b = is_behind (submenu_item_get_text a) (submenu_item_get_text b)

  -- The node behind `tip`, whose `prev` the last `swap` has set.
  abbrev pub relink : (swapped : Bool) → (tip nxt : Node) → Node
  relink swapped tip nxt = record nxt { prev = if swapped then some (tip.addr) else nxt.prev }

  abbrev pub cons_node : Node → List Node × Bool → List Node × Bool
  cons_node n (ns, sorted) = (n ∷ ns, sorted)

  abbrev pub cons_swap : Node → List Node × Bool → List Node × Bool
  cons_swap n (ns, sorted) = (n ∷ ns, false)

  -- The inner loop of `submenuSort` from `tip` on, with `swap`: the list, and `sorted`.
  unfoldable pub sort_pass : List Node → (tip : Node) → (swapped : Bool) → List Node × Bool
  unfolding wrong_order
  sort_pass [] tip swapped = (tip ∷ [], true)
  sort_pass (n ∷ ns) tip swapped =
      let nxt = relink swapped tip n in
      let moved = sort_pass ns (record tip { prev = some (nxt.addr) }) true in
      let rest = sort_pass ns nxt false in
      if wrong_order (tip.item) (nxt.item)
      then cons_swap (record nxt { prev = tip.prev }) moved
      else cons_node tip rest

  abbrev pub pass : List Node → List Node × Bool
  pass [] = ([], true)
  pass (n ∷ ns) = sort_pass ns n false

  abbrev pub again : (List Node → Option (List Node)) → List Node × Bool → Option (List Node)
  again go (ns, true) = some ns
  again go (ns, false) = go ns

  -- `submenuSort`; `none` if the passes run out.
  unfoldable pub submenu_sort : (passes : ℕ) → List Node → Option (List Node)
  unfolding sort_pass
  submenu_sort zero ns = none
  submenu_sort (suc passes) ns = again (submenu_sort passes) (pass ns)
