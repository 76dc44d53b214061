-- ===== src/Menu/Pages.antt =====
-- The selection in a submenu and its page, of src/menusys.c. Items are their positions: the next one of `k` is
-- `k + 1` up to the last item, the previous one `k - 1` down to 0.
use opl_future_beta.Base.{
  ℕ, zero, suc, ◌+◌, ◌-◌, Bool, true, false, Option, none, some, ltb, ◌==◌, if◌then◌else◌,
}

-- The submenu of `selected_item` by its number of items, with `current` and `pagestart`.
pub record Selection : Type 0 where
  pub count : ℕ
  pub current : Option ℕ
  pub pagestart : Option ℕ

-- What the loops `while (--itms && cur->prev)` and `while (--itms && cur->next)` reach in so many steps.
abbrev pub walk_back : (steps k : ℕ) → ℕ
walk_back zero k = k
walk_back (suc steps) zero = zero
walk_back (suc steps) (suc k) = walk_back steps k

abbrev pub walk_forward : (steps : ℕ) (count k : ℕ) → ℕ
walk_forward zero count k = k
walk_forward (suc steps) count k =
    let rest = walk_forward steps count (k + 1) in if ltb (k + 1) count then rest else k

-- The loop of `menuNextV`: whether `current` is one of the items from `k` on.
abbrev pub on_page : (steps : ℕ) (count current k : ℕ) → Bool
on_page zero count current k = false
on_page (suc steps) count current k =
    let rest = on_page steps count current (k + 1) in
    if current == k then true else if ltb (k + 1) count then rest else false

abbrev pub first_item : ℕ → Option ℕ
first_item zero = none
first_item (suc count) = some 0

-- `menuFirstPage`
unfoldable pub menu_first_page : Selection → Selection
menu_first_page s = elim (s.current) [
  | none ↦ s
  | some k ↦ record s { current = first_item (s.count); pagestart = first_item (s.count) }
]

-- The steps of `--itms` from `displayedItems`; from 0 they do not end before the first item.
abbrev pub steps_back : (displayed count : ℕ) → ℕ
steps_back zero count = count
steps_back (suc displayed) count = displayed

-- `menuLastPage`
unfoldable pub menu_last_page : (displayed : ℕ) → Selection → Selection
menu_last_page displayed s = elim (s.current) [
  | none ↦ s
  | some k ↦ record s {
    current = some (s.count - 1);
    pagestart = some (walk_back (steps_back displayed (s.count)) (s.count - 1));
  }
]

abbrev pub page_holds : (displayed count current : ℕ) → Option ℕ → Bool
page_holds displayed count current none = false
page_holds displayed count current (some k) = on_page displayed count current k

-- `menuNextV`
unfoldable pub menu_next_v : (displayed : ℕ) → Selection → Selection
unfolding menu_first_page
menu_next_v displayed s = elim (s.current) [
  | none ↦ menu_first_page s
  | some k ↦
      if ltb (k + 1) (s.count)
      then (if page_holds displayed (s.count) (k + 1) (s.pagestart)
          then record s { current = some (k + 1) }
          else record s { current = some (k + 1); pagestart = some (k + 1) })
      else menu_first_page s
]

abbrev pub page_back : (displayed k : ℕ) → Option ℕ → Option ℕ
page_back displayed k none = none
page_back displayed k (some p) = if p == k then some (walk_back displayed p) else some p

-- `menuPrevV`
unfoldable pub menu_prev_v : (displayed : ℕ) → Selection → Selection
unfolding menu_last_page
menu_prev_v displayed s = elim (s.current) [
  | none ↦ menu_last_page displayed s
  | some k ↦
      if ltb 0 k
      then record s { current = some (k - 1); pagestart = page_back displayed k (s.pagestart) }
      else menu_last_page displayed s
]

-- `menuNextPage`
unfoldable pub menu_next_page : (displayed : ℕ) → Selection → Selection
unfolding menu_first_page
menu_next_page displayed s = elim (s.pagestart) [
  | none ↦ menu_first_page s
  | some p ↦
      if ltb (p + 1) (s.count)
      then record s {
        current = some (walk_forward displayed (s.count) p);
        pagestart = some (walk_forward displayed (s.count) p);
      }
      else menu_first_page s
]

-- `menuPrevPage`
unfoldable pub menu_prev_page : (displayed : ℕ) → Selection → Selection
unfolding menu_last_page
menu_prev_page displayed s = elim (s.pagestart) [
  | none ↦ menu_last_page displayed s
  | some p ↦
      if ltb 0 p
      then record s {
        current = some (walk_back displayed p);
        pagestart = some (walk_back displayed p);
      }
      else menu_last_page displayed s
]

-- The keys that move the selection.
pub data Move : Type 0 where
  next_v : Move
  prev_v : Move
  next_page : Move
  prev_page : Move
  first_page : Move
  last_page : Move

unfoldable pub move : (displayed : ℕ) → Move → Selection → Selection
unfolding menu_next_v menu_prev_v menu_next_page menu_prev_page menu_first_page menu_last_page
move displayed next_v s = menu_next_v displayed s
move displayed prev_v s = menu_prev_v displayed s
move displayed next_page s = menu_next_page displayed s
move displayed prev_page s = menu_prev_page displayed s
move displayed first_page s = menu_first_page s
move displayed last_page s = menu_last_page displayed s
