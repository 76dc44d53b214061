-- ===== src/Menu/Tests.antt =====
-- Runs of the submenus of src/menusys.c, and the theorems at concrete inputs.
use opl_future_beta.Base.{ℕ, ◌≡◌, refl, Bool, List, [], ◌∷◌, none, some, ltb, arith}
use opl_future_beta.Text.{Str, first_char}
use opl_future_beta.Menu.{
  SubmenuItem, Node, submenu_append_item, submenu_remove_item, wrong_order, sort_pass, submenu_sort,
}
use opl_future_beta.Menu.Passes.{Linked, Asymmetric, inversions}
use opl_future_beta.Menu.Sorting.{Sorts, submenu_sort-Sorts}
use opl_future_beta.Menu.Pages.{
  Selection, menu_prev_v, next_v, prev_v, next_page, prev_page, last_page, menu_last_page, move,
}
use opl_future_beta.Menu.Paging.{IsOnPage, moves, moves-IsOnPage}
use opl_future_beta.Menu.Removal.{submenu_remove_item-NotLinked}

-- Texts by their ids, and an order by the first character.
abbrev lang : ℕ → Str
lang id = id ∷ []

abbrev is_behind : Str → Str → Bool
is_behind a b = ltb (first_char b) (first_char a)

is_behind-Asymmetric : Asymmetric lang is_behind
unfolding wrong_order
is_behind-Asymmetric a b h = ground (arith, h)

abbrev item : (id : ℕ) → SubmenuItem
item id = record { text = id ∷ []; text_id = none; id = id }

abbrev three : List Node
three =
    record { addr = 10; prev = none; item = item 7 }
    ∷ record { addr = 20; prev = some 10; item = item 9 }
    ∷ record { addr = 30; prev = some 20; item = item 8 }
    ∷ []

three_code :
    three
    ≡ submenu_append_item 30
        (item 8)
        (submenu_append_item 20 (item 9) (submenu_append_item 10 (item 7) []))
unfolding submenu_append_item
three_code = refl

sort_code :
    submenu_sort lang is_behind 2 three
    ≡ some (
        record { addr = 10; prev = none; item = item 7 }
        ∷ record { addr = 30; prev = some 10; item = item 8 }
        ∷ record { addr = 20; prev = some 30; item = item 9 }
        ∷ [])
unfolding submenu_sort sort_pass wrong_order
sort_code = refl

few : inversions lang is_behind three ≡ 1
unfolding wrong_order
few = refl

three-Linked : Linked none three
three-Linked = (refl, (refl, (refl, tt)))

submenu_sort-Sorts_example :
    (ns : List Node) × (submenu_sort lang is_behind 2 three ≡ some ns)
    × Sorts lang is_behind three ns
submenu_sort-Sorts_example =
    submenu_sort-Sorts lang is_behind 2 three is_behind-Asymmetric (omega (arith, few)) three-Linked

abbrev behind : Node
behind = record { addr = 30; prev = some 20; item = item 8 }

submenu_remove_item-NotLinked_example :
    (submenu_remove_item 9 three
      ≡ record { addr = 10; prev = none; item = item 7 }
        ∷ record { addr = 30; prev = some 20; item = item 8 }
        ∷ submenu_remove_item 9 [])
    × (behind.prev ≡ some 20)
    × ¬ Linked none (submenu_remove_item 9 three)
submenu_remove_item-NotLinked_example =
    submenu_remove_item-NotLinked 9 (record { addr = 10; prev = none; item = item 7 } ∷ [])
      (record { addr = 20; prev = some 10; item = item 9 })
      (record { addr = 30; prev = some 20; item = item 8 }) [] (λ e. omega (arith, e), tt)
      (λ e. omega (arith, e), tt) refl (λ e. omega (arith, e)) three-Linked

abbrev top : Selection
top = record { count = 9; current = some 0; pagestart = some 0 }

top-IsOnPage : IsOnPage 4 top
top-IsOnPage = record {
  at = 0;
  start = 0;
  current = refl;
  pagestart = refl;
  inside = omega arith;
  behind = omega arith;
  shown = omega arith;
}

moves_code :
    moves 4 (last_page ∷ prev_v ∷ prev_v ∷ prev_v ∷ prev_v ∷ []) top
    ≡ record { count = 9; current = some 4; pagestart = some 1 }
unfolding move menu_prev_v menu_last_page
moves_code = refl

moves-IsOnPage_example :
    IsOnPage 4 (moves 4 (next_v ∷ next_page ∷ prev_v ∷ prev_page ∷ last_page ∷ []) top)
moves-IsOnPage_example =
    moves-IsOnPage 4 (next_v ∷ next_page ∷ prev_v ∷ prev_page ∷ last_page ∷ []) top (omega arith)
      top-IsOnPage
