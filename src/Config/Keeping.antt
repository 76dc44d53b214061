-- ===== src/Config/Keeping.antt =====
-- `configSetStr`, `configRemoveKey` and `configMerge` keep the linked list.
use opl_future_beta.Base.{
  ℕ, ◌≡◌, ◌≢◌, ◌∙◌, ap, refl, sym, subst, Bool, true, false, List, [], ◌∷◌, Option, none, some,
  ◌==◌, Bool-cases, inl, inr, if◌then◌else◌, if-elim, length-take, arith,
}
use opl_future_beta.Text.{Str, strncmp_eq, copy_terminated, first_char}
use opl_future_beta.Config.{
  Item, ConfigSet, key_name_len, key_value_len, config_alloc, key_validate, add_config_value,
  find_item, write_val, touch, overwrite, config_set_str, is_tail, remove_loop, config_remove_key,
  merge_items, config_merge, config_clear, config_move,
}
use opl_future_beta.Config.Linked.{All, last_id, IsItem, Distinct, IsLinked, add-IsLinked}

last_id-write_val :
    (before : Option ℕ) (id : ℕ) (val : Str) (is : List Item)
    → last_id before (write_val id val is) ≡ last_id before is
unfolding write_val
last_id-write_val before id val [] = refl
last_id-write_val before id val (i ∷ is) =
    if-elim (λ l. last_id before l ≡ last_id (some (i.id)) is) (i.id == id) (λ _. refl)
      (λ _. last_id-write_val (some (i.id)) id val is)

All-write_val :
    (P : Item → Type 0) (id : ℕ) (val : Str) (is : List Item)
    → ((i : Item) → P i → P (record i { val = val }))
    → All P is
    → All P (write_val id val is)
unfolding write_val
All-write_val P id val [] k h = tt
All-write_val P id val (i ∷ is) k h =
    if-elim (All P) (i.id == id) (λ _. (k i (h.0), h.1))
      (λ _. (h.0, All-write_val P id val is k (h.1)))

Distinct-write_val :
    (id : ℕ) (val : Str) (is : List Item) → Distinct is → Distinct (write_val id val is)
unfolding write_val
Distinct-write_val id val [] d = tt
Distinct-write_val id val (i ∷ is) d =
    if-elim Distinct (i.id == id) (λ _. d)
      (λ _. (
        All-write_val (λ (j : Item). j.id ≢ i.id) id val is (λ j h. h) (d.0),
        Distinct-write_val id val is (d.1),
      ))

-- `modified` plays no part in the list.
touch-IsLinked : (key : Str) (s : ConfigSet) → IsLinked s → IsLinked (touch key s)
touch-IsLinked key s v =
    if-elim IsLinked (first_char key == 35) (λ _. v)
      (λ _. record { ends = v.ends; fits = v.fits; distinct = v.distinct })

overwrite-IsLinked :
    (s : ConfigSet) (value : Str) (it : Item) → IsLinked s → IsLinked (overwrite s value it)
unfolding overwrite copy_terminated
overwrite-IsLinked s value it v =
    if-elim IsLinked (strncmp_eq key_value_len (it.val) value) (λ _. v)
      (λ _. touch-IsLinked (it.key) _ (record {
        ends = v.ends ∙ sym (last_id-write_val none (it.id) _ (s.items));
        fits =
            All-write_val (IsItem (s.next_id)) (it.id) _ (s.items)
              (λ i f. record {
                given = f.given;
                short_key = f.short_key;
                short_val = omega (arith, length-take {0} 255 value);
              })
              (v.fits);
        distinct = Distinct-write_val (it.id) _ (s.items) (v.distinct);
      }))

-- `configSetStr` keeps the list.
pub set-IsLinked :
    (s : ConfigSet) (key value : Str) → IsLinked s → IsLinked ((config_set_str s key value).1)
unfolding config_set_str
set-IsLinked s key value v =
    if-elim (λ (r : Bool × ConfigSet). IsLinked (r.1)) (key_validate key)
      (λ _. found (find_item key (s.items))) (λ _. v)
  where
    found :
        (o : Option Item)
        → IsLinked (elim o [
          | some it ↦ overwrite s value it
          | none ↦ touch key (add_config_value s key value)
        ])
    found none = touch-IsLinked key _ (add-IsLinked s key value v)
    found (some it) = overwrite-IsLinked s value it v

merge_items-IsLinked : (is : List Item) (s : ConfigSet) → IsLinked s → IsLinked (merge_items s is)
unfolding merge_items
merge_items-IsLinked [] s v = v
merge_items-IsLinked (i ∷ is) s v =
    merge_items-IsLinked is ((config_set_str s (i.key) (i.val)).1)
      (set-IsLinked s (i.key) (i.val) v)

-- The items that `configRemoveKey` leaves.
unfoldable pub without : Str → List Item → List Item
without key [] = []
without key (i ∷ is) =
    if strncmp_eq key_name_len (i.key) key then without key is else i ∷ without key is

All-without : (P : Item → Type 0) (key : Str) (is : List Item) → All P is → All P (without key is)
unfolding without
All-without P key [] h = tt
All-without P key (i ∷ is) h =
    if-elim (All P) (strncmp_eq key_name_len (i.key) key) (λ _. All-without P key is (h.1))
      (λ _. (h.0, All-without P key is (h.1)))

Distinct-without : (key : Str) (is : List Item) → Distinct is → Distinct (without key is)
unfolding without
Distinct-without key [] d = tt
Distinct-without key (i ∷ is) d =
    if-elim Distinct (strncmp_eq key_name_len (i.key) key) (λ _. Distinct-without key is (d.1))
      (λ _. (All-without (λ (j : Item). j.id ≢ i.id) key is (d.0), Distinct-without key is (d.1)))

not_tail :
    (a : ℕ) (j : Item) (js : List Item)
    → j.id ≢ a
    → All (λ (k : Item). k.id ≢ a) js
    → is_tail a (last_id (some (j.id)) js) ≡ false
not_tail a j [] n h = ground arith
not_tail a j (k ∷ ks) n h = not_tail a k ks (h.0) (h.1)

-- The tail after an item has been taken out.
cut_tail :
    (i : Item) (is : List Item) (prev tail : Option ℕ)
    → Distinct (i ∷ is)
    → tail ≡ last_id (some (i.id)) is
    → (if is_tail (i.id) tail then prev else tail) ≡ last_id prev is
cut_tail i [] prev tail d e = rw e (let k : (i.id == i.id) ≡ true = ground arith in rw k)
cut_tail i (j ∷ js) prev tail d e =
    let k : is_tail (i.id) (last_id (some (j.id)) js) ≡ false =
      not_tail (i.id) j js (d.0.0) (d.0.1) in
    rw e (rw k)

remove_loop_lem :
    (key : Str) (is : List Item) (prev tail : Option ℕ) (modified : Bool)
    → Distinct is
    → tail ≡ last_id prev is
    → ((remove_loop key is prev tail modified).0 ≡ without key is)
      × ((remove_loop key is prev tail modified).1 ≡ last_id prev (without key is))
unfolding remove_loop without
remove_loop_lem key [] prev tail modified d e = (refl, e)
remove_loop_lem key (i ∷ is) prev tail modified d e =
    elim (Bool-cases (strncmp_eq key_name_len (i.key) key)) [
      | inl k ↦ simp k (
          remove_loop_lem key is prev (if is_tail (i.id) tail then prev else tail) _ (d.1)
            (cut_tail i is prev tail d e))
      | inr k ↦
          let r = remove_loop_lem key is (some (i.id)) tail modified (d.1) e in
          simp k (ap (λ l. i ∷ l) (r.0), r.1)
    ]

pub items-remove :
    (s : ConfigSet) (key : Str)
    → IsLinked s
    → key_validate key ≡ true
    → (config_remove_key s key).1.items ≡ without key (s.items)
unfolding config_remove_key
items-remove s key v k =
    simp k ((remove_loop_lem key (s.items) none (s.tail) (s.modified) (v.distinct) (v.ends)).0)

-- `configRemoveKey` keeps the list.
pub remove-IsLinked :
    (s : ConfigSet) (key : Str) → IsLinked s → IsLinked ((config_remove_key s key).1)
unfolding config_remove_key
remove-IsLinked s key v =
    let r = remove_loop_lem key (s.items) none (s.tail) (s.modified) (v.distinct) (v.ends) in
    if-elim (λ (r : Bool × ConfigSet). IsLinked (r.1)) (key_validate key)
      (λ _. record {
        ends = r.1 ∙ sym (ap (last_id none) (r.0));
        fits =
            subst (All (IsItem (s.next_id))) (sym (r.0))
              (All-without (IsItem (s.next_id)) key (s.items) (v.fits));
        distinct = subst Distinct (sym (r.0)) (Distinct-without key (s.items) (v.distinct));
      })
      (λ _. v)

-- A change to a set.
pub data Change : Type 0 where
  sets : Str → Str → Change
  removes : Str → Change
  merges : ConfigSet → Change
  clears : Change
  moves : Str → Change

unfoldable pub change : ConfigSet → Change → ConfigSet
change s (sets key value) = (config_set_str s key value).1
change s (removes key) = (config_remove_key s key).1
change s (merges source) = config_merge s source
change s clears = config_clear s
change s (moves file_name) = config_move s file_name

unfoldable pub changes : ConfigSet → List Change → ConfigSet
unfolding change
changes s [] = s
changes s (c ∷ cs) = changes (change s c) cs

change-IsLinked : (c : Change) (s : ConfigSet) → IsLinked s → IsLinked (change s c)
unfolding change config_merge config_clear config_move
change-IsLinked (sets key value) s v = set-IsLinked s key value v
change-IsLinked (removes key) s v = remove-IsLinked s key v
change-IsLinked (merges source) s v = merge_items-IsLinked (source.items) s v
change-IsLinked clears s v = record { ends = refl; fits = tt; distinct = tt }
change-IsLinked (moves file_name) s v = record {
  ends = v.ends;
  fits = v.fits;
  distinct = v.distinct;
}

all-IsLinked : (cs : List Change) (s : ConfigSet) → IsLinked s → IsLinked (changes s cs)
unfolding changes
all-IsLinked [] s v = v
all-IsLinked (c ∷ cs) s v = all-IsLinked cs (change s c) (change-IsLinked c s v)

-- Whatever is done to a set after `configAlloc`, its `tail` is the address of its last item, no two
-- items share an address, and every key and value fits its array with the NUL behind it.
pub changes-IsLinked :
    (cs : List Change) (current_uid type : ℕ) (file_name : Option Str)
    → IsLinked (changes (config_alloc current_uid type file_name) cs)
unfolding config_alloc
changes-IsLinked cs current_uid type file_name =
    all-IsLinked cs _ (record { ends = refl; fits = tt; distinct = tt })
