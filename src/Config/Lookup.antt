-- ===== src/Config/Lookup.antt =====
-- What `configGetStr` finds after `configSetStr` and `configRemoveKey`.
use opl_future_beta.Base.{
  ℕ, ◌<◌, ◌≡◌, ◌≢◌, ◌∙◌, ap, refl, sym, subst, true, false, List, [], ◌∷◌, ◌++◌, Option, none, some,
  ◌==◌, Bool-cases, inl, inr, ◌⊎◌, if◌then◌else◌, if-elim, length, take, take_all, arith,
}
use opl_future_beta.Text.{
  Str, take-take, str_eq, str_eq_refl, str_eq-eq, strncmp_eq, strncmp_eq_short, copy_terminated,
  copy_terminated_short, first_char,
}
use opl_future_beta.Config.{
  Item, ConfigSet, key_name_len, key_value_len, key_validate, alloc_config_item, add_config_value,
  find_item, write_val, touch, overwrite, config_set_str, config_get_str, config_remove_key,
}
use opl_future_beta.Config.Linked.{All, IsItem, Distinct, IsLinked, add-items}
use opl_future_beta.Config.Keeping.{set-IsLinked, without, items-remove, remove-IsLinked}

-- The value under a key, by comparison of whole strings.
unfoldable pub lookup_val : Str → List Item → Option Str
lookup_val key [] = none
lookup_val key (i ∷ is) = if str_eq (i.key) key then some (i.val) else lookup_val key is

-- An item under another key stands in the way of neither.
behind :
    (i : Item) (key k : Str) (u x y : Option Str)
    → str_eq (i.key) key ≡ false
    → x ≡ (if str_eq key k then u else y)
    → (if str_eq (i.key) k then some (i.val) else x)
      ≡ (if str_eq key k then u else if str_eq (i.key) k then some (i.val) else y)
behind i key k u x y t ih = go (Bool-cases (str_eq (i.key) k)) (Bool-cases (str_eq key k)) t ih
  where
    go :
        (str_eq (i.key) k ≡ true) ⊎ (str_eq (i.key) k ≡ false)
        → (str_eq key k ≡ true) ⊎ (str_eq key k ≡ false)
        → str_eq (i.key) key ≡ false
        → x ≡ (if str_eq key k then u else y)
        → (if str_eq (i.key) k then some (i.val) else x)
          ≡ (if str_eq key k then u else if str_eq (i.key) k then some (i.val) else y)
    go (inl a) (inl b) t ih = absurd (
        let s = str_eq-eq (i.key) k a ∙ sym (str_eq-eq key k b) in
        let q = sym (ap (str_eq (i.key)) s) ∙ str_eq_refl (i.key) in cc)
    go (inl a) (inr b) t ih = simp (a, b) refl
    go (inr a) c t ih = simp a ih

module _ (n : ℕ) where
  find-lookup :
      (key : Str) (is : List Item)
      → All (IsItem n) is
      → length key < key_name_len
      → lookup_val key is ≡ elim (find_item key is) [ none ↦ none | some it ↦ some (it.val) ]
  unfolding lookup_val find_item
  find-lookup key [] f k = refl
  find-lookup key (i ∷ is) f k =
      let e = strncmp_eq_short key_name_len (i.key) key (f.0.short_key) k in
      rw e (elim (Bool-cases (str_eq (i.key) key)) [
        | inl t ↦ rw t
        | inr t ↦ rw t (find-lookup key is (f.1) k)
      ])

  lookup-without :
      (key k : Str) (is : List Item)
      → All (IsItem n) is
      → length key < key_name_len
      → lookup_val k (without key is) ≡ (if str_eq key k then none else lookup_val k is)
  unfolding lookup_val without
  lookup-without key k [] f lt = ground arith
  lookup-without key k (i ∷ is) f lt =
      let e = strncmp_eq_short key_name_len (i.key) key (f.0.short_key) lt in
      let ih = lookup-without key k is (f.1) lt in
      rw e (elim (Bool-cases (str_eq (i.key) key)) [
        | inl t ↦ let s : i.key ≡ key = str_eq-eq (i.key) key t in simp t (rw s (ih ∙ ground arith))
        | inr t ↦ simp t (behind i key k none _ _ t ih)
      ])

-- A write to the item found for a key is the write to the key.
lookup_val-write_val_other :
    (id : ℕ) (val k : Str) (is : List Item)
    → All (λ (j : Item). j.id ≢ id) is
    → lookup_val k (write_val id val is) ≡ lookup_val k is
unfolding lookup_val write_val
lookup_val-write_val_other id val k [] h = refl
lookup_val-write_val_other id val k (i ∷ is) h =
    let ih = lookup_val-write_val_other id val k is (h.1) in
    let e : (i.id == id) ≡ false = ground (arith, h.0) in
    simp e (ap (λ r. if str_eq (i.key) k then some (i.val) else r) ih)

find_item-any :
    (P : Item → Type 0) (key : Str) (is : List Item) (it : Item)
    → All P is
    → find_item key is ≡ some it
    → P it
unfolding find_item
find_item-any P key [] it h e = ground arith
find_item-any P key (i ∷ is) it h e = elim (Bool-cases (strncmp_eq key_name_len (i.key) key)) [
  | inl t ↦ subst P (ground arith) (h.0)
  | inr t ↦ find_item-any P key is it (h.1) (ground arith)
]

module _ (n : ℕ) where
  lookup-write_val :
      (key k val : Str) (is : List Item) (it : Item)
      → All (IsItem n) is
      → Distinct is
      → length key < key_name_len
      → find_item key is ≡ some it
      → lookup_val k (write_val (it.id) val is)
        ≡ (if str_eq key k then some val else lookup_val k is)
  unfolding lookup_val write_val find_item
  lookup-write_val key k val [] it f d lt e = absurd (ground arith)
  lookup-write_val key k val (i ∷ is) it f d lt e =
      let q = strncmp_eq_short key_name_len (i.key) key (f.0.short_key) lt in
      elim (Bool-cases (str_eq (i.key) key)) [
        | inl t ↦
            let s : i.key ≡ key = str_eq-eq (i.key) key t in
            let h : i ≡ it = ground (arith, q, t, e) in
            let w : (i.id == it.id) ≡ true = ground (arith, h) in simp w (rw s (ground arith))
        | inr t ↦
            let h : find_item key is ≡ some it = ground (arith, q, t, e) in
            let w : (i.id == it.id) ≡ false =
              ground (arith, find_item-any (λ (j : Item). j.id ≢ i.id) key is it (d.0) h) in
            simp w
              (behind i key k (some val) _ _ t (lookup-write_val key k val is it (f.1) (d.1) lt h))
      ]

  lookup-append :
      (key k val : Str) (is : List Item) (new : Item)
      → All (IsItem n) is
      → length key < key_name_len
      → find_item key is ≡ none
      → new.key ≡ key
      → lookup_val k (is ++ new ∷ []) ≡ (if str_eq key k then some (new.val) else lookup_val k is)
  unfolding lookup_val find_item
  lookup-append key k val [] new f lt e g = rw g refl
  lookup-append key k val (i ∷ is) new f lt e g =
      let q = strncmp_eq_short key_name_len (i.key) key (f.0.short_key) lt in
      let t : str_eq (i.key) key ≡ false = ground (arith, q, e) in
      behind i key k (some (new.val)) _ _ t
        (lookup-append key k val is new (f.1) lt (ground (arith, q, e)) g)

touch_items : (key : Str) (s : ConfigSet) → (touch key s).items ≡ s.items
touch_items key s =
    if-elim (λ (r : ConfigSet). r.items ≡ s.items) (first_char key == 35) (λ _. refl) (λ _. refl)

-- A value that `strncmp` finds equal is what `strncpy` would write.
same_value :
    (a b : Str)
    → length a < key_value_len
    → strncmp_eq key_value_len a b ≡ true
    → a ≡ copy_terminated key_value_len b
unfolding strncmp_eq copy_terminated
same_value a b h e =
    let q : take 256 a ≡ take 256 b = str_eq-eq (take 256 a) (take 256 b) e in
    sym (take_all 255 a (omega (arith, h)))
    ∙ sym (take-take 255 256 a (omega arith))
    ∙ ap (take 255) q
    ∙ take-take 255 256 b (omega arith)

get-lookup :
    (s : ConfigSet) (key : Str)
    → IsLinked s
    → key_validate key ≡ true
    → length key < key_name_len
    → config_get_str s key ≡ lookup_val key (s.items)
unfolding config_get_str
get-lookup s key v k lt = rw k (sym (find-lookup (s.next_id) key (s.items) (v.fits) lt))

-- The set value under its key, the rest of the list under the others.
abbrev Written : (key value k : Str) (before after : List Item) → Type 0
Written key value k before after =
    lookup_val k after
    ≡ (if str_eq key k then some (copy_terminated key_value_len value) else lookup_val k before)

-- What `configSetStr` does after its search.
abbrev stored : (s : ConfigSet) (key value : Str) → Option Item → ConfigSet
stored s key value (some it) = overwrite s value it
stored s key value none = touch key (add_config_value s key value)

module _ (s : ConfigSet) (key value k : Str) (v : IsLinked s) (lt : length key < key_name_len) where
  overwrite-lookup :
      (it : Item)
      → find_item key (s.items) ≡ some it
      → Written key value k (s.items) ((overwrite s value it).items)
  unfolding overwrite
  overwrite-lookup it e =
      if-elim (λ (r : ConfigSet). Written key value k (s.items) (r.items))
        (strncmp_eq key_value_len (it.val) value)
        (λ t.
          let f = find_item-any (IsItem (s.next_id)) key (s.items) it (v.fits) e in
          let q : lookup_val key (s.items) ≡ some (it.val) =
            find-lookup (s.next_id) key (s.items) (v.fits) lt ∙ rw e refl in
          let same = same_value (it.val) value (f.short_val) t in
          stays (Bool-cases (str_eq key k)) (q ∙ ap some same))
        (λ t.
          ap (lookup_val k) (touch_items (it.key) _)
          ∙ lookup-write_val (s.next_id) key k _ (s.items) it (v.fits) (v.distinct) lt e)
    where
      stays :
          (str_eq key k ≡ true) ⊎ (str_eq key k ≡ false)
          → lookup_val key (s.items) ≡ some (copy_terminated key_value_len value)
          → Written key value k (s.items) (s.items)
      stays (inl t) q = rw t (ap (λ r. lookup_val r (s.items)) (sym (str_eq-eq key k t)) ∙ q)
      stays (inr t) q = rw t refl

  add-lookup :
      find_item key (s.items) ≡ none
      → Written key value k (s.items) ((touch key (add_config_value s key value)).items)
  unfolding alloc_config_item
  add-lookup e =
      ap (lookup_val k) (touch_items key (add_config_value s key value) ∙ add-items s key value v)
      ∙ lookup-append (s.next_id) key k value (s.items) (alloc_config_item (s.next_id) key value)
          (v.fits) lt e (copy_terminated_short key_name_len key lt)

  set-lookup :
      key_validate key ≡ true → Written key value k (s.items) ((config_set_str s key value).1.items)
  unfolding config_set_str
  set-lookup kv = rw kv (go (find_item key (s.items)) refl)
    where
      go :
          (o : Option Item)
          → find_item key (s.items) ≡ o
          → Written key value k (s.items) ((stored s key value o).items)
      go (some it) e = overwrite-lookup it e
      go none e = add-lookup e

-- After `configSetStr` under a valid key of less than 32 bytes, `configGetStr` returns the value, cut to
-- 255 bytes, under that key, and what it returned before under every other valid key of less than 32
-- bytes, in a set whose list is well formed.
pub get-set :
    (s : ConfigSet) (key value k : Str)
    → IsLinked s
    → key_validate key ≡ true
    → length key < key_name_len
    → key_validate k ≡ true
    → length k < key_name_len
    → config_get_str ((config_set_str s key value).1) k
      ≡ (if str_eq key k then some (copy_terminated key_value_len value) else config_get_str s k)
get-set s key value k v kv lt kv' lt' = rw (get-lookup s k v kv' lt') (
    get-lookup ((config_set_str s key value).1) k (set-IsLinked s key value v) kv' lt'
    ∙ set-lookup s key value k v lt kv)

-- After `configRemoveKey` under a valid key of less than 32 bytes, `configGetStr` returns nothing under
-- that key, and what it returned before under every other valid key of less than 32 bytes, in a set
-- whose list is well formed.
pub get-remove :
    (s : ConfigSet) (key k : Str)
    → IsLinked s
    → key_validate key ≡ true
    → length key < key_name_len
    → key_validate k ≡ true
    → length k < key_name_len
    → config_get_str ((config_remove_key s key).1) k
      ≡ (if str_eq key k then none else config_get_str s k)
get-remove s key k v kv lt kv' lt' = rw (get-lookup s k v kv' lt') (
    get-lookup ((config_remove_key s key).1) k (remove-IsLinked s key v) kv' lt'
    ∙ ap (lookup_val k) (items-remove s key v kv)
    ∙ lookup-without (s.next_id) key k (s.items) (v.fits) lt)
