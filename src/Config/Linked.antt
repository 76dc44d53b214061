-- ===== src/Config/Linked.antt =====
-- The invariant of the linked list: `tail` is the address of the last item, and no two items share an
-- address. Every operation keeps it.
use opl_future_beta.Base.{
  ℕ, ◌+◌, ◌<◌, ◌≡◌, ◌≢◌, ◌∙◌, ap, refl, sym, subst, true, false, List, [], ◌∷◌, ◌++◌, Option, none,
  some, ◌==◌, length, length-take, arith,
}
use opl_future_beta.Text.{Str, copy_terminated}
use opl_future_beta.Config.{
  Item, ConfigSet, key_name_len, key_value_len, alloc_config_item, link_after, link,
  add_config_value,
}

abbrev pub All {ℓ κ} : {A : Type ℓ} → (A → Type κ) → List A → Type κ
All P [] = Unit
All P (x ∷ xs) = P x × All P xs

-- The address of the last item, `before` for an empty list.
abbrev pub last_id : Option ℕ → List Item → Option ℕ
last_id before [] = before
last_id before (i ∷ is) = last_id (some (i.id)) is

-- What one item keeps: an address that has been given out, and strings that fit their arrays.
pub record IsItem (next_id : ℕ) (i : Item) : Type 0 where
  pub given : i.id < next_id
  pub short_key : length (i.key) < key_name_len
  pub short_val : length (i.val) < key_value_len

abbrev pub Distinct : List Item → Type 0
Distinct [] = Unit
Distinct (i ∷ is) = All (λ (j : Item). j.id ≢ i.id) is × Distinct is

pub record IsLinked (s : ConfigSet) : Type 0 where
  pub ends : s.tail ≡ last_id none (s.items)
  pub fits : All (IsItem (s.next_id)) (s.items)
  pub distinct : Distinct (s.items)

pub All-mono :
    {A : Type 0} {P Q : A → Type 0} (xs : List A) → ((x : A) → P x → Q x) → All P xs → All Q xs
All-mono [] f h = tt
All-mono (x ∷ xs) f h = (f x (h.0), All-mono xs f (h.1))

All-append :
    {A : Type 0} (P : A → Type 0) (xs : List A) (y : A) → All P xs → P y → All P (xs ++ y ∷ [])
All-append P [] y h k = (k, tt)
All-append P (x ∷ xs) y h k = (h.0, All-append P xs y (h.1) k)

-- The item at the tail is the last one: linking behind it appends.
link_after-append :
    (t : ℕ) (it : Item) (i : Item) (is : List Item)
    → Distinct (i ∷ is)
    → last_id (some (i.id)) is ≡ some t
    → link_after t it (i ∷ is) ≡ i ∷ is ++ it ∷ []
unfolding link_after
link_after-append t it i [] d e = let k : (i.id == t) ≡ true = ground arith in rw k
link_after-append t it i (j ∷ js) d e =
    let k : (i.id == t) ≡ false = ground (arith, last_id-ne (i.id) j js (d.0.0) (d.0.1)) in
    simp k (ap (λ r. i ∷ r) (link_after-append t it j js (d.1) e))
  where
    last_id-ne :
        (a : ℕ) (j : Item) (js : List Item)
        → j.id ≢ a
        → All (λ (k : Item). k.id ≢ a) js
        → last_id (some (j.id)) js ≢ some a
    last_id-ne a j [] n h q = ground arith
    last_id-ne a j (k ∷ ks) n h q = last_id-ne a k ks (h.0) (h.1) q

last_id-some : (a : ℕ) (is : List Item) → last_id (some a) is ≢ none
last_id-some a [] h = cc
last_id-some a (i ∷ is) h = last_id-some (i.id) is h

link-at_end :
    (items : List Item) (t : Option ℕ) (it : Item)
    → t ≡ last_id none items
    → Distinct items
    → link t it items ≡ items ++ it ∷ []
unfolding link
link-at_end [] none it e d = refl
link-at_end [] (some t) it e d = cc
link-at_end (i ∷ is) none it e d = absurd (last_id-some (i.id) is (sym e))
link-at_end (i ∷ is) (some t) it e d = link_after-append t it i is d (sym e)

last_id-append :
    (before : Option ℕ) (is : List Item) (it : Item) → last_id before (is ++ it ∷ []) ≡ some (it.id)
last_id-append before [] it = refl
last_id-append before (i ∷ is) it = last_id-append (some (i.id)) is it

Distinct-append :
    (n : ℕ) (is : List Item) (it : Item)
    → All (IsItem n) is
    → it.id ≡ n
    → Distinct is
    → Distinct (is ++ it ∷ [])
Distinct-append n [] it f e d = (tt, tt)
Distinct-append n (i ∷ is) it f e d = (
  All-append (λ (j : Item). j.id ≢ i.id) is it (d.0) (omega (arith, f.0.given)),
  Distinct-append n is it (f.1) e (d.1),
)

alloc-IsItem : (n : ℕ) (key val : Str) → IsItem (n + 1) (alloc_config_item n key val)
unfolding alloc_config_item copy_terminated
alloc-IsItem n key val = omega (arith, length-take {0} 31 key, length-take {0} 255 val)

pub add-items :
    (s : ConfigSet) (key val : Str)
    → IsLinked s
    → (add_config_value s key val).items ≡ s.items ++ alloc_config_item (s.next_id) key val ∷ []
unfolding add_config_value
add-items s key val v = link-at_end (s.items) (s.tail) _ (v.ends) (v.distinct)

pub add-IsLinked :
    (s : ConfigSet) (key val : Str) → IsLinked s → IsLinked (add_config_value s key val)
unfolding add_config_value
add-IsLinked s key val v =
    let e = add-items s key val v in
    let it = alloc_config_item (s.next_id) key val in
    record {
      ends = sym (ap (last_id none) e ∙ last_id-append none (s.items) it);
      fits =
          subst (λ l. All (IsItem (s.next_id + 1)) l) (sym e)
            (All-append (IsItem (s.next_id + 1)) (s.items) it
              (All-mono (s.items)
                (λ i f. record {
                  given = omega (arith, f.given);
                  short_key = f.short_key;
                  short_val = f.short_val;
                })
                (v.fits))
              (alloc-IsItem (s.next_id) key val));
      distinct =
          subst Distinct (sym e)
            (Distinct-append (s.next_id) (s.items) it (v.fits) refl (v.distinct));
    }
