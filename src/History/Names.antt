-- ===== src/History/Names.antt =====
-- The names and the bits of history entries, of src/OSDHistory.c.
use opl_future_beta.Base.{
  ℕ, zero, suc, ◌+◌, ◌/◌, ◌%◌, ◌^◌, ◌≤◌, ◌<◌, ◌≡◌, ◌≢◌, ◌∙◌, ap, refl, sym, Bool, true, false, List,
  [], ◌∷◌, ◌++◌, some, inl, inr, ◌⊎◌, ◌==◌, if◌then◌else◌, if-elim, length, take, drop, replicate,
  Each, arith, take_all, length-append, length-take,
}
use opl_future_beta.Text.{Str, str_eq, str_eq-eq, strncmp_eq, first_char}
use opl_future_beta.History.{
  HistoryEntry, c_str, set_date, get_year, get_month, get_date, has_name, free_bit, new_entry,
}

-- A name that fits into an entry.
pub record IsName (name : Str) : Type 0 where
  pub short : length name ≤ 15
  pub not_empty : first_char name ≢ 0
  pub no_nul : Each (λ c. c ≢ 0) name

pub record IsEntry (e : HistoryEntry) : Type 0 where
  pub sized : length (e.name) ≡ 16
  pub ended : drop 15 (e.name) ≡ 0 ∷ []
  pub counted : e.launch_count ≤ 127
  pub masked : e.bitmask < 64

c_str-copy :
    (n m : ℕ) (name : Str)
    → length name ≤ n
    → n ≤ m
    → Each (λ c. c ≢ 0) name
    → c_str (take n (name ++ replicate m 0) ++ 0 ∷ []) ≡ name
c_str-copy zero m [] h k v = refl
c_str-copy (suc n) zero [] h k v = absurd (omega (arith, k))
c_str-copy (suc n) (suc m) [] h k v = refl
c_str-copy zero m (c ∷ s) h k v = absurd (omega (arith, h))
c_str-copy (suc n) m (c ∷ s) h k v =
    let e : (c == 0) ≡ false = ground (arith, v.0) in
    rw (e, c_str-copy n m s (omega (arith, h)) (omega (arith, k)) (v.1)) refl

-- The name that is read back from a new entry.
pub new_entry-name :
    (name : Str) (stamp : ℕ) (e : HistoryEntry)
    → IsName name
    → IsEntry e
    → c_str ((new_entry name stamp e).name) ≡ name
unfolding new_entry
new_entry-name name stamp e n v =
    ap (λ s. c_str (take 15 (name ++ replicate 15 0) ++ s)) (v.ended)
    ∙ c_str-copy 15 15 name (n.short) (omega arith) (n.no_nul)

drop-front : (n : ℕ) (xs ys : Str) → length xs ≡ n → drop n (xs ++ ys) ≡ ys
drop-front zero [] ys e = refl
drop-front zero (x ∷ xs) ys e = absurd (omega (arith, e))
drop-front (suc n) [] ys e = absurd (omega (arith, e))
drop-front (suc n) (x ∷ xs) ys e = drop-front n xs ys (omega (arith, e))

padded : (name : Str) → length (take 15 (name ++ replicate 15 0)) ≡ 15
padded name =
    omega
      (arith, length-take {0} 15 (name ++ replicate 15 0), length-append {0} name (replicate 15 0))

pub new_entry-IsEntry :
    (name : Str) (stamp : ℕ) (e : HistoryEntry) → IsEntry e → IsEntry (new_entry name stamp e)
unfolding new_entry
new_entry-IsEntry name stamp e v = record {
  sized =
      ap length (ap (λ s. take 15 (name ++ replicate 15 0) ++ s) (v.ended))
      ∙ omega (arith, length-append {0} (take 15 (name ++ replicate 15 0)) (0 ∷ []), padded name);
  ended =
      drop-front 15 (take 15 (name ++ replicate 15 0)) (drop 15 (e.name)) (padded name) ∙ v.ended;
  counted = omega arith;
  masked = omega arith;
}

pub str_eq_sym : (a b : Str) → str_eq a b ≡ str_eq b a
str_eq_sym [] [] = refl
str_eq_sym [] (y ∷ b) = refl
str_eq_sym (x ∷ a) [] = refl
str_eq_sym (x ∷ a) (y ∷ b) =
    let e : (x == y) ≡ (y == x) = ground arith in rw (e, str_eq_sym a b) refl

c_str-length : (s : Str) → length (c_str s) ≤ length s
c_str-length [] = omega arith
c_str-length (c ∷ s) =
    if-elim (λ l. length l ≤ suc (length s)) (c == 0) (λ t. omega arith)
      (λ t. omega (arith, c_str-length s))

pub named-c_str :
    (name : Str) (e : HistoryEntry)
    → IsName name
    → IsEntry e
    → has_name name e ≡ true
    → c_str (e.name) ≡ name
unfolding has_name strncmp_eq
named-c_str name e n v h =
    sym (take_all 16 (c_str (e.name)) (omega (arith, c_str-length (e.name), v.sized)))
    ∙ str_eq-eq (take 16 (c_str (e.name))) (take 16 name) h
    ∙ take_all 16 name (omega (arith, n.short))

c_str-blank : (s : Str) → first_char s ≡ 0 → c_str s ≡ []
c_str-blank [] z = refl
c_str-blank (c ∷ s) z = let e : (c == 0) ≡ true = ground (arith, z) in rw e refl

-- A blank entry does not have the name.
pub blank-has_name :
    (name : Str) (e : HistoryEntry)
    → IsName name
    → first_char (e.name) ≡ 0
    → has_name name e ≡ false
unfolding has_name strncmp_eq
blank-has_name [] e n z = absurd (n.not_empty refl)
blank-has_name (c ∷ name) e n z =
    ap (λ s. str_eq (take 16 s) (take 16 (c ∷ name))) (c_str-blank (e.name) z)

-- Two entries have different names, or the second one is blank.
abbrev pub Differ : HistoryEntry → HistoryEntry → Type 0
Differ e e' = (first_char (e'.name) ≡ 0) ⊎ (has_name (c_str (e.name)) e' ≡ false)

abbrev pub Distinct : List HistoryEntry → Type 0
Distinct [] = Unit {0}
Distinct (e ∷ es) = Each (Differ e) es × Distinct es

-- Every value of `rand() % 6` is among the results of `rand`.
abbrev pub HasRand : ℕ → List ℕ → Type 0
HasRand k [] = ⊥
HasRand k (r ∷ rands) = (r % 6 ≡ k) ⊎ HasRand k rands

abbrev pub Fair : List ℕ → Type 0
Fair rands = (k : ℕ) → k < 6 → HasRand k rands

clear_bit :
    (mask : ℕ) → mask < 64 → mask ≢ 63 → (v : ℕ) × (v < 6) × ((mask / 2 ^ v % 2 == 1) ≡ false)
clear_bit mask h n =
    by (mask / 2 ^ 0 % 2 == 1) (mask / 2 ^ 1 % 2 == 1) (mask / 2 ^ 2 % 2 == 1)
      (mask / 2 ^ 3 % 2 == 1) (mask / 2 ^ 4 % 2 == 1) (mask / 2 ^ 5 % 2 == 1) refl refl refl refl
      refl refl
  where
    by :
        (b0 b1 b2 b3 b4 b5 : Bool)
        → (mask / 2 ^ 0 % 2 == 1) ≡ b0
        → (mask / 2 ^ 1 % 2 == 1) ≡ b1
        → (mask / 2 ^ 2 % 2 == 1) ≡ b2
        → (mask / 2 ^ 3 % 2 == 1) ≡ b3
        → (mask / 2 ^ 4 % 2 == 1) ≡ b4
        → (mask / 2 ^ 5 % 2 == 1) ≡ b5
        → (v : ℕ) × (v < 6) × ((mask / 2 ^ v % 2 == 1) ≡ false)
    by false b1 b2 b3 b4 b5 e0 e1 e2 e3 e4 e5 = (0, omega arith, e0)
    by true false b2 b3 b4 b5 e0 e1 e2 e3 e4 e5 = (1, omega arith, e1)
    by true true false b3 b4 b5 e0 e1 e2 e3 e4 e5 = (2, omega arith, e2)
    by true true true false b4 b5 e0 e1 e2 e3 e4 e5 = (3, omega arith, e3)
    by true true true true false b5 e0 e1 e2 e3 e4 e5 = (4, omega arith, e4)
    by true true true true true false e0 e1 e2 e3 e4 e5 = (5, omega arith, e5)
    by true true true true true true e0 e1 e2 e3 e4 e5 = absurd (
        n (
          all_set (ground (arith, e0)) (ground (arith, e1)) (ground (arith, e2))
            (ground (arith, e3)) (ground (arith, e4)) (ground (arith, e5))))
      where
        all_set :
            mask / 2 ^ 0 % 2 ≡ 1
            → mask / 2 ^ 1 % 2 ≡ 1
            → mask / 2 ^ 2 % 2 ≡ 1
            → mask / 2 ^ 3 % 2 ≡ 1
            → mask / 2 ^ 4 % 2 ≡ 1
            → mask / 2 ^ 5 % 2 ≡ 1
            → mask ≡ 63
        all_set a b c d f g = omega (arith, h, a, b, c, d, f, g)

bit_room : (mask v : ℕ) → v < 6 → mask < 64 → (mask / 2 ^ v % 2 == 1) ≡ false → mask + 2 ^ v < 64
bit_room mask zero h m c = ground (arith, m, c)
bit_room mask (suc zero) h m c = ground (arith, m, c)
bit_room mask (suc (suc zero)) h m c = ground (arith, m, c)
bit_room mask (suc (suc (suc zero))) h m c = ground (arith, m, c)
bit_room mask (suc (suc (suc (suc zero)))) h m c = ground (arith, m, c)
bit_room mask (suc (suc (suc (suc (suc zero))))) h m c = ground (arith, m, c)
bit_room mask (suc (suc (suc (suc (suc (suc v)))))) h m c = absurd (omega (arith, h))

-- `rand` finds a bit that is clear.
pub record Frees (mask : ℕ) (rands : List ℕ) : Type 0 where
  pub value : ℕ
  pub rest : List ℕ
  pub frees : free_bit mask rands ≡ some (value, rest)
  pub masked : mask + 2 ^ value < 64

free_bit-clear :
    (mask v : ℕ) (rands : List ℕ)
    → mask < 64
    → HasRand v rands
    → (mask / 2 ^ v % 2 == 1) ≡ false
    → Frees mask rands
unfolding free_bit
free_bit-clear mask v [] m h c = absurd h
free_bit-clear mask v (r ∷ rands) m h c =
    by (mask / 2 ^ (r % 6) % 2 == 1) refl (λ h'. free_bit-clear mask v rands m h' c) h
  where
    by :
        (b : Bool)
        → (mask / 2 ^ (r % 6) % 2 == 1) ≡ b
        → (HasRand v rands → Frees mask rands)
        → HasRand v (r ∷ rands)
        → Frees mask (r ∷ rands)
    by false e go h = record {
      value = r % 6;
      rest = rands;
      frees = ap (λ b. if b then free_bit mask rands else some (r % 6, rands)) e;
      masked = bit_room mask (r % 6) (omega arith) m e;
    }
    by true e go (inl q) =
        absurd (let k : true ≡ false = sym e ∙ ap (λ w. mask / 2 ^ w % 2 == 1) q ∙ c in cc)
    by true e go (inr h) =
        let ih = go h in
        record {
          value = ih.value;
          rest = ih.rest;
          frees = ap (λ b. if b then free_bit mask rands else some (r % 6, rands)) e ∙ ih.frees;
          masked = ih.masked;
        }

pub free_bit-Frees :
    (mask : ℕ) (rands : List ℕ) → mask < 64 → mask ≢ 63 → Fair rands → Frees mask rands
free_bit-Frees mask rands m n f =
    let (v, b, c) = clear_bit mask m n in free_bit-clear mask v rands m (f v b) c

-- A date of the years 2000 to 2127 is read back from its stamp.
get-set_date :
    (year month date : ℕ)
    → year < 128
    → month < 16
    → date < 32
    → (get_year (set_date year month date) ≡ year)
      × (get_month (set_date year month date) ≡ month)
      × (get_date (set_date year month date) ≡ date)
unfolding set_date get_year get_month get_date
get-set_date year month date h k l =
    (omega (arith, h, k, l), omega (arith, h, k, l), omega (arith, h, k, l))
