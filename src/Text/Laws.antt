-- ===== src/Text/Laws.antt =====
use opl_future_beta.Base.{
  ℕ, zero, suc, ◌+◌, ◌-◌, ◌%◌, ◌∙◌, drop, ◌≤◌, ◌<◌, ◌≡◌, ap, ap₂, refl, true, [], ◌∷◌, ◌++◌, none,
  some, ◌==◌, length, take, take_all, arith,
}
use opl_future_beta.Text.Defs.{Str, str_eq, strncmp_eq, copy_terminated, strchr, from_hex, to_hex}

pub str_eq_refl : (a : Str) → str_eq a a ≡ true
str_eq_refl [] = refl
str_eq_refl (x ∷ xs) = let e : (x == x) ≡ true = ground arith in rw (e, str_eq_refl xs)

pub str_eq-eq : (a b : Str) → str_eq a b ≡ true → a ≡ b
str_eq-eq [] [] h = refl
str_eq-eq [] (b ∷ bs) h = cc
str_eq-eq (a ∷ as') [] h = cc
str_eq-eq (a ∷ as') (b ∷ bs) h = ap₂ ◌∷◌ (ground arith) (str_eq-eq as' bs (ground arith))

pub take-take : (n m : ℕ) (s : Str) → n ≤ m → take n (take m s) ≡ take n s
take-take zero m s h = refl
take-take (suc n) zero s h = absurd (omega arith)
take-take (suc n) (suc m) [] h = refl
take-take (suc n) (suc m) (x ∷ xs) h = ap (λ r. x ∷ r) (take-take n m xs (omega arith))

-- A string that is shorter than the limit is compared whole.
pub strncmp_eq_short :
    (n : ℕ) (a b : Str) → length a < n → length b < n → strncmp_eq n a b ≡ str_eq a b
unfolding strncmp_eq
strncmp_eq_short n a b la lb = ap₂ str_eq (take_all n a (omega arith)) (take_all n b (omega arith))

pub copy_terminated_short : (n : ℕ) (s : Str) → length s < n → copy_terminated n s ≡ s
unfolding copy_terminated
copy_terminated_short n s h = take_all (n - 1) s (omega arith)

-- The first `=` behind a text without one.
pub strchr-append :
    (a b : Str) (c : ℕ) → strchr a c ≡ none → strchr (a ++ c ∷ b) c ≡ some (length a)
unfolding strchr
strchr-append [] b c h = ground arith
strchr-append (x ∷ xs) b c h = ground (arith, strchr-append xs b c)

-- Digits of either case are read back.
pub from_hex-to_hex : (d : ℕ) → d < 16 → from_hex (to_hex d) ≡ some d
unfolding from_hex to_hex
from_hex-to_hex d h = ground arith

-- What is behind a text and one character.
pub drop-append : (a b : Str) (c : ℕ) → drop (length a + 1) (a ++ c ∷ b) ≡ b
drop-append [] b c = refl
drop-append (x ∷ xs) b c =
    let e : suc (length xs) + 1 ≡ suc (length xs + 1) = omega arith in
    ap (λ n. drop n (x ∷ (xs ++ c ∷ b))) e ∙ drop-append xs b c

-- `toHex` writes the low digit of a number.
pub from_hex-to_hex_low : (n : ℕ) → from_hex (to_hex n) ≡ some (n % 16)
unfolding from_hex to_hex
from_hex-to_hex_low n = ground arith
