-- ===== src/Cheats/Accepted.antt =====
-- Which lines `is_cheat_code` of src/cheatman.c accepts.
use opl_future_beta.Base.{
  ℕ, suc, ◌+◌, ◌≤◌, ◌≡◌, ◌∙◌, ap, refl, Bool, true, false, ◌&&◌, [], ◌∷◌, ltb, ◌==◌, if◌then◌else◌,
  length, arith,
}
use opl_future_beta.Text.{Str}
use opl_future_beta.Cheats.Lines.{
  code_digits, is_xdigit, is_space, copy_digits, cheat_code_from, is_cheat_code,
}

-- Only digits and white space.
abbrev pub all_code_chars : Str → Bool
all_code_chars [] = true
all_code_chars (c ∷ s) = (if is_xdigit c then true else is_space c) && all_code_chars s

cheat_code-digit_count :
    (s : Str) (i : ℕ)
    → i ≤ code_digits
    → cheat_code_from i s ≡ (all_code_chars s && (i + length (copy_digits s) == code_digits))
unfolding cheat_code_from copy_digits
cheat_code-digit_count [] i h = let e : i ≡ i + 0 = omega arith in ap (λ n. n == code_digits) e
cheat_code-digit_count (c ∷ s) i h =
    by (is_xdigit c) (is_space c) (cheat_code-digit_count s (i + 1)) (cheat_code-digit_count s i h)
  where
    counted :
        (t a : Bool) (n : ℕ)
        → ltb code_digits (i + 1) ≡ t
        → (i + 1 ≤ code_digits → cheat_code_from (i + 1) s ≡ (a && (i + 1 + n == code_digits)))
        → (if t then false else cheat_code_from (i + 1) s) ≡ (a && (i + suc n == code_digits))
    counted true a n t ih1 = ground (arith, t)
    counted false a n t ih1 =
        let e : i + 1 + n ≡ i + suc n = omega arith in
        ih1 (ground (arith, t)) ∙ ap (λ m. a && (m == code_digits)) e

    by :
        (d sp : Bool)
        → (i + 1 ≤ code_digits
            → cheat_code_from (i + 1) s
              ≡ (all_code_chars s && (i + 1 + length (copy_digits s) == code_digits)))
        → cheat_code_from i s ≡ (all_code_chars s && (i + length (copy_digits s) == code_digits))
        → (if d
            then (if ltb code_digits (i + 1) then false else cheat_code_from (i + 1) s)
            else if sp
            then cheat_code_from i s
            else false)
          ≡ (((if d then true else sp) && all_code_chars s)
              && (i + length (if d then c ∷ copy_digits s else copy_digits s) == code_digits))
    by true sp ih1 ih0 =
        counted (ltb code_digits (i + 1)) (all_code_chars s) (length (copy_digits s)) refl ih1
    by false true ih1 ih0 = ih0
    by false false ih1 ih0 = refl

-- `is_cheat_code` accepts exactly the texts of digits and white space with 16 digits. For each of them
-- `make_code` copies 16 digits to an array of 16 characters, and its NUL goes behind the array.
pub is_cheat_code-digits :
    (s : Str) → is_cheat_code s ≡ (all_code_chars s && (length (copy_digits s) == code_digits))
unfolding is_cheat_code
is_cheat_code-digits s =
    let e : 0 + length (copy_digits s) ≡ length (copy_digits s) = omega arith in
    cheat_code-digit_count s 0 (omega arith) ∙ ap (λ n. all_code_chars s && (n == code_digits)) e
