-- ===== src/Cheats/Digits.antt =====
-- The line of one code, as a cheat file spells it, and what `parse_line` of src/cheatman.c reads from it.
use opl_future_beta.Base.{
  ℕ, zero, suc, ◌+◌, ◌*◌, ◌/◌, ◌%◌, ◌^◌, ◌≤◌, ◌<◌, ◌≡◌, ◌≢◌, ◌∙◌, ap, ap₂, refl, sym, true, false,
  List, [], ◌∷◌, ◌++◌, none, some, ltb, if◌then◌else◌, length, take, drop, length-append,
  take-append, take_all, append-nil, arith, Each,
}
use opl_future_beta.Text.{Str, from_hex, to_hex, from_hex-to_hex_low}
use opl_future_beta.Cheats.{Code}
use opl_future_beta.Cheats.Lines.{
  code_digits, is_xdigit, is_space, is_graph, copy_digits, scan_hex, make_code, cheat_code_from,
  is_cheat_code, parse_line,
}

-- `k` hexadecimal digits of a number, as `%0kX` writes them.
abbrev pub hex_text : (k n : ℕ) → Str
hex_text zero n = []
hex_text (suc k) n = hex_text k (n / 16) ++ to_hex n ∷ []

-- A code of two words, such as `10B8DAFA 00003F00`.
abbrev pub code_line : Code → Str
code_line c = hex_text 8 (c.addr) ++ 32 ∷ hex_text 8 (c.val)

pub record IsWords (c : Code) : Type 0 where
  pub addr_word : c.addr < 2 ^ 32
  pub val_word : c.val < 2 ^ 32

-- What a hexadecimal digit is for the parser.
pub record IsDigit (c : ℕ) : Type 0 where
  pub digit : is_xdigit c ≡ true
  pub graph : is_graph c ≡ true
  pub no_space : is_space c ≡ false
  pub no_lf : c ≢ 10
  pub no_hash : c ≢ 35
  pub no_slash : c ≢ 47

to_hex-IsDigit : (n : ℕ) → IsDigit (to_hex n)
unfolding is_xdigit is_graph is_space from_hex to_hex
to_hex-IsDigit n = ground arith

Each-snoc :
    {A : Type 0} (P : A → Type 0) (xs : List A) (y : A) → Each P xs → P y → Each P (xs ++ y ∷ [])
Each-snoc P [] y h k = (k, tt)
Each-snoc P (x ∷ xs) y h k = (h.0, Each-snoc P xs y (h.1) k)

hex_text-digits : (k n : ℕ) → Each IsDigit (hex_text k n)
hex_text-digits zero n = tt
hex_text-digits (suc k) n =
    Each-snoc IsDigit (hex_text k (n / 16)) (to_hex n) (hex_text-digits k (n / 16))
      (to_hex-IsDigit n)

length-hex_text : (k n : ℕ) → length (hex_text k n) ≡ k
length-hex_text zero n = refl
length-hex_text (suc k) n =
    omega
      (arith, length-append {0} (hex_text k (n / 16)) (to_hex n ∷ []), length-hex_text k (n / 16))

scan_hex-append : (s t : Str) (n : ℕ) → scan_hex n (s ++ t) ≡ scan_hex (scan_hex n s) t
unfolding scan_hex
scan_hex-append [] t n = refl
scan_hex-append (c ∷ s) t n =
    scan_hex-append s t (elim (from_hex c) [ some digit ↦ n * 16 + digit | none ↦ n ])

scan_hex-digit : (n c d : ℕ) → from_hex c ≡ some d → scan_hex n (c ∷ []) ≡ n * 16 + d
unfolding scan_hex
scan_hex-digit n c d h = ground (arith, h)

-- The number fits `k` digits.
abbrev Fits : (k n : ℕ) → Type 0
Fits zero n = n ≡ 0
Fits (suc k) n = Fits k (n / 16)

scan_hex-hex_text : (k n : ℕ) → Fits k n → scan_hex 0 (hex_text k n) ≡ n
unfolding scan_hex
scan_hex-hex_text zero n h = sym h
scan_hex-hex_text (suc k) n h =
    scan_hex-append (hex_text k (n / 16)) (to_hex n ∷ []) 0
    ∙ scan_hex-digit (scan_hex 0 (hex_text k (n / 16))) (to_hex n) (n % 16) (from_hex-to_hex_low n)
    ∙ (let ih = scan_hex-hex_text k (n / 16) h in omega (arith, ih))

word-Fits : (n : ℕ) → n < 2 ^ 32 → Fits 8 n
word-Fits n h = omega (arith, h)

copy_digits-digits : (s t : Str) → Each IsDigit s → copy_digits (s ++ t) ≡ s ++ copy_digits t
unfolding copy_digits
copy_digits-digits [] t h = refl
copy_digits-digits (c ∷ s) t h = simp (h.0.digit) (ap (λ r. c ∷ r) (copy_digits-digits s t (h.1)))

cheat_code-digits :
    (s t : Str) (i : ℕ)
    → Each IsDigit s
    → i + length s ≤ code_digits
    → cheat_code_from i (s ++ t) ≡ cheat_code_from (i + length s) t
unfolding cheat_code_from
cheat_code-digits [] t i h le = let e : i ≡ i + 0 = omega arith in ap (λ n. cheat_code_from n t) e
cheat_code-digits (c ∷ s) t i h le =
    let b : ltb code_digits (i + 1) ≡ false = ground (arith, le) in
    let e : i + 1 + length s ≡ i + suc (length s) = omega arith in
    simp (h.0.digit, b)
      (cheat_code-digits s t (i + 1) (h.1) (omega (arith, le)) ∙ ap (λ n. cheat_code_from n t) e)

-- Two groups of eight digits.
pub record IsPair (a b : Str) : Type 0 where
  pub digits_a : Each IsDigit a
  pub digits_b : Each IsDigit b
  pub length_a : length a ≡ 8
  pub length_b : length b ≡ 8

pub code_line-IsPair : (c : Code) → IsPair (hex_text 8 (c.addr)) (hex_text 8 (c.val))
code_line-IsPair c = record {
  digits_a = hex_text-digits 8 (c.addr);
  digits_b = hex_text-digits 8 (c.val);
  length_a = length-hex_text 8 (c.addr);
  length_b = length-hex_text 8 (c.val);
}

drop-length : (a b : Str) → drop (length a) (a ++ b) ≡ b
drop-length [] b = refl
drop-length (c ∷ a) b = drop-length a b

module _ (a b : Str) (v : IsPair a b) where
  pub is_cheat_code-pair : is_cheat_code (a ++ 32 ∷ b) ≡ true
  unfolding is_cheat_code
  is_cheat_code-pair =
      cheat_code-digits a (32 ∷ b) 0 (v.digits_a) (omega (arith, v.length_a))
      ∙ blank (0 + length a) b
      ∙ ap (cheat_code_from (0 + length a)) (sym (append-nil b))
      ∙ cheat_code-digits b [] (0 + length a) (v.digits_b) (omega (arith, v.length_a, v.length_b))
      ∙ (let e : 0 + length a + length b ≡ 16 = omega (arith, v.length_a, v.length_b) in all e)
    where
      blank : (i : ℕ) (s : Str) → cheat_code_from i (32 ∷ s) ≡ cheat_code_from i s
      blank i s = refl

      all : {n : ℕ} → n ≡ 16 → cheat_code_from n [] ≡ true
      all e = ground (arith, e)

  copy_digits-pair : copy_digits (a ++ 32 ∷ b) ≡ a ++ b
  unfolding copy_digits is_xdigit from_hex
  copy_digits-pair =
      copy_digits-digits a (32 ∷ b) (v.digits_a)
      ∙ ap (λ r. a ++ r)
          (ap copy_digits (sym (append-nil b))
            ∙ copy_digits-digits b [] (v.digits_b)
            ∙ append-nil b)

  pair-first : take 8 (a ++ b) ≡ a
  pair-first =
      ap (λ n. take n (a ++ b)) (sym (v.length_a))
      ∙ take-append (length a) a b (omega arith)
      ∙ take_all (length a) a (omega arith)

  pair-second : take 8 (drop 8 (a ++ b)) ≡ b
  pair-second =
      ap (λ n. take 8 (drop n (a ++ b))) (sym (v.length_a))
      ∙ ap (take 8) (drop-length a b)
      ∙ take_all 8 b (omega (arith, v.length_b))

  make_code-pair : make_code (a ++ 32 ∷ b) ≡ record { addr = scan_hex 0 a; val = scan_hex 0 b }
  unfolding make_code
  make_code-pair =
      ap digits_code copy_digits-pair
      ∙ ap₂ code (ap (scan_hex 0) pair-first) (ap (scan_hex 0) pair-second)
    where
      code : ℕ → ℕ → Code
      code addr val = record { addr = addr; val = val }

      digits_code : Str → Code
      digits_code d = record { addr = scan_hex 0 (take 8 d); val = scan_hex 0 (take 8 (drop 8 d)) }

  parse_line-pair : parse_line (a ++ 32 ∷ b) ≡ record { addr = scan_hex 0 a; val = scan_hex 0 b }
  unfolding parse_line
  parse_line-pair =
      ap (λ t. if t then make_code (a ++ 32 ∷ b) else record { addr = 0; val = 0 })
        is_cheat_code-pair
      ∙ make_code-pair

-- `parse_line` reads back the line of a code.
pub parse_line-code_line : (c : Code) → IsWords c → parse_line (code_line c) ≡ c
parse_line-code_line c w =
    parse_line-pair (hex_text 8 (c.addr)) (hex_text 8 (c.val)) (code_line-IsPair c)
    ∙ ap₂ code (scan_hex-hex_text 8 (c.addr) (word-Fits (c.addr) (w.addr_word)))
        (scan_hex-hex_text 8 (c.val) (word-Fits (c.val) (w.val_word)))
  where
    code : ℕ → ℕ → Code
    code addr val = record { addr = addr; val = val }
