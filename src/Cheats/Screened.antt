-- ===== src/Cheats/Screened.antt =====
-- What the screener of `parse_buf` of src/cheatman.c makes of the lines of a cheat file.
use opl_future_beta.Base.{
  ℕ, ◌≤◌, ◌<◌, ◌≡◌, ◌≢◌, ◌∙◌, ap, refl, Bool, true, false, not, ◌&&◌, List, [], ◌∷◌, ◌++◌, Option,
  none, some, ltb, if◌then◌else◌, length, take, take_all, length-append, arith, Each,
}
use opl_future_beta.Text.{Str, strchr}
use opl_future_beta.Cheats.{Code, is_end}
use opl_future_beta.Cheats.Lines.{
  is_cheat_code, parse_line, is_cmt_str, term_str, is_empty_str, skip_space, cut_space, end_with,
  trim_str,
}
use opl_future_beta.Cheats.Parser.{cheat_name_max, Parse, take_code, screened, parse_text}
use opl_future_beta.Cheats.Digits.{
  hex_text, code_line, IsWords, IsDigit, IsPair, code_line-IsPair, is_cheat_code-pair,
  parse_line-code_line,
}
use opl_future_beta.Cheats.Rounds.{IsLine}

-- A name that a cheat file can hold.
pub record IsName (name : Str) : Type 0 where
  pub one_line : strchr name 10 ≡ none
  pub short : length name ≤ cheat_name_max
  pub visible : is_empty_str name ≡ false
  pub no_comment : term_str name ≡ name
  pub trimmed : trim_str name ≡ name
  pub no_code : is_cheat_code name ≡ false

pub name-IsLine : (name : Str) → IsName name → IsLine name
name-IsLine name v = record { whole = v.one_line; short = omega (arith, v.short) }

pub visible_length : (s : Str) → is_empty_str s ≡ false → 0 < length s
unfolding is_empty_str
visible_length [] e = absurd (cc)
visible_length (c ∷ s) e = omega arith

-- `parse_buf` keeps a name for the codes that follow.
pub parse_text-name :
    (name : Str) (p : Parse)
    → IsName name
    → parse_text name p ≡ some (record p { temp_name = name; code_index = 0 })
unfolding parse_text screened
parse_text-name name p v =
    let l : ltb 0 (length name) ≡ true = ground (arith, visible_length name (v.visible)) in
    let t : take 128 name ≡ name = take_all 128 name (v.short) in
    ap (λ b. if b then some p else screened (trim_str (term_str name)) p) (v.visible)
    ∙ ap (λ s. screened s p) (ap trim_str (v.no_comment) ∙ v.trimmed)
    ∙ ap (λ b. if b then some (named (take 128 name)) else unnamed)
        (taken (is_cheat_code name) (v.no_code) l)
    ∙ ap (λ s. some (named s)) t
  where
    named : Str → Parse
    named s = record p { temp_name = s; code_index = 0 }

    unnamed : Option Parse
    unnamed = let code = parse_line name in if is_end code then some p else take_code code p

    taken :
        (b : Bool) → b ≡ false → ltb 0 (length name) ≡ true → (not b && ltb 0 (length name)) ≡ true
    taken b e l = ground (arith, e, l)

-- A character that ends no line and begins no comment.
record IsPlain (c : ℕ) : Type 0 where
  no_lf : c ≢ 10
  no_hash : c ≢ 35
  no_slash : c ≢ 47

digits-IsPlain : (s : Str) → Each IsDigit s → Each IsPlain s
digits-IsPlain [] h = tt
digits-IsPlain (c ∷ s) h = (
  record { no_lf = h.0.no_lf; no_hash = h.0.no_hash; no_slash = h.0.no_slash },
  digits-IsPlain s (h.1),
)

Each-join :
    {A : Type 0} (P : A → Type 0) (xs ys : List A) → Each P xs → Each P ys → Each P (xs ++ ys)
Each-join P [] ys h k = k
Each-join P (x ∷ xs) ys h k = (h.0, Each-join P xs ys (h.1) k)

term_str-plain : (s : Str) → Each IsPlain s → term_str s ≡ s
unfolding term_str
term_str-plain [] h = refl
term_str-plain (c ∷ s) h =
    let b : is_cmt_str (c ∷ s) ≡ false = starts s in rw b (ap (λ r. c ∷ r) (term_str-plain s (h.1)))
  where
    starts : (s : Str) → is_cmt_str (c ∷ s) ≡ false
    starts [] = ground (arith, h.0.no_hash)
    starts (d ∷ s) = ground (arith, h.0.no_hash, h.0.no_slash)

strchr-plain : (s : Str) → Each IsPlain s → strchr s 10 ≡ none
unfolding strchr
strchr-plain [] h = refl
strchr-plain (c ∷ s) h = ground (arith, h.0.no_lf, strchr-plain s (h.1))

cut_space-digits : (s : Str) → Each IsDigit s → cut_space s ≡ s
unfolding cut_space
cut_space-digits [] h = refl
cut_space-digits (c ∷ s) h = ap (end_with c) (cut_space-digits s (h.1)) ∙ last s
  where
    last : (s : Str) → end_with c s ≡ c ∷ s
    last [] = rw (h.0.no_space) refl
    last (d ∷ s) = refl

cut_space-front : (s t : Str) → t ≢ [] → cut_space t ≡ t → cut_space (s ++ t) ≡ s ++ t
unfolding cut_space
cut_space-front [] t n e = e
cut_space-front (c ∷ s) t n e =
    ap (end_with c) (cut_space-front s t n e) ∙ more (s ++ t) (nonempty s)
  where
    nonempty : (s : Str) → s ++ t ≢ []
    nonempty [] q = n q
    nonempty (d ∷ s) q = cc

    more : (r : Str) → r ≢ [] → end_with c r ≡ c ∷ r
    more [] q = absurd (q refl)
    more (d ∷ r) q = refl

module _ (a b : Str) (v : IsPair a b) where
  pair-IsPlain : Each IsPlain (a ++ 32 ∷ b)
  pair-IsPlain = Each-join IsPlain a (32 ∷ b) (digits-IsPlain a (v.digits_a)) (
    record { no_lf = omega arith; no_hash = omega arith; no_slash = omega arith },
    digits-IsPlain b (v.digits_b),
  )

  pair-visible : is_empty_str (a ++ 32 ∷ b) ≡ false
  unfolding is_empty_str
  pair-visible = first a (v.digits_a) (v.length_a)
    where
      first : (s : Str) → Each IsDigit s → length s ≡ 8 → is_empty_str (s ++ 32 ∷ b) ≡ false
      first [] h l = absurd (omega (arith, l))
      first (c ∷ s) h l = rw (h.0.graph) refl

  pair-trimmed : trim_str (a ++ 32 ∷ b) ≡ a ++ 32 ∷ b
  unfolding trim_str skip_space cut_space
  pair-trimmed =
      ap (λ t. if t then a ++ 32 ∷ b else cut_space (skip_space (a ++ 32 ∷ b))) pair-visible
      ∙ ap cut_space (first a (v.digits_a) (v.length_a))
      ∙ cut_space-front a (32 ∷ b) (λ q. cc)
          (ap (end_with 32) (cut_space-digits b (v.digits_b)) ∙ more b (v.length_b))
    where
      first : (s : Str) → Each IsDigit s → length s ≡ 8 → skip_space (s ++ 32 ∷ b) ≡ s ++ 32 ∷ b
      first [] h l = absurd (omega (arith, l))
      first (c ∷ s) h l = rw (h.0.no_space) refl

      more : (s : Str) → length s ≡ 8 → end_with 32 s ≡ 32 ∷ s
      more [] l = absurd (omega (arith, l))
      more (c ∷ s) l = refl

pub code-IsLine : (c : Code) → IsLine (code_line c)
code-IsLine c =
    let a = hex_text 8 (c.addr) in
    let b = hex_text 8 (c.val) in
    let v = code_line-IsPair c in
    record {
      whole = strchr-plain (a ++ 32 ∷ b) (pair-IsPlain a b v);
      short = omega (arith, length-append {0} a (32 ∷ b), v.length_a, v.length_b);
    }

-- `parse_buf` takes the code of a code line.
pub parse_text-code :
    (c : Code) (p : Parse)
    → IsWords c
    → is_end c ≡ false
    → parse_text (code_line c) p ≡ take_code c p
unfolding parse_text screened
parse_text-code c p w e =
    let a = hex_text 8 (c.addr) in
    let b = hex_text 8 (c.val) in
    let v = code_line-IsPair c in
    let line = code_line c in
    ap (λ t. if t then some p else screened (trim_str (term_str line)) p) (pair-visible a b v)
    ∙ ap (λ s. screened s p)
        (ap trim_str (term_str-plain line (pair-IsPlain a b v)) ∙ pair-trimmed a b v)
    ∙ ap (by_test line) (is_cheat_code-pair a b v)
    ∙ ap by_code (parse_line-code_line c w)
    ∙ ap (λ t. if t then some p else take_code c p) e
  where
    by_code : Code → Option Parse
    by_code code = if is_end code then some p else take_code code p

    by_test : Str → Bool → Option Parse
    by_test line t =
        if not t && ltb 0 (length line)
        then some (record p { temp_name = take cheat_name_max line; code_index = 0 })
        else by_code (parse_line line)
