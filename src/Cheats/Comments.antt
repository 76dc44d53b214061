-- ===== src/Cheats/Comments.antt =====
-- A comment behind white space in a cheat file, src/cheatman.c.
use opl_future_beta.Base.{
  ℕ, ◌≡◌, ◌<◌, ◌∙◌, ap, refl, true, false, not, ◌&&◌, [], ◌∷◌, ◌++◌, Option, some, ltb, length,
  take, arith, Each, if◌then◌else◌, ◌==◌,
}
use opl_future_beta.Text.{Str, from_hex}
use opl_future_beta.Cheats.{is_end}
use opl_future_beta.Cheats.Lines.{
  is_xdigit, is_space, is_graph, cheat_code_from, is_cheat_code, parse_line, is_cmt_str, term_str,
  is_empty_str, skip_space, cut_space, trim_str,
}
use opl_future_beta.Cheats.Parser.{cheat_name_max, Parse, take_code, screened, parse_text}

-- A space or a tab.
abbrev pub IsBlank : ℕ → Type 0
IsBlank c = (if c == 32 then true else c == 9) ≡ true

blank-visible : (s rest : Str) → Each IsBlank s → is_empty_str (s ++ 47 ∷ rest) ≡ false
unfolding is_empty_str is_graph
blank-visible [] rest h = refl
blank-visible (c ∷ s) rest h = ground (arith, h.0, blank-visible s rest (h.1))

blank-empty : (s : Str) → Each IsBlank s → is_empty_str s ≡ true
unfolding is_empty_str is_graph
blank-empty [] h = refl
blank-empty (c ∷ s) h = ground (arith, h.0, blank-empty s (h.1))

blank-cut : (s rest : Str) → Each IsBlank s → term_str (s ++ 47 ∷ 47 ∷ rest) ≡ s
unfolding term_str
blank-cut [] rest h = refl
blank-cut (c ∷ s) rest h =
    let b : is_cmt_str (c ∷ (s ++ 47 ∷ 47 ∷ rest)) ≡ false = starts s in
    rw b (ap (λ r. c ∷ r) (blank-cut s rest (h.1)))
  where
    starts : (s : Str) → is_cmt_str (c ∷ (s ++ 47 ∷ 47 ∷ rest)) ≡ false
    starts [] = ground (arith, h.0)
    starts (d ∷ s) = ground (arith, h.0)

blank-no_code : (s : Str) → Each IsBlank s → cheat_code_from 0 s ≡ false
unfolding cheat_code_from is_xdigit is_space from_hex
blank-no_code [] h = refl
blank-no_code (c ∷ s) h = ground (arith, h.0, blank-no_code s (h.1))

-- A line with white space in front of a `//` comment is taken for the name of a cheat: the name that
-- waits is lost, and the next code opens a new entry under the white space.
pub parse_text-comment :
    (s rest : Str) (p : Parse)
    → Each IsBlank s
    → 0 < length s
    → parse_text (s ++ 47 ∷ 47 ∷ rest) p
      ≡ some (record p { temp_name = take cheat_name_max s; code_index = 0 })
unfolding parse_text screened is_cheat_code trim_str
parse_text-comment s rest p h n =
    let line = s ++ 47 ∷ 47 ∷ rest in
    ap (λ b. if b then some p else screened (trim_str (term_str line)) p)
      (blank-visible s (47 ∷ rest) h)
    ∙ ap (λ l. screened (trim_str l) p) (blank-cut s rest h)
    ∙ ap (λ b. screened (if b then s else trimmed) p) (blank-empty s h)
    ∙ ap (λ b. if not b && ltb 0 (length s) then some (named s) else unnamed) (blank-no_code s h)
    ∙ (let l : ltb 0 (length s) ≡ true = ground (arith, n) in
        ap (λ b. if b then some (named s) else unnamed) l)
  where
    trimmed : Str
    trimmed = cut_space (skip_space s)

    named : Str → Parse
    named l = record p { temp_name = take cheat_name_max l; code_index = 0 }

    unnamed : Option Parse
    unnamed = let code = parse_line s in if is_end code then some p else take_code code p
