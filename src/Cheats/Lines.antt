-- ===== src/Cheats/Lines.antt =====
-- One line of a cheat file: `is_cheat_code`, `make_code`, `parse_line`, `term_str`, `trim_str` and their
-- helpers, of src/cheatman.c.
use opl_future_beta.Base.{
  ℕ, ◌+◌, ◌*◌, Bool, true, false, not, ◌&&◌, [], ◌∷◌, none, some, ltb, leb, ◌==◌, if◌then◌else◌,
  take, drop,
}
use opl_future_beta.Text.{Str, from_hex}
use opl_future_beta.Cheats.{Code}

-- `CODE_DIGITS`
abbrev pub code_digits : ℕ
code_digits = 16

-- `isxdigit`, `isspace` and `isgraph` of the C locale.
unfoldable pub is_xdigit : ℕ → Bool
unfolding from_hex
is_xdigit c = elim (from_hex c) [ some digit ↦ true | none ↦ false ]

unfoldable pub is_space : ℕ → Bool
is_space c = if c == 32 then true else leb 9 c && leb c 13

unfoldable pub is_graph : ℕ → Bool
is_graph c = leb 33 c && leb c 126

-- The digits that `make_code` copies.
unfoldable pub copy_digits : Str → Str
unfolding is_xdigit
copy_digits [] = []
copy_digits (c ∷ s) = let rest = copy_digits s in if is_xdigit c then c ∷ rest else rest

-- Hexadecimal digits as `sscanf` reads them, from the value `n` on.
unfoldable pub scan_hex : ℕ → Str → ℕ
scan_hex n [] = n
scan_hex n (c ∷ s) = scan_hex (elim (from_hex c) [ some digit ↦ n * 16 + digit | none ↦ n ]) s

-- `make_code`, for a text with 16 digits. The NUL that it writes behind them is taken to be read back.
unfoldable pub make_code : Str → Code
unfolding copy_digits scan_hex
make_code s =
    let digits = copy_digits s in
    record { addr = scan_hex 0 (take 8 digits); val = scan_hex 0 (take 8 (drop 8 digits)) }

-- The loop of `is_cheat_code`, with `i` digits read.
unfoldable pub cheat_code_from : ℕ → Str → Bool
unfolding is_xdigit is_space
cheat_code_from i [] = i == code_digits
cheat_code_from i (c ∷ s) =
    let digit = cheat_code_from (i + 1) s in
    let blank = cheat_code_from i s in
    if is_xdigit c
    then (if ltb code_digits (i + 1) then false else digit)
    else if is_space c
    then blank
    else false

unfoldable pub is_cheat_code : Str → Bool
unfolding cheat_code_from
is_cheat_code s = cheat_code_from 0 s

-- `parse_line` without its log.
unfoldable pub parse_line : Str → Code
unfolding is_cheat_code make_code
parse_line line = if is_cheat_code line then make_code line else record { addr = 0; val = 0 }

-- `is_cmt_str`: `//` or `#`.
abbrev pub is_cmt_str : Str → Bool
is_cmt_str [] = false
is_cmt_str (a ∷ []) = a == 35
is_cmt_str (a ∷ b ∷ s) = if a == 35 then true else a == 47 && b == 47

-- `term_str` with `is_cmt_str`
unfoldable pub term_str : Str → Str
term_str [] = []
term_str (c ∷ s) = let rest = term_str s in if is_cmt_str (c ∷ s) then [] else c ∷ rest

-- `is_empty_str`, and `is_empty_substr` on its characters.
unfoldable pub is_empty_str : Str → Bool
unfolding is_graph
is_empty_str [] = true
is_empty_str (c ∷ s) = not (is_graph c) && is_empty_str s

unfoldable pub skip_space : Str → Str
unfolding is_space
skip_space [] = []
skip_space (c ∷ s) = let rest = skip_space s in if is_space c then rest else c ∷ s

abbrev pub end_with : ℕ → Str → Str
end_with c (d ∷ s) = c ∷ d ∷ s
end_with c [] = if is_space c then [] else c ∷ []

unfoldable pub cut_space : Str → Str
unfolding is_space
cut_space [] = []
cut_space (c ∷ s) = end_with c (cut_space s)

-- `trim_str`: a line of white space only is left as it is.
unfoldable pub trim_str : Str → Str
unfolding is_empty_str skip_space cut_space
trim_str s = if is_empty_str s then s else cut_space (skip_space s)
