-- ===== src/Cheats/Parser.antt =====
-- The parser of a cheat file, `parse_buf` of src/cheatman.c. The buffer is its bytes up to the NUL.
use opl_future_beta.Base.{
  ℕ, zero, suc, ◌+◌, Bool, true, not, ◌&&◌, List, [], ◌∷◌, ◌++◌, Option, none, some, ltb, leb,
  if◌then◌else◌, length, take, drop,
}
use opl_future_beta.Text.{Str, strchr}
use opl_future_beta.Cheats.{Code, is_end, max_codes}
use opl_future_beta.Cheats.Lines.{is_cheat_code, parse_line, term_str, is_empty_str, trim_str}

-- `CHEAT_NAME_MAX`, `CHEAT_LINE_MAX`, and `MAX_CHEATLIST` as the size of an entry's array.
abbrev pub cheat_name_max : ℕ
cheat_name_max = 128

abbrev pub cheat_line_max : ℕ
cheat_line_max = 255

abbrev pub max_entry_codes : ℕ
max_entry_codes = 510

-- `cheat_entry_t`, with the codes that have been stored.
pub record Cheat : Type 0 where
  pub name : Str
  pub codes : List Code
  pub enabled : Bool

-- `gCheats` up to `cheat_index`, the last one first, with `temp_name` and `code_index`.
pub record Parse : Type 0 where
  pub cheats : List Cheat
  pub temp_name : Str
  pub code_index : ℕ

-- How `parse_buf` ends: as it should, with a write outside `line` or `gCheats`, or reading behind the
-- NUL of its buffer. `unfinished` is for a loop that has run out of fuel.
pub data Parsed : Type 0 where
  parsed : Parse → Parsed
  overrun : Parsed
  past_end : Parsed
  unfinished : Parsed

abbrev pub store_code : ℕ → Code → List Cheat → List Cheat
store_code i code [] = []
store_code i code (cheat ∷ cheats) =
    record cheat { codes = take i (cheat.codes) ++ code ∷ drop (i + 1) (cheat.codes) } ∷ cheats

-- `gCheats[cheat_index].codes[code_index++] = code` behind its test.
unfoldable pub add_code : Code → Parse → Parse
add_code code p =
    if ltb 0 (length (p.cheats)) && ltb (p.code_index) max_entry_codes
    then record p {
      cheats = store_code (p.code_index) code (p.cheats);
      code_index = p.code_index + 1;
    }
    else p

-- The entry that a name waits for. `cheat_index < MAX_CODES` lets the index become `MAX_CODES`,
-- one entry behind the array.
unfoldable pub take_code : Code → Parse → Option Parse
unfolding add_code
take_code code p = elim (p.temp_name) [
  | [] ↦ some (add_code code p)
  | c ∷ name ↦
      if leb (length (p.cheats)) max_codes
      then (if ltb (length (p.cheats)) max_codes
          then some (
              add_code code (record p {
                cheats = record { name = c ∷ name; codes = []; enabled = true } ∷ p.cheats;
                temp_name = [];
              }))
          else none)
      else some (add_code code p)
]

-- A line of the file that is not empty, after the screener.
unfoldable pub screened : Str → Parse → Option Parse
unfolding take_code
screened line p =
    if not (is_cheat_code line) && ltb 0 (length line)
    then some (record p { temp_name = take cheat_name_max line; code_index = 0 })
    else (let code = parse_line line in if is_end code then some p else take_code code p)

-- The body of the loop, on the characters of the line.
unfoldable pub parse_text : Str → Parse → Option Parse
unfolding screened
parse_text line p = if is_empty_str line then some p else screened (trim_str (term_str line)) p

-- One round on a line of `len` characters. Only a line that is not empty is copied to `line`.
abbrev pub round : Str → ℕ → Parse → Option Parse
round buf len p =
    if not (is_empty_str (take len buf)) && ltb cheat_line_max len
    then none
    else parse_text (take len buf) p

abbrev pub after_round : (Parse → Parsed) → Option Parse → Parsed
after_round go none = overrun
after_round go (some next) = go next

-- The number of characters in a line whose line feed is at an offset.
abbrev pub line_len : ℕ → ℕ
line_len at = if ltb cheat_line_max at then cheat_line_max else at

-- A round on the buffer, by the offset of the next line feed. Behind a last line without one,
-- `buf += len + 1` steps over the NUL.
abbrev pub parse_round : (ℕ → Parse → Parsed) → Str → Parse → Option ℕ → Parsed
parse_round go buf p none = after_round (λ _. past_end) (round buf (length buf) p)
parse_round go buf p (some at) = after_round (go (line_len at)) (round buf (line_len at) p)

-- The loop of `parse_buf`
unfoldable pub parse_from : (fuel : ℕ) → Str → Parse → Parsed
parse_from fuel [] p = parsed p
parse_from zero (c ∷ buf) p = unfinished
parse_from (suc fuel) (c ∷ buf) p =
    parse_round (λ len next. parse_from fuel (drop len buf) next) (c ∷ buf) p (strchr (c ∷ buf) 10)

-- `parse_buf` on `gCheats` as `load_cheats` has cleared it.
unfoldable pub parse_buf : Str → Parsed
unfolding parse_from
parse_buf buf = parse_from (length buf) buf (record { cheats = []; temp_name = []; code_index = 0 })
