-- ===== src/Cheats/Rounds.antt =====
-- The rounds of `parse_buf` of src/cheatman.c: how it ends, and what it does with a list of lines.
use opl_future_beta.Base.{
  ℕ, zero, suc, ◌+◌, ◌-◌, ◌≤◌, ◌≡◌, ◌∙◌, ap, refl, Bool, true, false, not, ◌&&◌, List, [], ◌∷◌,
  ◌++◌, Option, none, some, ltb, ◌==◌, length, take, drop, length-append, take-append, take_all,
  arith, Each,
}
use opl_future_beta.Text.{unlines, Str, strchr, strchr-append, drop-append}
use opl_future_beta.Cheats.Lines.{is_empty_str}
use opl_future_beta.Cheats.Parser.{
  Parse, Parsed, parsed, overrun, past_end, unfinished, cheat_line_max, parse_text, after_round,
  line_len, parse_round, round, parse_from, parse_buf,
}

-- A buffer that is empty or ends with a line feed.
abbrev pub ends_lf : Str → Bool
ends_lf [] = true
ends_lf (c ∷ []) = c == 10
ends_lf (c ∷ d ∷ s) = ends_lf (d ∷ s)

-- What an end of `parse_buf` says of its buffer.
abbrev pub Ends : Str → Parsed → Type 0
Ends buf (parsed p) = ends_lf buf ≡ true
Ends buf overrun = Unit
Ends buf past_end = Unit
Ends buf unfinished = ⊥

ends_lf-drop :
    (s : Str) (n at : ℕ)
    → strchr s 10 ≡ some at
    → n ≤ at
    → ends_lf (drop (suc n) s) ≡ true
    → ends_lf s ≡ true
unfolding strchr
ends_lf-drop [] n at e h d = refl
ends_lf-drop (c ∷ []) n at e h d = ground (arith, e)
ends_lf-drop (c ∷ x ∷ s) zero at e h d = d
ends_lf-drop (c ∷ x ∷ s) (suc n) zero e h d = absurd (omega (arith, h))
ends_lf-drop (c ∷ x ∷ s) (suc n) (suc at) e h d =
    ends_lf-drop (x ∷ s) n at (ground (arith, e)) (omega (arith, h)) d

length-drop : (n : ℕ) (s : Str) → length (drop n s) ≤ length s
length-drop zero s = omega arith
length-drop (suc n) [] = omega arith
length-drop (suc n) (c ∷ s) = omega (arith, length-drop n s)

-- What the rest of the buffer shows, behind a line that has a line feed.
Ends-drop :
    (buf : Str) (n at : ℕ)
    → strchr buf 10 ≡ some at
    → n ≤ at
    → (r : Parsed) → Ends (drop (suc n) buf) r
    → Ends buf r
Ends-drop buf n at e le (parsed q) k = ends_lf-drop buf n at e le k
Ends-drop buf n at e le overrun k = tt
Ends-drop buf n at e le past_end k = tt
Ends-drop buf n at e le unfinished k = k

from-Ends :
    (fuel : ℕ) (buf : Str) (p : Parse) → length buf ≤ fuel → Ends buf (parse_from fuel buf p)
unfolding parse_from
from-Ends fuel [] p h = refl
from-Ends zero (c ∷ buf) p h = omega (arith, h)
from-Ends (suc fuel) (c ∷ buf) p h =
    by_line (λ len next. parse_from fuel (drop len buf) next)
      (λ len next. from-Ends fuel (drop len buf) next (omega (arith, h, length-drop len buf)))
      (strchr (c ∷ buf) 10) refl
  where
    by_round :
        (go : ℕ → Parse → Parsed)
        → ((len : ℕ) (next : Parse) → Ends (drop len buf) (go len next))
        → (len at : ℕ) → strchr (c ∷ buf) 10 ≡ some at
        → len ≤ at
        → (o : Option Parse) → Ends (c ∷ buf) (after_round (go len) o)
    by_round go ih len at e le none = tt
    by_round go ih len at e le (some next) =
        Ends-drop (c ∷ buf) len at e le (go len next) (ih len next)

    by_last : (o : Option Parse) → Ends (c ∷ buf) (after_round (λ _. past_end) o)
    by_last none = tt
    by_last (some next) = tt

    by_line :
        (go : ℕ → Parse → Parsed)
        → ((len : ℕ) (next : Parse) → Ends (drop len buf) (go len next))
        → (o : Option ℕ) → strchr (c ∷ buf) 10 ≡ o
        → Ends (c ∷ buf) (parse_round go (c ∷ buf) p o)
    by_line go ih none e = by_last (round (c ∷ buf) (length (c ∷ buf)) p)
    by_line go ih (some at) e =
        by_round go ih (line_len at) at e (ground arith) (round (c ∷ buf) (line_len at) p)

-- `parse_buf` always ends, and it ends as it should only on a buffer that is empty or ends with a line feed:
-- on every other buffer it reads behind the NUL, or writes outside an array before that.
pub parse_buf-Ends : (buf : Str) → Ends buf (parse_buf buf)
unfolding parse_buf
parse_buf-Ends buf = from-Ends (length buf) buf _ (omega arith)

-- The bodies of the loop on a list of lines.
unfoldable pub run_lines : List Str → Parse → Parsed
run_lines [] p = parsed p
run_lines (line ∷ lines) p = after_round (run_lines lines) (parse_text line p)

-- A line that fits the array `line` and has no line feed.
pub record IsLine (line : Str) : Type 0 where
  pub whole : strchr line 10 ≡ none
  pub short : length line ≤ cheat_line_max

round-line :
    (line rest : Str) (p : Parse)
    → length line ≤ cheat_line_max
    → round (line ++ 10 ∷ rest) (length line) p ≡ parse_text line p
round-line line rest p h =
    let t : take (length line) (line ++ 10 ∷ rest) ≡ line =
      take-append (length line) line (10 ∷ rest) (omega arith)
      ∙ take_all (length line) line (omega arith) in
    let n : (not (is_empty_str line) && ltb cheat_line_max (length line)) ≡ false =
      ground (arith, h) in
    rw t (rw n refl)

-- A round on a line, whatever follows it.
round-go :
    (go : ℕ → Parse → Parsed) (line rest : Str) (p : Parse)
    → IsLine line
    → parse_round go (line ++ 10 ∷ rest) p (strchr (line ++ 10 ∷ rest) 10)
      ≡ after_round (go (length line)) (parse_text line p)
round-go go line rest p v =
    let buf = line ++ 10 ∷ rest in
    let l : line_len (length line) ≡ length line = ground (arith, v.short) in
    ap (parse_round go buf p) (strchr-append line rest 10 (v.whole))
    ∙ ap (λ n. after_round (go n) (round buf n p)) l
    ∙ ap (after_round (go (length line))) (round-line line rest p (v.short))

from-line :
    (fuel : ℕ) (line rest : Str) (p : Parse)
    → IsLine line
    → parse_from (suc fuel) (line ++ 10 ∷ rest) p
      ≡ after_round (parse_from fuel rest) (parse_text line p)
unfolding parse_from
from-line fuel [] rest p v = round-go (λ len next. parse_from fuel (drop len rest) next) [] rest p v
from-line fuel (c ∷ line) rest p v =
    let d : drop (suc (length line)) (line ++ 10 ∷ rest) ≡ rest =
      (let e : suc (length line) ≡ length line + 1 = omega arith in
        ap (λ n. drop n (line ++ 10 ∷ rest)) e ∙ drop-append line rest 10) in
    round-go (λ len next. parse_from fuel (drop len (line ++ 10 ∷ rest)) next) (c ∷ line) rest p v
    ∙ ap (λ s. after_round (parse_from fuel s) (parse_text (c ∷ line) p)) d

lines-length : (lines : List Str) → length lines ≤ length (unlines lines)
lines-length [] = omega arith
lines-length (line ∷ lines) =
    omega (arith, lines-length lines, length-append {0} line (10 ∷ unlines lines))

from-run :
    (lines : List Str) (extra : ℕ) (p : Parse)
    → Each IsLine lines
    → parse_from (length lines + extra) (unlines lines) p ≡ run_lines lines p
unfolding run_lines parse_from
from-run [] extra p v = refl
from-run (line ∷ lines) extra p v =
    let f : length (line ∷ lines) + extra ≡ suc (length lines + extra) = omega arith in
    ap (λ n. parse_from n (unlines (line ∷ lines)) p) f
    ∙ from-line (length lines + extra) line (unlines lines) p (v.0)
    ∙ go (λ next. from-run lines extra next (v.1)) (parse_text line p)
  where
    go :
        ((next : Parse)
          → parse_from (length lines + extra) (unlines lines) next ≡ run_lines lines next)
        → (o : Option Parse)
        → after_round (parse_from (length lines + extra) (unlines lines)) o
          ≡ after_round (run_lines lines) o
    go ih none = refl
    go ih (some next) = ih next

-- On a text of lines of at most 255 characters, each with its line feed, `parse_buf` is the body of its loop
-- on one line after the other.
pub parse_buf-unlines :
    (lines : List Str)
    → Each IsLine lines
    → parse_buf (unlines lines)
      ≡ run_lines lines (record { cheats = []; temp_name = []; code_index = 0 })
unfolding parse_buf
parse_buf-unlines lines v =
    let start : Parse = record { cheats = []; temp_name = []; code_index = 0 } in
    let h = lines-length lines in
    let n = length (unlines lines) - length lines in
    let e : length (unlines lines) ≡ length lines + n = omega (arith, h) in
    ap (λ f. parse_from f (unlines lines) start) e ∙ from-run lines n start v
