-- ===== src/Cheats/Printed.antt =====
-- A cheat file with names and codes, and what `parse_buf` of src/cheatman.c reads from it.
use opl_future_beta.Base.{
  ℕ, zero, suc, ◌+◌, ◌≤◌, ◌<◌, ◌≡◌, ◌∙◌, ap, ap₂, refl, sym, Bool, true, false, ◌&&◌, List, [], ◌∷◌,
  ◌++◌, Option, none, some, ltb, leb, if◌then◌else◌, if-elim, length, drop, take_all, length-append,
  append-nil, append_assoc, arith, Each,
}
use opl_future_beta.Text.{unlines, Str}
use opl_future_beta.Cheats.{Code, is_end, max_codes}
use opl_future_beta.Cheats.Parser.{
  max_entry_codes, Cheat, Parse, parsed, overrun, store_code, add_code, take_code, parse_buf,
  after_round,
}
use opl_future_beta.Cheats.Digits.{code_line, IsWords}
use opl_future_beta.Cheats.Rounds.{IsLine, run_lines, parse_buf-unlines}
use opl_future_beta.Cheats.Screened.{
  IsName, visible_length, name-IsLine, code-IsLine, parse_text-name, parse_text-code,
}

-- A code that the file can hold: two words that are not both zero.
pub record IsCode (c : Code) : Type 0 where
  pub words : IsWords c
  pub no_end : is_end c ≡ false

-- A cheat that the file can hold.
pub record IsCheat (c : Cheat) : Type 0 where
  pub named : IsName (c.name)
  pub some_code : 0 < length (c.codes)
  pub fitting : length (c.codes) ≤ max_entry_codes
  pub valid : Each IsCode (c.codes)
  pub on : c.enabled ≡ true

abbrev pub code_lines : List Code → List Str → List Str
code_lines [] rest = rest
code_lines (c ∷ cs) rest = code_line c ∷ code_lines cs rest

-- The lines of a cheat file: each name, and its codes behind it.
abbrev pub cheat_lines : List Cheat → List Str
cheat_lines [] = []
cheat_lines (c ∷ cs) = c.name ∷ code_lines (c.codes) (cheat_lines cs)

code_lines-IsLine :
    (cs : List Code) (rest : List Str) → Each IsLine rest → Each IsLine (code_lines cs rest)
code_lines-IsLine [] rest h = h
code_lines-IsLine (c ∷ cs) rest h = (code-IsLine c, code_lines-IsLine cs rest h)

cheat_lines-IsLine : (cs : List Cheat) → Each IsCheat cs → Each IsLine (cheat_lines cs)
cheat_lines-IsLine [] h = tt
cheat_lines-IsLine (c ∷ cs) h = (
  name-IsLine (c.name) (h.0.named),
  code_lines-IsLine (c.codes) (cheat_lines cs) (cheat_lines-IsLine cs (h.1)),
)

-- The parser within a cheat, with the codes read so far.
abbrev within : Cheat → List Cheat → List Code → Parse
within ch cheats done = record {
  cheats = record ch { codes = done } ∷ cheats;
  temp_name = [];
  code_index = length done;
}

drop_all : (n : ℕ) (l : List Code) → length l ≤ n → drop n l ≡ []
drop_all zero [] h = refl
drop_all zero (x ∷ l) h = absurd (omega (arith, h))
drop_all (suc n) [] h = refl
drop_all (suc n) (x ∷ l) h = drop_all n l (omega (arith, h))

store_code-end :
    (ch : Cheat) (cheats : List Cheat) (done : List Code) (c : Code)
    → store_code (length done) c (record ch { codes = done } ∷ cheats)
      ≡ record ch { codes = done ++ c ∷ [] } ∷ cheats
store_code-end ch cheats done c =
    ap (λ l. record ch { codes = l } ∷ cheats)
      (ap₂ (λ x y. x ++ c ∷ y) (take_all (length done) done (omega arith))
        (drop_all (length done + 1) done (omega arith)))

take_code-within :
    (ch : Cheat) (cheats : List Cheat) (done : List Code) (c : Code)
    → length done < max_entry_codes
    → take_code c (within ch cheats done) ≡ some (within ch cheats (done ++ c ∷ []))
unfolding take_code add_code
take_code-within ch cheats done c h =
    let p = within ch cheats done in
    let t : (ltb 0 (length (p.cheats)) && ltb (length done) max_entry_codes) ≡ true =
      ground (arith, h) in
    let n : length done + 1 ≡ length (done ++ c ∷ []) =
      omega (arith, length-append {0} done (c ∷ [])) in
    ap
      (λ b.
        some (if b then stored (store_code (length done) c (p.cheats)) (length done + 1) else p))
      t
    ∙ ap₂ (λ l m. some (stored l m)) (store_code-end ch cheats done c) n
  where
    stored : List Cheat → ℕ → Parse
    stored l m = record { cheats = l; temp_name = []; code_index = m }

run-codes :
    (ch : Cheat) (cheats : List Cheat) (done new : List Code) (rest : List Str)
    → Each IsCode new
    → length done + length new ≤ max_entry_codes
    → run_lines (code_lines new rest) (within ch cheats done)
      ≡ run_lines rest (within ch cheats (done ++ new))
unfolding run_lines
run-codes ch cheats done [] rest v h =
    ap (λ l. run_lines rest (within ch cheats l)) (sym (append-nil done))
run-codes ch cheats done (c ∷ new) rest v h =
    let go = λ (o : Option Parse). after_round (run_lines (code_lines new rest)) o in
    ap go (
      parse_text-code c (within ch cheats done) (v.0.words) (v.0.no_end)
      ∙ take_code-within ch cheats done c (omega (arith, h)))
    ∙ run-codes ch cheats (done ++ c ∷ []) new rest (v.1)
        (omega (arith, h, length-append {0} done (c ∷ [])))
    ∙ ap (λ l. run_lines rest (within ch cheats l)) (append_assoc done (c ∷ []) new)

-- The codes of the last cheat, `n` where there is none.
abbrev pub last_count : ℕ → List Cheat → ℕ
last_count n [] = n
last_count n (c ∷ cs) = last_count (length (c.codes)) cs

abbrev pub push_all : List Cheat → List Cheat → List Cheat
push_all [] cheats = cheats
push_all (c ∷ cs) cheats = push_all cs (c ∷ cheats)

-- The parser behind some cheats.
abbrev pub between : List Cheat → ℕ → Parse
between cheats n = record { cheats = cheats; temp_name = []; code_index = n }

-- The first code behind a name opens an entry, where there is one.
take_code-named :
    (name : Str) (cheats : List Cheat) (c : Code)
    → 0 < length name
    → length cheats ≤ max_codes
    → take_code c (record { cheats = cheats; temp_name = name; code_index = 0 }) ≡ (
        if ltb (length cheats) max_codes
        then some (within (record { name = name; codes = []; enabled = true }) cheats (c ∷ []))
        else none)
unfolding take_code add_code
take_code-named [] cheats c l h = absurd (omega (arith, l))
take_code-named (x ∷ name) cheats c l h =
    let b : leb (length cheats) max_codes ≡ true = ground (arith, h) in
    let q : (ltb 0 (suc (length cheats)) && true) ≡ true = ground arith in rw (b, q) refl

-- One cheat, in front of other lines.
cheat-run :
    (name : Str) (codes : List Code) (cheats : List Cheat) (n : ℕ) (rest : List Str)
    → IsName name
    → 0 < length codes
    → length codes ≤ max_entry_codes
    → Each IsCode codes
    → length cheats ≤ max_codes
    → run_lines (name ∷ code_lines codes rest) (between cheats n) ≡ (
        if ltb (length cheats) max_codes
        then run_lines rest (
            between (record { name = name; codes = codes; enabled = true } ∷ cheats) (length codes))
        else overrun)
unfolding run_lines
cheat-run name [] cheats n rest v some_code le w h = absurd (omega (arith, some_code))
cheat-run name (c ∷ codes) cheats n rest v some_code le w h =
    let ch : Cheat = record { name = name; codes = []; enabled = true } in
    let named : Parse = record { cheats = cheats; temp_name = name; code_index = 0 } in
    ap (after_round (run_lines (code_line c ∷ code_lines codes rest)))
      (parse_text-name name (between cheats n) v)
    ∙ ap (after_round (run_lines (code_lines codes rest))) (
        parse_text-code c named (w.0.words) (w.0.no_end)
        ∙ take_code-named name cheats c (visible_length name (v.visible)) h)
    ∙ by_room (ltb (length cheats) max_codes)
        (run-codes ch cheats (c ∷ []) codes rest (w.1) (omega (arith, le)))
  where
    by_room :
        (b : Bool)
        → run_lines
            (code_lines codes rest)
            (within (record { name = name; codes = []; enabled = true }) cheats (c ∷ []))
          ≡ run_lines rest
              (within (record { name = name; codes = []; enabled = true }) cheats (c ∷ codes))
        → after_round (run_lines (code_lines codes rest)) (
            if b
            then some (within (record { name = name; codes = []; enabled = true }) cheats (c ∷ []))
            else none)
          ≡ (if b
              then run_lines rest (
                  between
                    (record { name = name; codes = c ∷ codes; enabled = true } ∷ cheats)
                    (length (c ∷ codes)))
              else overrun)
    by_room true e = e
    by_room false e = refl

cheats-run :
    (cs cheats : List Cheat) (n : ℕ)
    → Each IsCheat cs
    → length cheats ≤ max_codes
    → run_lines (cheat_lines cs) (between cheats n) ≡ (
        if leb (length cheats + length cs) max_codes
        then parsed (between (push_all cs cheats) (last_count n cs))
        else overrun)
unfolding run_lines
cheats-run [] cheats n v h =
    let b : leb (length cheats + 0) max_codes ≡ true = ground (arith, h) in rw b refl
cheats-run (ch ∷ cs) cheats n v h =
    let k = v.0 in
    let next = λ (on : Bool). run_lines (cheat_lines cs) (
      between (record { name = ch.name; codes = ch.codes; enabled = on } ∷ cheats)
        (length (ch.codes))) in
    cheat-run (ch.name) (ch.codes) cheats n (cheat_lines cs) (k.named) (k.some_code) (k.fitting)
      (k.valid) h
    ∙ ap (λ r. if ltb (length cheats) max_codes then r else overrun) (ap next (sym (k.on)))
    ∙ by_room (λ le. cheats-run cs (ch ∷ cheats) (length (ch.codes)) (v.1) le)
  where
    by_room :
        (length (ch ∷ cheats) ≤ max_codes
          → run_lines (cheat_lines cs) (between (ch ∷ cheats) (length (ch.codes))) ≡ (
              if leb (length (ch ∷ cheats) + length cs) max_codes
              then parsed (between (push_all cs (ch ∷ cheats)) (last_count (length (ch.codes)) cs))
              else overrun))
        → (if ltb (length cheats) max_codes
            then run_lines (cheat_lines cs) (between (ch ∷ cheats) (length (ch.codes)))
            else overrun)
          ≡ (if leb (length cheats + length (ch ∷ cs)) max_codes
              then parsed (between (push_all cs (ch ∷ cheats)) (last_count (length (ch.codes)) cs))
              else overrun)
    by_room ih =
        let target = λ (m : ℕ).
          if leb m max_codes
          then parsed (between (push_all cs (ch ∷ cheats)) (last_count (length (ch.codes)) cs))
          else overrun in
        let m = length cheats + length (ch ∷ cs) in
        if-elim (λ r. r ≡ target m) (ltb (length cheats) max_codes)
          (λ t.
            let e : length (ch ∷ cheats) + length cs ≡ m = omega arith in
            ih (ground (arith, t)) ∙ ap target e)
          (λ t. let g : leb m max_codes ≡ false = ground (arith, t) in rw g refl)

-- A file of cheats, each with a name and at least one code, and no more codes than an entry holds: up to 250
-- of them `parse_buf` reads back, all enabled, and of more it writes an entry outside `gCheats`.
pub parse_buf-cheat_lines :
    (cs : List Cheat)
    → Each IsCheat cs
    → parse_buf (unlines (cheat_lines cs)) ≡ (
        if leb (length cs) max_codes
        then parsed (between (push_all cs []) (last_count 0 cs))
        else overrun)
parse_buf-cheat_lines cs v =
    let e : 0 + length cs ≡ length cs = omega arith in
    parse_buf-unlines (cheat_lines cs) (cheat_lines-IsLine cs v)
    ∙ cheats-run cs [] 0 v (omega arith)
    ∙ ap
        (λ n.
          if leb n max_codes then parsed (between (push_all cs []) (last_count 0 cs)) else overrun)
        e
