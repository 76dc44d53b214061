-- ===== src/FileBuffer/Rounds.antt =====
-- What the rounds of `readFileBuffer` of src/util.c do with the lines that they find.
use opl_future_beta.Base.{
  ℕ, zero, suc, ◌+◌, ◌≤◌, ◌≡◌, ◌≢◌, ◌∙◌, ap, ap₂, refl, sym, Bool, true, false, ◌&&◌, List, [], ◌∷◌,
  Option, none, some, ◌==◌, inl, inr, if◌then◌else◌, if-elim, length, length-append, arith,
}
use opl_future_beta.Text.{Str, strchr, first_char}
use opl_future_beta.FileBuffer.{
  Reader, Scan, line_read, at_end, null_move, unfinished, Calls, returned, moved_null, open_ended,
  Found, refill, find_line, cut_cr, line_text, next_last, is_nil, use_line, scan_line, left,
  read_file_buffer, more, read_all,
}
use opl_future_beta.FileBuffer.Reading.{HasLeft}
use opl_future_beta.FileBuffer.Finding.{find-last}

-- The lines of a text that are not comments; a move from NULL where the text
-- ends in a comment without a line feed.
abbrev pub shown : List Str → (last : Str) → Calls
shown [] [] = returned []
shown [] (c ∷ s) = if c == 35 then moved_null else returned (cut_cr (c ∷ s) ∷ [])
shown (line ∷ lines) last =
    if first_char (cut_cr line) == 35
    then shown lines last
    else more (cut_cr line) (shown lines last)

-- What the caller gets from a call and the `calls` calls behind it.
abbrev pub deliver : (calls : ℕ) → Scan → Calls
deliver calls (line_read line next) = more line (read_all calls next)
deliver calls (at_end next) = returned []
deliver calls null_move = moved_null
deliver calls unfinished = open_ended

pub read_all-deliver :
    (calls : ℕ) (r : Reader) → read_all (suc calls) r ≡ deliver calls (scan_line (suc (left r)) 0 r)
unfolding read_all read_file_buffer
read_all-deliver calls r = by (scan_line (suc (left r)) 0 r)
  where
    by :
        (s : Scan)
        → elim s [
          | line_read line next ↦ more line (read_all calls next)
          | at_end next ↦ returned []
          | null_move ↦ moved_null
          | unfinished ↦ open_ended
        ]
          ≡ deliver calls s
    by (line_read line next) = refl
    by (at_end next) = refl
    by null_move = refl
    by unfinished = refl

-- Lines without a line feed, which fit into the buffer if they come from the file.
abbrev pub Short : Reader → List Str → Type 0
Short r [] = Unit {0}
Short r (line ∷ lines) =
    (strchr line 10 ≡ none) × (r.fd ≢ none → length line + 2 ≤ r.size) × Short r lines

pub Short-next :
    (r r' : Reader) (lines : List Str)
    → ((n : ℕ) → (r.fd ≢ none → n ≤ r.size) → r'.fd ≢ none → n ≤ r'.size)
    → Short r lines
    → Short r' lines
Short-next r r' [] h s = tt
Short-next r r' (line ∷ lines) h (n, f, s) = (n, h (length line + 2) f, Short-next r r' lines h s)

pub HasLeft-left : (m : ℕ) (r : Reader) (t c u : Str) → HasLeft m r t c u → left r ≡ length t
HasLeft-left m r t c u v =
    ap₂ ◌+◌
      (elim (v.last_at) [
        | inl (l, e, z) ↦ ap ahead l ∙ ap length (sym e)
        | inr (offset, l, a) ↦ ap ahead l
      ])
      (elim (v.fd_at) [ inl (d, e) ↦ ap behind d ∙ ap length (sym e) | inr (d, h) ↦ ap behind d ])
    ∙ sym (length-append {0} c u)
    ∙ ap length (v.joins)
  where
    ahead : Option (ℕ × Str) → ℕ
    ahead o = elim o [ none ↦ 0 | some (offset, text) ↦ length text ]

    behind : Option Str → ℕ
    behind o = elim o [ none ↦ 0 | some rest ↦ length rest ]

abbrev pub next_reader : Found → Reader
next_reader f = record f.reader { last = next_last f }

-- The choice of a round, by its tests.
abbrev choose : (ℕ → Reader → Scan) → Found → (ended comment : Bool) → (line : Str) → Scan
choose again f ended comment line =
    if ended
    then at_end (record f.reader { last = some (f.offset, f.text) })
    else if comment
    then again (length line) (next_reader f)
    else line_read line (next_reader f)

use-choose :
    (again : ℕ → Reader → Scan) (f : Found) (line : Str) (ended comment : Bool)
    → line_text f ≡ line
    → (length line == 0 && (f.reader.available == 0 && is_nil (f.reader.fd))) ≡ ended
    → (first_char line == 35) ≡ comment
    → use_line again (some f) ≡ choose again f ended comment line
unfolding use_line
use-choose again f line ended comment l e c =
    ap
      (λ s.
        choose again f (length s == 0 && (f.reader.available == 0 && is_nil (f.reader.fd)))
          (first_char s == 35) s)
      l
    ∙ ap (λ b. choose again f b (first_char line == 35) line) e
    ∙ ap (λ b. choose again f ended b line) c

pub use-more :
    (again : ℕ → Reader → Scan) (f : Found) (line : Str) (comment : Bool)
    → line_text f ≡ line
    → f.reader.available ≢ 0
    → (first_char line == 35) ≡ comment
    → use_line again (some f) ≡ choose again f false comment line
use-more again f line comment l a c =
    use-choose again f line false comment l
      (let b : (f.reader.available == 0) ≡ false = ground (arith, a) in
        let m = length line == 0 in ap (λ b. m && (b && is_nil (f.reader.fd))) b ∙ and-false m)
      c
  where
    and-false : (m : Bool) → (m && false) ≡ false
    and-false true = refl
    and-false false = refl

use-end :
    (again : ℕ → Reader → Scan) (f : Found)
    → line_text f ≡ []
    → f.reader.available ≡ 0
    → f.reader.fd ≡ none
    → use_line again (some f) ≡ at_end (record f.reader { last = some (f.offset, f.text) })
use-end again f l a h =
    let b : (f.reader.available == 0) ≡ true = ground (arith, a) in
    use-choose again f [] true false l (ap (λ b. b && is_nil (f.reader.fd)) b ∙ ap is_nil h) refl

-- A round where the whole text has been read.
scan-nothing :
    (fuel : ℕ) (r : Reader)
    → r.last ≡ none
    → r.fd ≡ none
    → (calls : ℕ) → deliver calls (scan_line (suc fuel) 0 r) ≡ returned []
unfolding scan_line find_line refill
scan-nothing fuel r l d calls =
    ap (λ o. deliver calls (use_line (scan_line fuel) (find_line r 0 o))) l
    ∙ ap (λ o. deliver calls (use_line (scan_line fuel) (some (refill r [] 0 o)))) d
    ∙ ap (deliver calls) (use-end (scan_line fuel) (refill r [] 0 none) refl refl d)

cut_cr-comment : (c : ℕ) (s : Str) → (first_char (cut_cr (c ∷ s)) == 35) ≡ (c == 35)
cut_cr-comment c [] =
    if-elim (λ l. (first_char l == 35) ≡ (c == 35)) (c == 13) (λ t. ground (arith, t)) (λ t. refl)
cut_cr-comment c (d ∷ s) = refl

cut_cr-length : (c : ℕ) (s : Str) → (c == 35) ≡ true → length (cut_cr (c ∷ s)) ≢ 0
cut_cr-length c [] e =
    if-elim (λ l. length l ≢ 0) (c == 13) (λ t. absurd (ground (arith, t, e)))
      (λ t q. omega (arith, q))
cut_cr-length c (d ∷ s) e = λ q. omega (arith, q)

read-nothing :
    (calls : ℕ) (r : Reader)
    → r.last ≡ none
    → r.fd ≡ none
    → 1 ≤ calls
    → read_all calls r ≡ returned []
read-nothing zero r l d h = absurd (omega (arith, h))
read-nothing (suc calls) r l d h = read_all-deliver calls r ∙ scan-nothing (left r) r l d calls

-- A round after a comment without a line feed.
scan-moved :
    (calls fuel m : ℕ) (r : Reader)
    → r.last ≡ none
    → 1 ≤ fuel
    → m ≢ 0
    → deliver calls (scan_line fuel m r) ≡ moved_null
unfolding scan_line find_line use_line
scan-moved calls zero m r l h z = absurd (omega (arith, h))
scan-moved calls (suc fuel) m r l h z =
    let b : (m == 0) ≡ false = ground (arith, z) in
    ap (λ o. deliver calls (use_line (scan_line fuel) (find_line r m o))) l
    ∙ ap
        (λ b.
          deliver calls
            (use_line (scan_line fuel) (if b then some (refill r [] 0 (r.fd)) else none)))
        b

use-last :
    (s : Str) (fuel calls : ℕ) (f : Found)
    → line_text f ≡ cut_cr s
    → f.reader.available ≡ length s
    → f.reader.fd ≡ none
    → next_last f ≡ none
    → 1 ≤ calls
    → length s ≤ fuel
    → deliver calls (use_line (scan_line fuel) (some f)) ≡ shown [] s
use-last [] fuel calls f l a d q h k = ap (deliver calls) (use-end (scan_line fuel) f l a d)
use-last (c ∷ s) fuel calls f l a d q h k =
    ap (deliver calls) (
      use-more (scan_line fuel) f (cut_cr (c ∷ s)) (c == 35) l (λ e. omega (arith, e, a))
        (cut_cr-comment c s))
    ∙ if-elim (λ o. deliver calls (choose (scan_line fuel) f false (c == 35) (cut_cr (c ∷ s))) ≡ o)
        (c == 35)
        (λ t.
          ap (λ b. deliver calls (choose (scan_line fuel) f false b (cut_cr (c ∷ s)))) t
          ∙ scan-moved calls fuel (length (cut_cr (c ∷ s))) (next_reader f) q (omega (arith, k))
              (cut_cr-length c s t))
        (λ t.
          ap (λ b. deliver calls (choose (scan_line fuel) f false b (cut_cr (c ∷ s)))) t
          ∙ ap (more (cut_cr (c ∷ s))) (read-nothing calls (next_reader f) q d h))

-- The last round on a text, without a line feed.
pub scan-last :
    (last : Str) (fuel calls line_size : ℕ) (r : Reader) (c u : Str)
    → HasLeft line_size r last c u
    → strchr last 10 ≡ none
    → (r.fd ≢ none → length last + 2 ≤ r.size)
    → 1 ≤ calls
    → length last ≤ fuel
    → deliver calls (scan_line (suc fuel) line_size r) ≡ shown [] last
unfolding scan_line
scan-last last fuel calls line_size r c u v n small h k =
    let found = find-last line_size r last c u v n small in
    ap (λ o. deliver calls (use_line (scan_line fuel) o)) (found.finds)
    ∙ use-last last fuel calls (found.f) (found.line) (found.all_left) (found.closed)
        (found.last_null) h k
