-- ===== src/FileBuffer/Scanning.antt =====
-- The lines that the calls of `readFileBuffer` of src/util.c return.
use opl_future_beta.Base.{
  ℕ, zero, suc, ◌+◌, ◌≤◌, ◌≡◌, ◌≢◌, ◌∙◌, ap, refl, subst, Bool, true, false, List, [], ◌∷◌, ◌++◌,
  none, ◌==◌, inl, inr, if◌then◌else◌, length, length-append, append-nil, append_assoc, arith,
}
use opl_future_beta.Text.{Str, strchr, first_char, unlines}
use opl_future_beta.FileBuffer.{
  Reader, Calls, line_read, cut_cr, use_line, scan_line, left, more, read_all, open_reader,
  open_memory, skip_bom,
}
use opl_future_beta.FileBuffer.Reading.{HasLeft}
use opl_future_beta.FileBuffer.Finding.{find-next}
use opl_future_beta.FileBuffer.Rounds.{
  shown, deliver, read_all-deliver, Short, Short-next, HasLeft-left, next_reader, use-more,
  scan-last,
}

read-deliver :
    (calls : ℕ) (r : Reader) (out : Calls)
    → ((c : ℕ) → calls ≡ suc c → deliver c (scan_line (suc (left r)) 0 r) ≡ out)
    → 1 ≤ calls
    → read_all calls r ≡ out
read-deliver zero r out f h = absurd (omega (arith, h))
read-deliver (suc calls) r out f h = read_all-deliver calls r ∙ f calls refl

scan-shown :
    (lines : List Str) (last : Str) (fuel calls line_size : ℕ) (r : Reader) (c u : Str)
    → HasLeft line_size r (unlines lines ++ last) c u
    → Short r lines
    → strchr last 10 ≡ none
    → (r.fd ≢ none → length last + 2 ≤ r.size)
    → length lines + 1 ≤ calls
    → length (unlines lines ++ last) + 1 ≤ fuel
    → deliver calls (scan_line fuel line_size r) ≡ shown lines last
unfolding scan_line
scan-shown lines last zero calls line_size r c u v s n small h k = absurd (omega (arith, k))
scan-shown [] last (suc fuel) calls line_size r c u v s n small h k =
    scan-last last fuel calls line_size r c u v n small (omega (arith, h)) (omega (arith, k))
scan-shown (line ∷ lines) last (suc fuel) calls line_size r c u v (e, f, s) n small h k =
    let v' =
      subst (λ t. HasLeft line_size r t c u) (append_assoc line (10 ∷ unlines lines) last) v in
    let found = find-next line_size r c u line (unlines lines ++ last) v' e f in
    let next = next_reader (found.f) in
    let short = Short-next r next lines (found.fits) s in
    let room = found.fits (length last + 2) small in
    ap (λ o. deliver calls (use_line (scan_line fuel) o)) (found.finds)
    ∙ ap (deliver calls) (
        use-more (scan_line fuel) (found.f) (cut_cr line) (first_char (cut_cr line) == 35)
          (found.line) (found.some_left) refl)
    ∙ by (first_char (cut_cr line) == 35) next
        (scan-shown lines last fuel calls (length (cut_cr line)) next (found.c) (found.u)
          (found.next (length (cut_cr line))) short n room (omega (arith, h)) enough)
        (read-deliver calls next (shown lines last)
          (λ calls' q.
            scan-shown lines last (suc (left next)) calls' 0 next (found.c) (found.u) (found.next 0)
              short n room (omega (arith, h, q))
              (omega (
                arith,
                HasLeft-left 0 next (unlines lines ++ last) (found.c) (found.u) (found.next 0),
              )))
          (omega (arith, h)))
  where
    enough : length (unlines lines ++ last) + 1 ≤ fuel
    enough = omega (
      arith,
      k,
      length-append {0} line (10 ∷ unlines lines),
      length-append {0} (unlines lines) last,
      length-append {0} (line ++ 10 ∷ unlines lines) last,
    )

    by :
        (b : Bool) (next : Reader)
        → deliver calls (scan_line fuel (length (cut_cr line)) next) ≡ shown lines last
        → read_all calls next ≡ shown lines last
        → deliver calls
            (if b then scan_line fuel (length (cut_cr line)) next else line_read (cut_cr line) next)
          ≡ (if b then shown lines last else more (cut_cr line) (shown lines last))
    by true next p q = p
    by false next p q = ap (more (cut_cr line)) q

-- A reader that has the lines left, as the calls return them.
read_all-shown :
    (lines : List Str) (last : Str) (calls : ℕ) (r : Reader) (c u : Str)
    → HasLeft 0 r (unlines lines ++ last) c u
    → Short r lines
    → strchr last 10 ≡ none
    → (r.fd ≢ none → length last + 2 ≤ r.size)
    → length lines + 2 ≤ calls
    → read_all calls r ≡ shown lines last
read_all-shown lines last calls r c u v s n small h =
    read-deliver calls r (shown lines last)
      (λ calls' q.
        scan-shown lines last (suc (left r)) calls' 0 r c u v s n small (omega (arith, h, q))
          (omega (arith, HasLeft-left 0 r (unlines lines ++ last) c u v)))
      (omega (arith, h))

abbrev pub NoLf : List Str → Type 0
NoLf [] = Unit {0}
NoLf (line ∷ lines) = (strchr line 10 ≡ none) × NoLf lines

abbrev pub InSize : (size : ℕ) → List Str → Type 0
InSize size [] = Unit {0}
InSize size (line ∷ lines) = (length line + 2 ≤ size) × InSize size lines

Short-size :
    (r : Reader) (lines : List Str)
    → NoLf lines
    → (r.fd ≢ none → InSize (r.size) lines)
    → Short r lines
Short-size r [] n h = tt
Short-size r (line ∷ lines) (e, n) h = (e, (λ q. (h q).0), Short-size r lines n (λ q. (h q).1))

pub read_all-file :
    (size : ℕ) (file : Str) (lines : List Str) (last : Str) (calls : ℕ)
    → skip_bom file ≡ unlines lines ++ last
    → NoLf lines
    → strchr last 10 ≡ none
    → InSize size lines
    → length last + 2 ≤ size
    → length lines + 2 ≤ calls
    → read_all calls (open_reader size file) ≡ shown lines last
unfolding open_reader
read_all-file size file lines last calls e n m h k c =
    read_all-shown lines last calls (open_reader size file) [] (skip_bom file)
      (record { last_at = inl (refl, refl, refl); fd_at = inr (refl, omega (arith, k)); joins = e })
      (Short-size (open_reader size file) lines n (λ _. h)) m (λ _. k) c

-- The calls of `readFileBuffer` on a text in memory return the same, for lines of any length.
pub read_all-memory :
    (lines : List Str) (last : Str) (calls : ℕ)
    → NoLf lines
    → strchr last 10 ≡ none
    → length lines + 2 ≤ calls
    → read_all calls (open_memory (unlines lines ++ last)) ≡ shown lines last
unfolding open_memory
read_all-memory lines last calls n m c =
    let r = open_memory (unlines lines ++ last) in
    read_all-shown lines last calls r (unlines lines ++ last) []
      (record {
        last_at = inr (0, refl, omega arith);
        fd_at = inl (refl, refl);
        joins = append-nil (unlines lines ++ last);
      })
      (Short-size r lines n (λ q. absurd (q refl))) m (λ q. absurd (q refl)) c
