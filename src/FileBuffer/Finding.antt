-- ===== src/FileBuffer/Finding.antt =====
-- The line that a round of `readFileBuffer` of src/util.c finds.
use opl_future_beta.Base.{
  ℕ, ◌+◌, ◌-◌, ◌≤◌, ◌≡◌, ◌≢◌, ◌∙◌, ap, refl, sym, subst, Bool, true, false, [], ◌∷◌, ◌++◌, Option,
  none, some, ◌==◌, inl, inr, ◌⊎◌, if◌then◌else◌, length, take, drop, length-append, length-take,
  take_all, append-nil, append_assoc, arith,
}
use opl_future_beta.Text.{Str, strchr, strchr-append, drop-append}
use opl_future_beta.FileBuffer.{
  Reader, Found, shift_lf, refill, find_line, cut_cr, line_text, next_last,
}
use opl_future_beta.FileBuffer.Reading.{
  HasLeft, Cut-at, no_lf-front, no_lf-back, Finds, take-length, find-here, find-refill, take-cut,
  drop-cut, take-drop,
}

-- The buffer after `got` has been read behind `c`.
abbrev filled : Reader → (c got : Str) (fd : Option Str) (lf : Option ℕ) → Found
filled r c got fd lf = record {
  reader = record r { available = length c + length got; fd = fd };
  offset = 0;
  text = c ++ got;
  line_size = length c + length got;
  pos_lf = lf;
}

refill-filled :
    (r : Reader) (c u got : Str) (lf : Option ℕ)
    → take (r.size - length c - 1) u ≡ got
    → strchr got 10 ≡ lf
    → refill r c (length c) (some u)
      ≡ filled r c got
          (if r.size == length c + length got + 1
            then some (drop (r.size - length c - 1) u)
            else none)
          (shift_lf (length c) lf)
unfolding refill
refill-filled r c u got lf e l =
    let n = r.size - length c - 1 in
    ap
      (λ g.
        filled r c g (if r.size == length c + length g + 1 then some (drop n u) else none)
          (shift_lf (length c) (strchr g 10)))
      e
    ∙ ap
        (λ o.
          filled r c got (if r.size == length c + length got + 1 then some (drop n u) else none)
            (shift_lf (length c) o))
        l

module _ (r : Reader) (c p rest : Str) where
  abbrev room : ℕ
  room = r.size - length c - 1

  abbrev space : ℕ
  space = room - length p - 1

  abbrev got : Str
  got = p ++ 10 ∷ take space rest

  abbrev total : ℕ
  total = length c + length got

  -- What the file has left, if the buffer is full.
  filled-HasLeft :
      (b : Bool)
      → (r.size == total + 1) ≡ b
      → length (c ++ p) + 2 ≤ r.size
      → (m : ℕ)
      → HasLeft m
          (record r {
            available = total;
            fd = if b then some (drop room (p ++ 10 ∷ rest)) else none;
            last = some (0 + (length c + length p) + 1, drop (length c + length p + 1) (c ++ got));
          })
          rest
          (take space rest)
          (if b then drop space rest else [])
  filled-HasLeft b e small m = record {
    last_at = inr (
      0 + (length c + length p) + 1,
      ap (λ s. some (0 + (length c + length p) + 1, s)) behind,
      omega (arith, lengths),
    );
    fd_at = file b;
    joins = rejoined b e;
  }
    where
      lengths : length got ≡ length p + (1 + length (take space rest))
      lengths = omega (arith, length-append {0} p (10 ∷ take space rest))

      both : length (c ++ p) ≡ length c + length p
      both = omega (arith, length-append {0} c p)

      behind : drop (length c + length p + 1) (c ++ got) ≡ take space rest
      behind =
          ap (λ k. drop (k + 1) (c ++ got)) (sym both)
          ∙ ap (drop (length (c ++ p) + 1)) (sym (append_assoc c p (10 ∷ take space rest)))
          ∙ drop-append (c ++ p) (take space rest) 10

      file :
          (b : Bool)
          → (((if b then some (drop room (p ++ 10 ∷ rest)) else none) ≡ none)
              × ((if b then drop space rest else []) ≡ []))
            ⊎ (((if b then some (drop room (p ++ 10 ∷ rest)) else none)
                  ≡ some (if b then drop space rest else []))
                × (length (take space rest) + 1 ≤ r.size))
      file true = inr (
        ap some (drop-cut room p rest (omega (arith, small, both))),
        omega (arith, small, both, length-take {0} space rest),
      )
      file false = inl (refl, refl)

      rejoined :
          (b : Bool)
          → (r.size == total + 1) ≡ b
          → take space rest ++ (if b then drop space rest else []) ≡ rest
      rejoined true e = take-drop space rest
      rejoined false e =
          let ne : r.size ≢ total + 1 = ground (arith, e) in
          append-nil (take space rest)
          ∙ take_all space rest
              (omega (arith, ne, lengths, small, both, length-take {0} space rest))

  -- A line whose line feed is read from the file.
  find-filled :
      (line_size : ℕ) (t : Str)
      → HasLeft line_size r t c (p ++ 10 ∷ rest)
      → strchr (c ++ p) 10 ≡ none
      → r.fd ≡ some (p ++ 10 ∷ rest)
      → length (c ++ p) + 2 ≤ r.size
      → Finds line_size r (c ++ p) rest
  find-filled line_size t v none_lf fd small =
      let u = p ++ 10 ∷ rest in
      let len = length-append {0} c p in
      let full = r.size == total + 1 in
      let next_fd : Option Str = if full then some (drop room u) else none in
      record {
        f = filled r c got next_fd (some (length c + length p));
        finds =
            find-refill line_size r t c u v (no_lf-front c p none_lf)
            ∙ ap (λ o. some (refill r c (length c) o)) fd
            ∙ ap some (
                refill-filled r c u got (some (length p))
                  (take-cut room p rest (omega (arith, small, len)))
                  (strchr-append p (take space rest) 10 (no_lf-back c p none_lf)));
        line = ap cut_cr (
            ap (λ k. take k (c ++ got)) (sym len)
            ∙ ap (take (length (c ++ p))) (sym (append_assoc c p (10 ∷ take space rest)))
            ∙ take-length (c ++ p) (10 ∷ take space rest));
        some_left = λ e. omega (arith, e, length-append {0} p (10 ∷ take space rest));
        fits = λ m h q. h (λ z. let k = sym z ∙ fd in cc);
        c = take space rest;
        u = if full then drop space rest else [];
        next = filled-HasLeft full refl small;
      }

-- A round that finds the last line, which has no line feed.
pub record FindsLast (line_size : ℕ) (r : Reader) (t : Str) : Type 0 where
  pub f : Found
  pub finds : find_line r line_size (r.last) ≡ some f
  pub line : line_text f ≡ cut_cr t
  pub all_left : f.reader.available ≡ length t
  pub closed : f.reader.fd ≡ none
  pub last_null : next_last f ≡ none

pub find-last :
    (line_size : ℕ) (r : Reader) (t c u : Str)
    → HasLeft line_size r t c u
    → strchr t 10 ≡ none
    → (r.fd ≢ none → length t + 2 ≤ r.size)
    → FindsLast line_size r t
unfolding refill
find-last line_size r t c u v n small = elim (v.fd_at) [
  | inl (fd, e) ↦
      let ct : c ≡ t = sym (append-nil c) ∙ ap (λ s. c ++ s) (sym e) ∙ v.joins in
      record {
        f = refill r c (length c) none;
        finds =
            find-refill line_size r t c u v (ap (λ s. strchr s 10) ct ∙ n)
            ∙ ap (λ o. some (refill r c (length c) o)) fd;
        line = ap cut_cr (take_all (length c) c (omega arith) ∙ ct);
        all_left = ap length ct;
        closed = fd;
        last_null = refl;
      }
  | inr (fd, h) ↦
      let j = v.joins in
      let len = length-append {0} c u in
      let lt = ap length j in
      let s = small (λ q. let k = sym q ∙ fd in cc) in
      let total = length c + length u in
      let full : (r.size == total + 1) ≡ false = ground (arith, s, len, lt) in
      let whole = ap (λ l. strchr l 10) j ∙ n in
      record {
        f = filled r c u none none;
        finds =
            find-refill line_size r t c u v (no_lf-front c u whole)
            ∙ ap (λ o. some (refill r c (length c) o)) fd
            ∙ ap some (
                refill-filled r c u u none
                  (take_all (r.size - length c - 1) u (omega (arith, s, len, lt)))
                  (no_lf-back c u whole))
            ∙ ap
                (λ b.
                  some
                    (filled r c u (if b then some (drop (r.size - length c - 1) u) else none) none))
                full;
        line = ap cut_cr (
            ap (λ k. take k (c ++ u)) (sym len)
            ∙ take_all (length (c ++ u)) (c ++ u) (omega arith)
            ∙ j);
        all_left = omega (arith, len, lt);
        closed = refl;
        last_null = refl;
      }
]

-- A round on a text that begins with a line.
pub find-next :
    (line_size : ℕ) (r : Reader) (c u piece rest : Str)
    → HasLeft line_size r (piece ++ 10 ∷ rest) c u
    → strchr piece 10 ≡ none
    → (r.fd ≢ none → length piece + 2 ≤ r.size)
    → Finds line_size r piece rest
find-next line_size r c u piece rest v n small = elim (Cut-at c u piece rest n (v.joins)) [
  | inl (c', e, j) ↦ here c' e j (v.last_at)
  | inr (p, e, j) ↦
      let s : strchr (c ++ p) 10 ≡ none = ap (λ l. strchr l 10) e ∙ n in
      subst (λ l. Finds line_size r l rest) e
        (elim (v.fd_at) [
          | inl (fd, q) ↦ absurd (nonempty p (sym j ∙ q))
          | inr (fd, h) ↦
              let k = small (λ q. let k = sym q ∙ fd in cc) in
              find-filled r c p rest line_size (piece ++ 10 ∷ rest)
                (subst (HasLeft line_size r (piece ++ 10 ∷ rest) c) j v) s (fd ∙ ap some j)
                (omega (arith, k, ap length e))
        ])
]
  where
    nonempty : (p : Str) → p ++ 10 ∷ rest ≢ []
    nonempty [] q = cc
    nonempty (x ∷ p) q = cc

    here :
        (c' : Str)
        → c ≡ piece ++ 10 ∷ c'
        → c' ++ u ≡ rest
        → ((r.last ≡ none) × (c ≡ []) × (line_size ≡ 0))
          ⊎ ((offset : ℕ) × (r.last ≡ some (offset, c)) × (r.available ≡ offset + length c))
        → Finds line_size r piece rest
    here c' e j (inl (l, q, z)) = absurd (empty piece (sym e ∙ q))
      where
        empty : (p : Str) → p ++ 10 ∷ c' ≢ []
        empty [] q = cc
        empty (x ∷ p) q = cc
    here c' e j (inr (offset, l, a)) =
        find-here line_size r piece c' u rest offset n (l ∙ ap (λ s. some (offset, s)) e)
          (a ∙ ap (λ s. offset + length s) e)
          (subst (λ s. ((r.fd ≡ none) × (u ≡ [])) ⊎ ((r.fd ≡ some u) × (length s + 1 ≤ r.size))) e
            (v.fd_at))
          j
