-- ===== src/FileBuffer/Reading.antt =====
-- A round of `readFileBuffer` of src/util.c.
use opl_future_beta.Base.{
  ℕ, zero, suc, ◌+◌, ◌-◌, ◌≤◌, ◌≡◌, ◌≢◌, ◌∙◌, ap, ap₂, refl, sym, true, [], ◌∷◌, ◌++◌, none, some,
  ◌==◌, inl, inr, ◌⊎◌, if◌then◌else◌, length, take, drop, length-append, take-append, take_all,
  arith,
}
use opl_future_beta.Text.{Str, strchr, strchr-append, drop-append}
use opl_future_beta.FileBuffer.{
  Reader, Found, refill, locate, find_line, cut_cr, line_text, next_last,
}

-- The reader has the text `t` left: `c` of it stands in the buffer, and `u` in the file.
pub record HasLeft (line_size : ℕ) (r : Reader) (t c u : Str) : Type 0 where
  pub last_at :
      ((r.last ≡ none) × (c ≡ []) × (line_size ≡ 0))
      ⊎ ((offset : ℕ) × (r.last ≡ some (offset, c)) × (r.available ≡ offset + length c))
  pub fd_at : ((r.fd ≡ none) × (u ≡ [])) ⊎ ((r.fd ≡ some u) × (length c + 1 ≤ r.size))
  pub joins : c ++ u ≡ t

-- A text with its first line feed, cut in two before or behind it.
abbrev pub Cut : (c u piece rest : Str) → Type 0
Cut c u piece rest =
    ((c' : Str) × (c ≡ piece ++ 10 ∷ c') × (c' ++ u ≡ rest))
    ⊎ ((p : Str) × (c ++ p ≡ piece) × (u ≡ p ++ 10 ∷ rest))

pub Cut-at :
    (c u piece rest : Str)
    → strchr piece 10 ≡ none
    → c ++ u ≡ piece ++ 10 ∷ rest
    → Cut c u piece rest
unfolding strchr
Cut-at [] u piece rest n e = inr (piece, refl, e)
Cut-at (x ∷ c) u [] rest n e = inl (c, ap₂ ◌∷◌ (cc) refl, cc)
Cut-at (x ∷ c) u (y ∷ piece) rest n e = elim (Cut-at c u piece rest (ground (arith, n)) cc) [
  | inl (c', a, b) ↦ inl (c', ap₂ ◌∷◌ (cc) a, b)
  | inr (p, a, b) ↦ inr (p, ap₂ ◌∷◌ (cc) a, b)
]

pub no_lf-front : (c p : Str) → strchr (c ++ p) 10 ≡ none → strchr c 10 ≡ none
unfolding strchr
no_lf-front [] p e = refl
no_lf-front (x ∷ c) p e = ground (arith, e, no_lf-front c p)

pub no_lf-back : (c p : Str) → strchr (c ++ p) 10 ≡ none → strchr p 10 ≡ none
unfolding strchr
no_lf-back [] p e = e
no_lf-back (x ∷ c) p e = no_lf-back c p (ground (arith, e))

-- A round that finds a line with its line feed, and has the rest left.
pub record Finds (line_size : ℕ) (r : Reader) (piece rest : Str) : Type 0 where
  pub f : Found
  pub finds : find_line r line_size (r.last) ≡ some f
  pub line : line_text f ≡ cut_cr piece
  pub some_left : f.reader.available ≢ 0
  pub fits : (n : ℕ) → (r.fd ≢ none → n ≤ r.size) → f.reader.fd ≢ none → n ≤ f.reader.size
  pub c : Str
  pub u : Str
  pub next : (n : ℕ) → HasLeft n (record f.reader { last = next_last f }) rest c u

pub take-length : (s t : Str) → take (length s) (s ++ t) ≡ s
take-length s t = take-append (length s) s t (omega arith) ∙ take_all (length s) s (omega arith)

pub find-here :
    (line_size : ℕ) (r : Reader) (piece c u rest : Str) (offset : ℕ)
    → strchr piece 10 ≡ none
    → r.last ≡ some (offset, piece ++ 10 ∷ c)
    → r.available ≡ offset + length (piece ++ 10 ∷ c)
    → ((r.fd ≡ none) × (u ≡ [])) ⊎ ((r.fd ≡ some u) × (length (piece ++ 10 ∷ c) + 1 ≤ r.size))
    → c ++ u ≡ rest
    → Finds line_size r piece rest
unfolding find_line
find-here line_size r piece c u rest offset n l a fd j =
    let text = piece ++ 10 ∷ c in
    let len = length-append {0} piece (10 ∷ c) in
    let f : Found = record {
      reader = r;
      offset = offset;
      text = text;
      line_size = r.available - offset;
      pos_lf = some (length piece);
    } in
    record {
      f = f;
      finds =
          ap (find_line r line_size) l
          ∙ ap (λ o. some (locate r offset text o)) (strchr-append piece c 10 n);
      line = ap cut_cr (take-length piece (10 ∷ c));
      some_left = λ e. omega (arith, e, a, len);
      fits = λ m h. h;
      c = c;
      u = u;
      next = λ m. record {
        last_at = inr (
          offset + length piece + 1,
          ap (λ s. some (offset + length piece + 1, s)) (drop-append piece c 10),
          omega (arith, a, len),
        );
        fd_at = elim fd [ inl e ↦ inl e | inr (e, h) ↦ inr (e, omega (arith, h, len)) ];
        joins = j;
      };
    }

-- A round on a buffer without a line feed refills it.
pub find-refill :
    (line_size : ℕ) (r : Reader) (t c u : Str)
    → HasLeft line_size r t c u
    → strchr c 10 ≡ none
    → find_line r line_size (r.last) ≡ some (refill r c (length c) (r.fd))
unfolding find_line
find-refill line_size r t c u v n = elim (v.last_at) [
  | inl (l, e, z) ↦
      let b : (line_size == 0) ≡ true = ground (arith, z) in
      ap (find_line r line_size) l
      ∙ ap (λ b. if b then some (refill r [] 0 (r.fd)) else none) b
      ∙ ap (λ s. some (refill r s (length s) (r.fd))) (sym e)
  | inr (offset, l, a) ↦
      let k : r.available - offset ≡ length c = omega (arith, a) in
      ap (find_line r line_size) l
      ∙ ap (λ o. some (locate r offset c o)) n
      ∙ ap (λ m. some (refill r (take m c) m (r.fd))) k
      ∙ ap (λ s. some (refill r s (length c) (r.fd))) (take_all (length c) c (omega arith))
]

pub take-cut :
    (n : ℕ) (p rest : Str)
    → length p + 1 ≤ n
    → take n (p ++ 10 ∷ rest) ≡ p ++ 10 ∷ take (n - length p - 1) rest
take-cut zero p rest h = absurd (omega (arith, h))
take-cut (suc n) [] rest h =
    let e : suc n - 0 - 1 ≡ n = omega arith in ap (λ m. 10 ∷ take m rest) (sym e)
take-cut (suc n) (x ∷ p) rest h =
    let e : n - length p - 1 ≡ suc n - suc (length p) - 1 = omega arith in
    ap (λ s. x ∷ s) (take-cut n p rest (omega (arith, h)) ∙ ap (λ m. p ++ 10 ∷ take m rest) e)

pub drop-cut :
    (n : ℕ) (p rest : Str)
    → length p + 1 ≤ n
    → drop n (p ++ 10 ∷ rest) ≡ drop (n - length p - 1) rest
drop-cut zero p rest h = absurd (omega (arith, h))
drop-cut (suc n) [] rest h =
    let e : suc n - 0 - 1 ≡ n = omega arith in ap (λ m. drop m rest) (sym e)
drop-cut (suc n) (x ∷ p) rest h =
    let e : n - length p - 1 ≡ suc n - suc (length p) - 1 = omega arith in
    drop-cut n p rest (omega (arith, h)) ∙ ap (λ m. drop m rest) e

pub take-drop : (n : ℕ) (s : Str) → take n s ++ drop n s ≡ s
take-drop zero s = refl
take-drop (suc n) [] = refl
take-drop (suc n) (x ∷ s) = ap (λ r. x ∷ r) (take-drop n s)
