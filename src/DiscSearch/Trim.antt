-- ===== src/DiscSearch/Trim.antt =====
-- `cdvdman_trimspaces` of modules/iopcore/cdvdman/searchfile.c.
use opl_future_beta.Base.{
  ℕ, zero, suc, ◌≡◌, ◌∙◌, ap, refl, sym, Bool, true, false, ◌||◌, [], ◌∷◌, ◌++◌, append_assoc,
  append-nil, ◌==◌, if◌then◌else◌, if-elim, ◌⊎◌, inl, inr, length, length-append, take, get_or,
  Each, arith,
}
use opl_future_beta.Text.{Str}

abbrev pub is_blank : ℕ → Bool
is_blank c = c == 32 || c == 46

-- The loop, from the index `i - 1` down. A byte that is set to 0 ends the string.
unfoldable pub trim_from : (i : ℕ) → Str → Str
trim_from zero s = s
trim_from (suc i) s =
    let rest = trim_from i (take i s) in if is_blank (get_or s i 0) then rest else s

unfoldable pub cdvdman_trimspaces : Str → Str
cdvdman_trimspaces s = trim_from (length s) s

-- A string whose last byte is neither a space nor a dot.
abbrev pub EndsSolid : Str → Type 0
EndsSolid s = (front : Str) × (c : ℕ) × (s ≡ front ++ c ∷ []) × (is_blank c ≡ false)

-- What is left of a string: all but the spaces and dots at its end.
abbrev pub Trims : Str → Str → Type 0
Trims s r =
    ((blanks : Str) × (s ≡ r ++ blanks) × Each (λ c. is_blank c ≡ true) blanks)
    × ((r ≡ []) ⊎ EndsSolid r)

pub last_byte : (i : ℕ) (s : Str) → length s ≡ suc i → s ≡ take i s ++ get_or s i 0 ∷ []
last_byte zero [] h = absurd (omega (arith, h))
last_byte zero (x ∷ []) h = refl
last_byte zero (x ∷ y ∷ ys) h = absurd (omega (arith, h))
last_byte (suc i) [] h = absurd (omega (arith, h))
last_byte (suc i) (x ∷ xs) h = ap (λ r. x ∷ r) (last_byte i xs (omega (arith, h)))

length-front : (i : ℕ) (s : Str) → length s ≡ suc i → length (take i s) ≡ i
length-front zero s h = refl
length-front (suc i) [] h = absurd (omega (arith, h))
length-front (suc i) (x ∷ xs) h = ap suc (length-front i xs (omega (arith, h)))

Trims-blank : (s t r : Str) (c : ℕ) → s ≡ t ++ c ∷ [] → is_blank c ≡ true → Trims t r → Trims s r
Trims-blank s t r c e b ((bs, q, h), k) =
    ((bs ++ c ∷ [], e ∙ ap (λ x. x ++ c ∷ []) q ∙ append_assoc r bs (c ∷ []), all_blank bs h), k)
  where
    all_blank :
        (xs : Str) → Each (λ x. is_blank x ≡ true) xs → Each (λ x. is_blank x ≡ true) (xs ++ c ∷ [])
    all_blank [] w = (b, tt)
    all_blank (x ∷ xs) (w, ws) = (w, all_blank xs ws)

trim_from-Trims : (i : ℕ) (s : Str) → length s ≡ i → Trims s (trim_from i s)
unfolding trim_from
trim_from-Trims zero [] h = (([], refl, tt), inl refl)
trim_from-Trims zero (x ∷ xs) h = absurd (omega (arith, h))
trim_from-Trims (suc i) s h =
    if-elim (λ (r : Str). Trims s r) (is_blank (get_or s i 0))
      (λ t.
        Trims-blank s (take i s) (trim_from i (take i s)) (get_or s i 0) (last_byte i s h) t
          (trim_from-Trims i (take i s) (length-front i s h)))
      (λ t. (([], sym (append-nil s), tt), inr (take i s, get_or s i 0, last_byte i s h, t)))

-- Only spaces and dots at the end of a name are cut off, and all of them are.
pub cdvdman_trimspaces-Trims : (s : Str) → Trims s (cdvdman_trimspaces s)
unfolding cdvdman_trimspaces
cdvdman_trimspaces-Trims s = trim_from-Trims (length s) s refl

get_or-last : (a : Str) (c d : ℕ) → get_or (a ++ c ∷ []) (length a) d ≡ c
get_or-last [] c d = refl
get_or-last (x ∷ xs) c d = get_or-last xs c d

pub cdvdman_trimspaces_solid : (s : Str) → EndsSolid s → cdvdman_trimspaces s ≡ s
unfolding cdvdman_trimspaces trim_from
cdvdman_trimspaces_solid s (front, c, e, b) = ap cdvdman_trimspaces e ∙ kept ∙ sym e
  where
    kept : cdvdman_trimspaces (front ++ c ∷ []) ≡ front ++ c ∷ []
    kept =
        let n : length (front ++ c ∷ []) ≡ suc (length front) =
          omega (arith, length-append front (c ∷ [])) in
        let k : is_blank (get_or (front ++ c ∷ []) (length front) 0) ≡ false =
          ap is_blank (get_or-last front c 0) ∙ b in
        ap (λ i. trim_from i (front ++ c ∷ [])) n ∙ rw k refl

pub EndsSolid-append : (a b : Str) → EndsSolid b → EndsSolid (a ++ b)
EndsSolid-append a b (front, c, e, k) =
    (a ++ front, c, ap (λ x. a ++ x) e ∙ sym (append_assoc a front (c ∷ [])), k)
