-- ===== src/DiscSearch/Walk.antt =====
-- The walk along a path in modules/iopcore/cdvdman/searchfile.c, by the entries of each directory of an image.
use opl_future_beta.Base.{
  ℕ, zero, suc, ◌+◌, ◌%◌, ◌^◌, ◌≤◌, ◌<◌, ◌≡◌, ◌≢◌, ◌∙◌, ap, ap₂, refl, sym, Bool, true, false, not,
  ◌&&◌, ◌||◌, Option, none, some, List, [], ◌∷◌, ◌++◌, ltb, ◌==◌, bit_and, if-elim, length, take,
  take_all, take-append, Each, arith, subst, append-nil,
}
use opl_future_beta.Text.{Str, strchr, strchr-append, drop-append, str_eq}
use opl_future_beta.DiscSearch.Toc.{
  Result, running, fault, missing, got, or_next, and_then, Memory, Disc, DirTocEntry, scan_toc,
}
use opl_future_beta.DiscSearch.Locate.{
  skip, first_part, has_slash, as_toc_length, enter, at_part, cdvdman_locatefile,
}
use opl_future_beta.DiscSearch.Directory.{
  HoldsToc, find_named, named_toc, is_named, IsWhole, find_toc-named, scan_toc-find_toc,
}

-- The entries of a directory by its first sector and its length.
abbrev pub Contents : Type 0
Contents = (toc_lba toc_length : ℕ) → List (List DirTocEntry)

abbrev pub is_directory : DirTocEntry → Bool
is_directory e = not (bit_and (e.file_properties) 2 == 0)

abbrev pub dir_lba : (layer1_start : ℕ) → DirTocEntry → ℕ
dir_lba start e = (e.file_lba + start) % 2 ^ 32

-- The entry of a file by the names of the directories above it.
abbrev pub walk :
    Contents
    → (layer1_start : ℕ) (dirs : List Str) (file : Str) (toc_lba toc_length : ℕ)
    → Result DirTocEntry
walk contents start [] file lba len = named_toc file false (contents lba len)
walk contents start (d ∷ ds) file lba len =
    and_then (named_toc d true (contents lba len))
      (λ e. walk contents start ds file (dir_lba start e) (as_toc_length (e.file_size)))

-- An image: what is a directory is held by its sectors, and an entry of it with the directory flag is one as well.
pub record IsImage (disc : Disc) (mem : Memory) (start : ℕ) (contents : Contents)
    (IsDir : ℕ → ℕ → Type 0) : Type 0 where
  pub holds :
      (lba len : ℕ) → IsDir lba len → (len < 2 ^ 31) × HoldsToc disc mem lba len (contents lba len)
  pub nested :
      (lba len : ℕ)
      → IsDir lba len
      → Each
          (λ es.
            Each
              (λ (e : DirTocEntry).
                is_directory e ≡ true → IsDir (dir_lba start e) (as_toc_length (e.file_size)))
              es)
          (contents lba len)

-- A part of a path: 1 to 31 bytes without a slash of either kind.
abbrev pub IsPart : Str → Type 0
IsPart s = (0 < length s) × (length s < 32) × (strchr s 47 ≡ none) × (strchr s 92 ≡ none)

-- The parts of a path, with backslashes between them.
abbrev pub path_of : (dirs : List Str) (file : Str) → Str
path_of [] file = file
path_of (d ∷ ds) file = d ++ 92 ∷ path_of ds file

strchr-absent :
    (a b : Str) (c x : ℕ)
    → x ≢ c
    → strchr a c ≡ none
    → strchr b c ≡ none
    → strchr (a ++ x ∷ b) c ≡ none
unfolding strchr
strchr-absent [] b c x n p q = ground (arith, n, q)
strchr-absent (y ∷ ys) b c x n p q = ground (arith, p, strchr-absent ys b c x n)

path_of-strchr :
    (ds : List Str) (file : Str) → Each IsPart ds → IsPart file → strchr (path_of ds file) 47 ≡ none
path_of-strchr [] file h (_, _, p, _) = p
path_of-strchr (d ∷ ds) file (h, hs) i =
    strchr-absent d (path_of ds file) 47 92 (omega arith) (without_slash h)
      (path_of-strchr ds file hs i)
  where
    without_slash : IsPart d → strchr d 47 ≡ none
    without_slash (_, _, p, _) = p

pub skip_part : (a b : Str) (c : ℕ) → 0 < length a → strchr a c ≡ none → skip c (a ++ b) ≡ a ++ b
unfolding strchr
skip_part [] b c l h = absurd (omega (arith, l))
skip_part (x ∷ xs) b c l h = ground (arith, h)

skip_both : (a b : Str) → IsPart a → skip 92 (skip 47 (a ++ b)) ≡ a ++ b
skip_both a b (l, _, p, q) = ap (skip 92) (skip_part a b 47 l p) ∙ skip_part a b 92 l q

first_part-dir :
    (d p : Str) → IsPart d → strchr p 47 ≡ none → first_part (d ++ 92 ∷ p) ≡ (d, some p)
first_part-dir d p (_, _, a, b) h =
    let absent : strchr (d ++ 92 ∷ p) 47 ≡ none = strchr-absent d p 47 92 (omega arith) a h in
    let at : strchr (d ++ 92 ∷ p) 92 ≡ some (length d) = strchr-append d p 92 b in
    let front : take (length d) (d ++ 92 ∷ p) ≡ d =
      take-append (length d) d (92 ∷ p) (omega arith) ∙ take_all (length d) d (omega arith) in
    rw (absent, at) (ap₂ part front (drop-append d p 92))
  where
    part : Str → Str → Str × Option Str
    part a b = (a, some b)

first_part-file : (s : Str) → IsPart s → first_part s ≡ (s, none)
first_part-file s (_, _, p, q) = rw (p, q) refl

found_in :
    (P : DirTocEntry → Type 0) (d : Str) (es : List DirTocEntry) (e : DirTocEntry)
    → Each (λ (x : DirTocEntry). is_directory x ≡ true → P x) es
    → find_named d true es ≡ got e
    → P e
found_in P d [] e h q = cc
found_in P d (x ∷ es) e (h, hs) q =
    if-elim (λ (r : Result DirTocEntry). r ≡ got e → P e) (is_named d true x)
      (λ t k. subst P (got_inj k) (h (flag_set (str_eq d (x.filename)) (is_directory x) t)))
      (λ t k. found_in P d es e hs k) q
  where
    got_inj : {x y : DirTocEntry} → got x ≡ got y → x ≡ y
    got_inj k = cc

    flag_set : (a b : Bool) → (a && (false || b)) ≡ true → b ≡ true
    flag_set a b t = ground arith

found_in_toc :
    (P : DirTocEntry → Type 0) (d : Str) (ess : List (List DirTocEntry)) (e : DirTocEntry)
    → Each (λ es. Each (λ (x : DirTocEntry). is_directory x ≡ true → P x) es) ess
    → named_toc d true ess ≡ got e
    → P e
found_in_toc P d [] e h q = cc
found_in_toc P d (es ∷ ess) e (h, hs) q =
    split_on (find_named d true es) (found_in P d es e h) (found_in_toc P d ess e hs) q
  where
    split_on :
        (r : Result DirTocEntry)
        → (r ≡ got e → P e)
        → (named_toc d true ess ≡ got e → P e)
        → or_next r (named_toc d true ess) ≡ got e
        → P e
    split_on running f g k = cc
    split_on fault f g k = cc
    split_on missing f g k = g k
    split_on (got x) f g k = f k

pub and_then_cong :
    {A B : Type 0} (r r' : Result A) (f g : A → Result B)
    → r ≡ r'
    → ((a : A) → r' ≡ got a → f a ≡ g a)
    → and_then r f ≡ and_then r' g
and_then_cong {A = A} {B = B} r r' f g q h = ap (λ x. and_then x f) q ∙ by_result r' h
  where
    by_result : (x : Result A) → ((a : A) → x ≡ got a → f a ≡ g a) → and_then x f ≡ and_then x g
    by_result running k = refl
    by_result fault k = refl
    by_result missing k = refl
    by_result (got a) k = k a refl

and_then-got : {A : Type 0} {r r' : Result A} → r ≡ r' → and_then r (λ a. got a) ≡ r'
and_then-got {A = A} {r' = r'} q = ap (λ x. and_then x (λ a. got a)) q ∙ kept r'
  where
    kept : (x : Result A) → and_then x (λ a. got a) ≡ x
    kept running = refl
    kept fault = refl
    kept missing = refl
    kept (got a) = refl

at_part_short :
    (search : Str → Bool → Result DirTocEntry) (locate : Str → DirTocEntry → Result DirTocEntry)
    (s : Str) (rest : Option Str)
    → IsPart s
    → at_part search locate (s, rest) ≡ and_then (search s (has_slash rest)) (enter rest locate)
at_part_short search locate s rest (_, h, _, _) =
    let k : ltb 31 (length s) ≡ false = ground (arith, h) in rw k refl

part_of_file : (s : Str) → IsPart s → first_part (skip 92 (skip 47 s)) ≡ (s, none)
part_of_file s i =
    ap (λ x. first_part (skip 92 (skip 47 x))) (sym (append-nil s))
    ∙ ap first_part (skip_both s [] i ∙ append-nil s)
    ∙ first_part-file s i

-- No entry of a directory differs from a part of a path only behind its first 12 bytes.
abbrev pub AreWhole : Contents → (IsDir : ℕ → ℕ → Type 0) → Str → Type 0
AreWhole contents IsDir part =
    (lba len : ℕ) → IsDir lba len → Each (Each (IsWhole part)) (contents lba len)

module _ (disc : Disc) (mem : Memory) (start : ℕ) (contents : Contents) (IsDir : ℕ → ℕ → Type 0)
    (image : IsImage disc mem start contents IsDir) where
  abbrev locate_in : (fuel : ℕ) → Str → DirTocEntry → Result DirTocEntry
  locate_in fuel rest e =
      cdvdman_locatefile fuel disc mem start rest (dir_lba start e) (as_toc_length (e.file_size))

  scan_dir :
      (fuel lba len : ℕ) (name : Str) (slash : Bool)
      → IsDir lba len
      → AreWhole contents IsDir name
      → 2 ^ 20 + 2018 ≤ fuel
      → scan_toc fuel name slash disc mem lba len ≡ named_toc name slash (contents lba len)
  scan_dir fuel lba len name slash d x f =
      let h = image.holds lba len d in
      scan_toc-find_toc name slash (contents lba len) disc mem fuel lba len (omega (arith, f, h.0))
        (h.1)
      ∙ find_toc-named name slash (contents lba len) (x lba len d)

  -- On an image, the search for a path gives the entry that the directories name, and NULL where a part
  -- of the path is in none of them, if no entry differs from a part only behind the first 12 bytes. The
  -- fuel covers 2^20 sectors of a directory, 2017 rounds in each, and the parts of the path.
  pub cdvdman_locatefile-walk :
      (dirs : List Str) (file : Str) (fuel lba len : ℕ)
      → IsDir lba len
      → Each IsPart dirs
      → IsPart file
      → Each (AreWhole contents IsDir) dirs × AreWhole contents IsDir file
      → 2 ^ 20 + 2019 + length dirs ≤ fuel
      → cdvdman_locatefile fuel disc mem start (path_of dirs file) lba len
        ≡ walk contents start dirs file lba len
  unfolding cdvdman_locatefile
  cdvdman_locatefile-walk dirs file zero lba len d h i x f = absurd (omega (arith, f))
  cdvdman_locatefile-walk [] file (suc fuel) lba len d h i (_, x) f =
      ap
        (at_part (λ n slash. scan_toc fuel n slash disc mem lba len)
          (λ rest e. locate_in fuel rest e))
        (part_of_file file i)
      ∙ at_part_short (λ n slash. scan_toc fuel n slash disc mem lba len)
          (λ rest e. locate_in fuel rest e) file none i
      ∙ and_then-got (scan_dir fuel lba len file false d x (omega (arith, f)))
  cdvdman_locatefile-walk (a ∷ ds) file (suc fuel) lba len d (h, hs) i ((x, xs), y) f =
      ap
        (at_part (λ n slash. scan_toc fuel n slash disc mem lba len)
          (λ rest e. locate_in fuel rest e))
        (ap first_part (skip_both a (92 ∷ path_of ds file) h)
          ∙ first_part-dir a (path_of ds file) h (path_of-strchr ds file hs i))
      ∙ at_part_short (λ n slash. scan_toc fuel n slash disc mem lba len)
          (λ rest e. locate_in fuel rest e) a (some (path_of ds file)) h
      ∙ and_then_cong (scan_toc fuel a true disc mem lba len) (named_toc a true (contents lba len))
          (locate_in fuel (path_of ds file))
          (λ e. walk contents start ds file (dir_lba start e) (as_toc_length (e.file_size)))
          (scan_dir fuel lba len a true d x (omega (arith, f)))
          (λ e q.
            cdvdman_locatefile-walk ds file fuel (dir_lba start e) (as_toc_length (e.file_size))
              (found_in_toc (λ x. IsDir (dir_lba start x) (as_toc_length (x.file_size))) a
                (contents lba len) e (image.nested lba len d) q)
              hs i (xs, y) (omega (arith, f)))
