-- ===== src/History/BootPath.antt =====
-- The name of a title from its boot path: `GetBootFilename` of src/OSDHistory.c.
use opl_future_beta.Base.{
  ℕ, zero, suc, ◌+◌, ◌-◌, ◌≤◌, ◌≡◌, ◌≢◌, ◌∙◌, ap, ap₂, refl, Bool, true, false, ◌&&◌, [], ◌∷◌, ◌++◌,
  Option, none, some, ltb, ◌==◌, if◌then◌else◌, length, take, drop, length-append, append_assoc,
  take-append, take_all, Each, arith,
}
use opl_future_beta.Text.{Str, drop-append}

-- `\\`, `:` or `/`
abbrev pub is_separator : ℕ → Bool
is_separator c = if c == 92 then true else if c == 58 then true else c == 47

abbrev pub last_or : Option ℕ → (here : Bool) → Option ℕ
last_or (some k) here = some (suc k)
last_or none true = some 0
last_or none false = none

-- The offset of the last separator.
unfoldable pub last_separator : Str → Option ℕ
last_separator [] = none
last_separator (c ∷ s) = last_or (last_separator s) (is_separator c)

abbrev pub char_at : Str → ℕ → ℕ
char_at [] i = 0
char_at (c ∷ s) zero = c
char_at (c ∷ s) (suc i) = char_at s i

-- The length of a path without its version `;1`.
unfoldable pub path_length : Str → ℕ
path_length path =
    let n = length path in
    if ltb 2 n && (char_at path (n - 1) == 49 && char_at path (n - 2) == 59) then n - 2 else n

-- The name behind a separator at an offset in the path from its second character on; the loop does not look at
-- the first one. Without a separator `sizeof` takes the size of a pointer.
abbrev pub name_at : (pointer_size : ℕ) → Str → Option ℕ → Str
name_at pointer_size path none = take (pointer_size - 1) path
name_at pointer_size path (some k) = take (path_length path - (k + 2)) (drop (k + 2) path)

-- `GetBootFilename`
unfoldable pub get_boot_filename : (pointer_size : ℕ) → Str → Str
unfolding last_separator path_length
get_boot_filename pointer_size path = name_at pointer_size path (last_separator (drop 1 path))

abbrev pub NoSeparator : Str → Type 0
NoSeparator file = Each (λ c. is_separator c ≡ false) file

no-separator : (file : Str) → NoSeparator file → last_separator file ≡ none
unfolding last_separator
no-separator [] h = refl
no-separator (c ∷ s) h = ap₂ last_or (no-separator s (h.1)) (h.0)

last_separator-append :
    (dir file : Str) (c : ℕ)
    → is_separator c ≡ true
    → NoSeparator file
    → last_separator (dir ++ c ∷ file) ≡ some (length dir)
unfolding last_separator
last_separator-append [] file c s h = ap₂ last_or (no-separator file h) s
last_separator-append (d ∷ dir) file c s h =
    ap (λ o. last_or o (is_separator d)) (last_separator-append dir file c s h)

char_at-append : (xs ys : Str) (n i : ℕ) → n ≡ length xs + i → char_at (xs ++ ys) n ≡ char_at ys i
char_at-append [] ys n i e = let q : n ≡ i = omega (arith, e) in ap (char_at ys) q
char_at-append (x ∷ xs) ys zero i e = absurd (omega (arith, e))
char_at-append (x ∷ xs) ys (suc n) i e = char_at-append xs ys n i (omega (arith, e))

abbrev pub version : Str
version = 59 ∷ 49 ∷ []

path_length-version : (path : Str) → path ≢ [] → path_length (path ++ version) ≡ length path
unfolding path_length
path_length-version path ne =
    let len = length-append {0} path version in
    let one = char_at-append path version (length (path ++ version) - 1) 1 (omega (arith, len)) in
    let two = char_at-append path version (length (path ++ version) - 2) 0 (omega (arith, len)) in
    let long : ltb 2 (length (path ++ version)) ≡ true = ground (arith, len, nonempty path ne) in
    ap
      (λ b.
        if b
          && (char_at (path ++ version) (length (path ++ version) - 1) == 49
              && char_at (path ++ version) (length (path ++ version) - 2) == 59)
        then length (path ++ version) - 2
        else length (path ++ version))
      long
    ∙ ap
        (λ c.
          if c == 49 && char_at (path ++ version) (length (path ++ version) - 2) == 59
          then length (path ++ version) - 2
          else length (path ++ version))
        one
    ∙ ap (λ c. if c == 59 then length (path ++ version) - 2 else length (path ++ version)) two
    ∙ omega (arith, len)
  where
    nonempty : (s : Str) → s ≢ [] → 1 ≤ length s
    nonempty [] h = absurd (h refl)
    nonempty (x ∷ s) h = omega arith

Each-version : (file : Str) → NoSeparator file → NoSeparator (file ++ version)
Each-version [] h = (refl, (refl, tt))
Each-version (x ∷ file) h = (h.0, Each-version file (h.1))

-- The boot path of a title, a folder, a separator, a file name and the version: the file name is found, for every
-- file name without separators and every folder that is not empty.
pub get_boot_filename-version :
    (pointer_size c sep : ℕ) (dir file : Str)
    → is_separator sep ≡ true
    → NoSeparator file
    → get_boot_filename pointer_size (c ∷ (dir ++ sep ∷ file) ++ version) ≡ file
unfolding get_boot_filename
get_boot_filename-version pointer_size c sep dir file s h =
    let path = c ∷ (dir ++ sep ∷ file) in
    let tail = append_assoc dir (sep ∷ file) version in
    let m : length dir + 2 ≡ suc (length dir + 1) = omega arith in
    let n : length path - (length dir + 2) ≡ length file =
      omega (arith, length-append {0} dir (sep ∷ file)) in
    ap (name_at pointer_size (path ++ version)) (
      ap last_separator tail
      ∙ last_separator-append dir (file ++ version) sep s (Each-version file h))
    ∙ ap (λ k. take (k - (length dir + 2)) (drop (length dir + 2) (path ++ version)))
        (path_length-version path (λ e. let k = ap length e in omega (arith, k)))
    ∙ ap₂ take n (
        ap (λ k. drop k (path ++ version)) m
        ∙ ap (drop (length dir + 1)) tail
        ∙ drop-append dir (file ++ version) sep)
    ∙ take-append (length file) file version (omega arith)
    ∙ take_all (length file) file (omega arith)
