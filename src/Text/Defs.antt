-- ===== src/Text/Defs.antt =====
use opl_future_beta.Base.{
  ◌++◌, ℕ, suc, ◌+◌, ◌-◌, Bool, true, false, ◌&&◌, List, [], ◌∷◌, Option, none, some, leb, ◌==◌,
  ◌%◌, if◌then◌else◌, take,
}

-- A string, as its bytes.
abbrev pub Str : Type 0
Str = List ℕ

abbrev pub str_eq : Str → Str → Bool
str_eq [] [] = true
str_eq [] (b ∷ bs) = false
str_eq (a ∷ as') [] = false
str_eq (a ∷ as') (b ∷ bs) = a == b && str_eq as' bs

-- `strncmp(a, b, n) == 0`
unfoldable pub strncmp_eq : ℕ → Str → Str → Bool
strncmp_eq n a b = str_eq (take n a) (take n b)

-- `strncpy(dst, src, n)` followed by `dst[n - 1] = '\0'`.
unfoldable pub copy_terminated : ℕ → Str → Str
copy_terminated n s = take (n - 1) s

-- `strchr(s, c)` as an offset.
unfoldable pub strchr : Str → ℕ → Option ℕ
strchr [] c = none
strchr (a ∷ as') c =
    if a == c then some 0 else elim (strchr as' c) [ none ↦ none | some i ↦ some (suc i) ]

-- `s[0]`, with the NUL of an empty string.
abbrev pub first_char : Str → ℕ
first_char [] = 0
first_char (a ∷ as') = a

-- `fromHex` of src/util.c; `none` is -1.
unfoldable pub from_hex : ℕ → Option ℕ
from_hex digit =
    if leb 48 digit && leb digit 57
    then some (digit - 48)
    else if leb 65 digit && leb digit 70
    then some (digit - 65 + 10)
    else if leb 97 digit && leb digit 102
    then some (digit - 97 + 10)
    else none

-- `toHex` of src/util.c.
unfoldable pub to_hex : ℕ → ℕ
to_hex digit = if leb 10 (digit % 16) then 55 + digit % 16 else 48 + digit % 16

-- Lines, each with its line feed.
abbrev pub unlines : List Str → Str
unlines [] = []
unlines (line ∷ lines) = line ++ 10 ∷ unlines lines
