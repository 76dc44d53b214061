-- ===== src/DiscSearch/Locate.antt =====
-- `cdvdman_locatefile` of modules/iopcore/cdvdman/searchfile.c, which walks along a path.
use opl_future_beta.Base.{
  ℕ, zero, suc, ◌+◌, ◌%◌, ◌^◌, Bool, true, false, Option, none, some, [], ◌∷◌, ltb, ◌==◌,
  if◌then◌else◌, length, take, drop,
}
use opl_future_beta.Text.{Str, strchr}
use opl_future_beta.DiscSearch.Toc.{
  Result, running, fault, got, and_then, Memory, Disc, DirTocEntry, scan_toc,
}

-- `while (*p == c) p++;`
abbrev pub skip : (c : ℕ) → Str → Str
skip c [] = []
skip c (a ∷ as') = let rest = skip c as' in if a == c then rest else a ∷ as'

-- The part of a path up to an offset, and what stands behind the slash there.
abbrev pub cut_at : Str → Option ℕ → Str × Option Str
cut_at p none = (p, none)
cut_at p (some i) = (take i p, some (drop (i + 1) p))

-- `cdvdman_dirname`, and `&slash[1]` where there is a slash.
abbrev pub first_part : Str → Str × Option Str
first_part p = cut_at p (elim (strchr p 47) [ none ↦ strchr p 92 | some i ↦ some i ])

abbrev pub has_slash : Option Str → Bool
has_slash none = false
has_slash (some rest) = true

-- `tocLength = tocEntryPointer->fileSize`: from 2^31 on the int is negative, and no sector is read.
abbrev pub as_toc_length : ℕ → ℕ
as_toc_length n = if ltb n (2 ^ 31) then n else 0

-- What is done with an entry that ends the loops.
abbrev pub enter :
    Option Str → (Str → DirTocEntry → Result DirTocEntry) → DirTocEntry → Result DirTocEntry
enter none locate e = got e
enter (some rest) locate e = locate rest e

-- The search for a part of a path in a directory. A part of 32 bytes does not fit `cdvdman_dirname`.
abbrev pub at_part :
    (search : Str → Bool → Result DirTocEntry) (locate : Str → DirTocEntry → Result DirTocEntry)
    → Str × Option Str
    → Result DirTocEntry
at_part search locate s =
    if ltb 31 (length (s.0))
    then fault
    else and_then (search (s.0) (has_slash (s.1))) (enter (s.1) locate)

-- `layer1_start` is what is added to the sector of a directory: 0 on layer 0 and for `IOPCORE_COMPAT_EMU_DVDDL`.
unfoldable pub cdvdman_locatefile :
    (fuel : ℕ)
    → Disc
    → Memory
    → (layer1_start : ℕ) → (name : Str) → (toc_lba toc_length : ℕ) → Result DirTocEntry
cdvdman_locatefile zero disc mem start p lba len = running
cdvdman_locatefile (suc fuel) disc mem start p lba len =
    at_part (λ dirname slash. scan_toc fuel dirname slash disc mem lba len)
      (λ rest e.
        cdvdman_locatefile fuel disc mem start rest ((e.file_lba + start) % 2 ^ 32)
          (as_toc_length (e.file_size)))
      (first_part (skip 92 (skip 47 p)))
