-- ===== src/DiscSearch/Stall.antt =====
-- An entry that the loop of `cdvdman_locatefile` in modules/iopcore/cdvdman/searchfile.c does not get over.
use opl_future_beta.Base.{
  ℕ, zero, suc, ◌+◌, ◌%◌, ◌^◌, ◌-◌, ◌<◌, ◌≡◌, ◌∙◌, ap, refl, Bool, true, false, Option, some, List,
  [], ◌∷◌, ltb, ◌==◌, length, arith,
}
use opl_future_beta.Text.{Str}
use opl_future_beta.DiscSearch.Toc.{
  Result, running, or_next, and_then, Memory, Disc, load, DirTocEntry, toc_entry, stops, at_entry,
  scan_sector, scan_toc,
}
use opl_future_beta.DiscSearch.Locate.{
  skip, first_part, has_slash, as_toc_length, enter, at_part, cdvdman_locatefile,
}
use opl_future_beta.DiscSearch.Directory.{IsEntry, next_entry}

-- A sector where an entry without a name stands behind some entries that are not the one looked for.
abbrev pub HoldsNameless :
    (dirname : Str) (has_slash : Bool) → Memory → ℕ → List DirTocEntry → Type 0
HoldsNameless dirname slash mem pos [] =
    (0 < (toc_entry mem pos).length) × ((toc_entry mem pos).filename_length ≡ 0)
HoldsNameless dirname slash mem pos (e ∷ es) =
    (toc_entry mem pos ≡ e)
    × IsEntry e
    × (stops dirname slash e ≡ false)
    × (pos + e.length < 2016)
    × HoldsNameless dirname slash mem (pos + e.length) es

module _ (dirname : Str) (slash : Bool) where
  nameless :
      (rest : ℕ → Result DirTocEntry) (pos : ℕ) (e : DirTocEntry)
      → pos < 2016
      → 0 < e.length
      → e.filename_length ≡ 0
      → at_entry dirname slash rest pos e ≡ rest pos
  unfolding at_entry
  nameless rest pos e l a b =
      let n : ((e.length) == 0) ≡ false = ground (arith, a) in
      let m : ((e.filename_length) == 0) ≡ true = ground (arith, b) in
      let k : ltb pos 2016 ≡ true = ground (arith, l) in rw (n, m, k) refl

  scan_sector_runs :
      (es : List DirTocEntry) (fuel pos : ℕ) (mem : Memory)
      → pos < 2016
      → HoldsNameless dirname slash mem pos es
      → scan_sector fuel dirname slash mem pos ≡ running
  unfolding scan_sector
  scan_sector_runs es zero pos mem l h = refl
  scan_sector_runs [] (suc fuel) pos mem l (a, b) =
      nameless (λ p. scan_sector fuel dirname slash mem p) pos (toc_entry mem pos) l a b
      ∙ scan_sector_runs [] fuel pos mem l (a, b)
  scan_sector_runs (e ∷ es) (suc fuel) pos mem l (q, i, n, w, h) =
      ap (at_entry dirname slash (λ p. scan_sector fuel dirname slash mem p) pos) q
      ∙ next_entry dirname slash (λ p. scan_sector fuel dirname slash mem p) pos e i w
      ∙ rw n (scan_sector_runs es fuel (pos + e.length) mem w h)

  scan_toc_runs :
      (es : List DirTocEntry) (fuel : ℕ) (disc : Disc) (mem sector : Memory) (lba len : ℕ)
      → 0 < len
      → disc lba ≡ some sector
      → HoldsNameless dirname slash (load sector mem) 0 es
      → scan_toc fuel dirname slash disc mem lba len ≡ running
  unfolding scan_toc
  scan_toc_runs es zero disc mem sector lba len p q h = refl
  scan_toc_runs es (suc fuel) disc mem sector lba len p q h =
      let k : (len == 0) ≡ false = ground (arith, p) in
      rw (k, q)
        (ap
          (λ r. or_next r (scan_toc fuel dirname slash disc mem ((lba + 1) % 2 ^ 32) (len - 2048)))
          (scan_sector_runs es fuel 0 (load sector mem) (omega arith) h))

-- Where the first sector of a directory has an entry of no name whose length is not 0, and the entries in
-- front of it do not end the search for a part of at most 31 bytes, the search never ends: it has no result on
-- any fuel.
pub cdvdman_locatefile_stalls :
    (es : List DirTocEntry) (fuel : ℕ) (disc : Disc) (mem sector : Memory) (start : ℕ) (name : Str)
    (lba len : ℕ)
    → let s = first_part (skip 92 (skip 47 name)) in
      length (s.0) < 32
      → 0 < len
      → disc lba ≡ some sector
      → HoldsNameless (s.0) (has_slash (s.1)) (load sector mem) 0 es
      → cdvdman_locatefile fuel disc mem start name lba len ≡ running
unfolding cdvdman_locatefile
cdvdman_locatefile_stalls es zero disc mem sector start name lba len l p q h = refl
cdvdman_locatefile_stalls es (suc fuel) disc mem sector start name lba len l p q h =
    in_part (first_part (skip 92 (skip 47 name))) l h
  where
    locate : Str → DirTocEntry → Result DirTocEntry
    locate rest e =
        cdvdman_locatefile fuel disc mem start rest ((e.file_lba + start) % 2 ^ 32)
          (as_toc_length (e.file_size))

    in_part :
        (s : Str × Option Str)
        → length (s.0) < 32
        → HoldsNameless (s.0) (has_slash (s.1)) (load sector mem) 0 es
        → at_part (λ dirname slash. scan_toc fuel dirname slash disc mem lba len) locate s ≡ running
    in_part (a, r) m w =
        let k : ltb 31 (length a) ≡ false = ground (arith, m) in
        rw k (
          ap (λ x. and_then x (enter r locate))
            (scan_toc_runs a (has_slash r) es fuel disc mem sector lba len p q w))
