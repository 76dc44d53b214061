-- ===== src/DiscSearch/Toc.antt =====
-- The loops of `cdvdman_locatefile` in modules/iopcore/cdvdman/searchfile.c over the sectors of one directory.
use opl_future_beta.Base.{
  ℕ, zero, suc, ◌+◌, ◌-◌, ◌*◌, ◌%◌, ◌^◌, Bool, not, ◌&&◌, ◌||◌, Option, none, some, [], ◌∷◌, ltb,
  leb, ◌==◌, bit_and, if◌then◌else◌,
}
use opl_future_beta.Text.{Str, strncmp_eq}

-- How a search ends: `running` when the fuel runs out, `fault` with an access out of bounds, `missing` with NULL.
pub data Result (A : Type 0) : Type 0 where
  running : Result A
  fault : Result A
  missing : Result A
  got : A → Result A

-- The next loop or step, if the first one finds nothing.
abbrev pub or_next : {A : Type 0} → Result A → Result A → Result A
or_next running r = running
or_next fault r = fault
or_next missing r = r
or_next (got a) r = got a

abbrev pub and_then : {A B : Type 0} → Result A → (A → Result B) → Result B
and_then running f = running
and_then fault f = fault
and_then missing f = missing
and_then (got a) f = f a

-- The memory from `cdvdman_buf` on, byte by byte.
abbrev pub Memory : Type 0
Memory = ℕ → ℕ

-- What `sceCdRead` gives for one sector, none where it returns 0.
abbrev pub Disc : Type 0
Disc = (lsn : ℕ) → Option Memory

-- The buffer once a sector is read into its first 2048 bytes.
abbrev pub load : (sector mem : Memory) → Memory
load sector mem i = if ltb i 2048 then sector i else mem i

-- `struct dirTocEntry`, where `length` has the 16 bits of the `short`, and `filename` is what
-- `strncpy(cdvdman_curdir, tocEntryPointer->filename, filename_len)` copies.
pub record DirTocEntry : Type 0 where
  pub length : ℕ
  pub file_lba : ℕ
  pub file_size : ℕ
  pub file_properties : ℕ
  pub filename_length : ℕ
  pub filename : Str

abbrev pub u16_at : Memory → ℕ → ℕ
u16_at mem i = mem i + 256 * mem (i + 1)

abbrev pub u32_at : Memory → ℕ → ℕ
u32_at mem i = u16_at mem i + 65536 * u16_at mem (i + 2)

abbrev pub copy_name : (filename_len : ℕ) → Memory → ℕ → Str
copy_name zero mem i = []
copy_name (suc n) mem i =
    let rest = copy_name n mem (i + 1) in if mem i == 0 then [] else mem i ∷ rest

unfoldable pub toc_entry : Memory → (toc_pos : ℕ) → DirTocEntry
toc_entry mem pos = record {
  length = u16_at mem pos;
  file_lba = u32_at mem (pos + 2);
  file_size = u32_at mem (pos + 10);
  file_properties = mem (pos + 25);
  filename_length = mem (pos + 32);
  filename = copy_name (mem (pos + 32)) mem (pos + 33);
}

-- `tocPos += (tocEntryPointer->length << 16) >> 16`, none where `tocPos` gets negative.
abbrev pub next_toc_pos : (toc_pos len : ℕ) → Option ℕ
next_toc_pos pos len =
    if ltb len 32768
    then some (pos + len)
    else if leb (65536 - len) pos
    then some (pos - (65536 - len))
    else none

-- Whether an entry ends the loops: any entry of the name for the last part of a path, and a directory of the name for
-- a part in front of a slash.
abbrev pub stops : (dirname : Str) (has_slash : Bool) → DirTocEntry → Bool
stops dirname slash e =
    strncmp_eq 12 dirname e.filename && (not slash || not (bit_and (e.file_properties) 2 == 0))

-- `while (tocPos < 2016)`, with the rest of the loop from a position.
abbrev pub continue_at : (rest : ℕ → Result DirTocEntry) → Option ℕ → Result DirTocEntry
continue_at rest none = fault
continue_at rest (some pos) = if ltb pos 2016 then rest pos else missing

-- The body of the `do` loop on the entry at `tocPos`. A name of more than 14 bytes does not fit `cdvdman_curdir`.
unfoldable pub at_entry :
    (dirname : Str) (has_slash : Bool) (rest : ℕ → Result DirTocEntry) (toc_pos : ℕ)
    → DirTocEntry
    → Result DirTocEntry
at_entry dirname slash rest pos e =
    if e.length == 0
    then missing
    else if e.filename_length == 0
    then continue_at rest (some pos)
    else if ltb 14 (e.filename_length)
    then fault
    else if stops dirname slash e
    then got e
    else continue_at rest (next_toc_pos pos (e.length))

-- The `do` loop over the entries of a sector.
unfoldable pub scan_sector :
    (fuel : ℕ) (dirname : Str) (has_slash : Bool) → Memory → (toc_pos : ℕ) → Result DirTocEntry
scan_sector zero dirname slash mem pos = running
scan_sector (suc fuel) dirname slash mem pos =
    at_entry dirname slash (λ p. scan_sector fuel dirname slash mem p) pos (toc_entry mem pos)

-- The `while` loop over the sectors of a directory.
unfoldable pub scan_toc :
    (fuel : ℕ) (dirname : Str) (has_slash : Bool)
    → Disc
    → Memory
    → (toc_lba toc_length : ℕ) → Result DirTocEntry
scan_toc zero dirname slash disc mem lba len = running
scan_toc (suc fuel) dirname slash disc mem lba len =
    let rest = scan_toc fuel dirname slash disc mem ((lba + 1) % 2 ^ 32) (len - 2048) in
    if len == 0 then missing else elim (disc lba) [
      | none ↦ missing
      | some sector ↦ or_next (scan_sector fuel dirname slash (load sector mem) 0) rest
    ]
