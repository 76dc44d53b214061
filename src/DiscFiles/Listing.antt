-- ===== src/DiscFiles/Listing.antt =====
-- `cdrom_dread` of modules/iopcore/cdvdman/ioops.c, which lists a directory.
use opl_future_beta.Base.{
  ℕ, zero, suc, ◌+◌, ◌-◌, ◌%◌, ◌^◌, ◌<◌, ◌≡◌, ◌∙◌, ap, refl, Bool, true, false, Option, none, some,
  List, [], ◌∷◌, ltb, ◌==◌, bit_and, if◌then◌else◌, length, take, arith,
}
use opl_future_beta.Text.{Str}
use opl_future_beta.DiscSearch.Toc.{Result, running, got, and_then, Memory, DirTocEntry, toc_entry}

-- The fields of `iox_dirent_t` that are set.
pub record Dirent : Type 0 where
  pub mode : ℕ
  pub size : ℕ
  pub name : Str

abbrev pub dirent_of : DirTocEntry → Dirent
dirent_of e = record {
  mode = if bit_and (e.file_properties) 2 == 0 then 8484 else 4461;
  size = e.file_size;
  name = e.filename;
}

-- `fh->position += tocEntryPointer->length`, where the length is a `short`.
abbrev pub moved : (position len : ℕ) → ℕ
moved pos len = (pos + (if ltb len 32768 then len else len + (2 ^ 32 - 2 ^ 16))) % 2 ^ 32

-- The body of the loop on an entry: none at the end of the directory, otherwise the entry and the new position. The
-- entries with a name of one byte, "." and "..", are passed over.
abbrev pub dread_entry :
    (rest : ℕ → Result (Option (DirTocEntry × ℕ))) (position : ℕ)
    → DirTocEntry
    → Result (Option (DirTocEntry × ℕ))
dread_entry rest pos e =
    let next = rest (moved pos (e.length)) in
    if e.length == 0
    then got none
    else if e.filename_length == 1
    then next
    else got (some (e, moved pos (e.length)))

unfoldable pub dread_loop : (fuel : ℕ) → Memory → (position : ℕ) → Result (Option (DirTocEntry × ℕ))
dread_loop zero mem pos = running
dread_loop (suc fuel) mem pos = dread_entry (λ p. dread_loop fuel mem p) pos (toc_entry mem pos)

-- `cdrom_dread`, by what `sceCdRead` reads: where it is refused, 0 is returned, as at the end of the directory, and
-- the position stays.
unfoldable pub cdrom_dread :
    (fuel : ℕ) → Option Memory → (position : ℕ) → Result (Option (DirTocEntry × ℕ))
cdrom_dread fuel none pos = got none
cdrom_dread fuel (some mem) pos = dread_loop fuel mem pos

abbrev pub add_entry :
    (rest : ℕ → Result (List Dirent)) → Option (DirTocEntry × ℕ) → Result (List Dirent)
add_entry rest none = got []
add_entry rest (some (e, pos)) = and_then (rest pos) (λ ds. got (dirent_of e ∷ ds))

-- Calls one after the other until one returns 0, each with what its read gives.
unfoldable pub list_directory :
    (fuel : ℕ) → List (Option Memory) → (position : ℕ) → Result (List Dirent)
list_directory fuel [] pos = got []
list_directory fuel (r ∷ rs) pos =
    and_then (cdrom_dread fuel r pos) (add_entry (λ p. list_directory fuel rs p))

-- The entries of a sector from a position on, up to an entry of length 0.
abbrev pub ListsEntries : Memory → ℕ → List DirTocEntry → Type 0
ListsEntries mem pos [] = (toc_entry mem pos).length ≡ 0
ListsEntries mem pos (e ∷ es) =
    (toc_entry mem pos ≡ e)
    × (0 < e.length)
    × (pos + e.length < 2048)
    × ListsEntries mem (pos + e.length) es

abbrev pub named_entries : List DirTocEntry → List Dirent
named_entries [] = []
named_entries (e ∷ es) =
    let rest = named_entries es in if e.filename_length == 1 then rest else dirent_of e ∷ rest

moved_small : (pos len : ℕ) → pos + len < 2048 → moved pos len ≡ pos + len
moved_small pos len h = ground (arith, h)

module _ (rest : ℕ → Result (Option (DirTocEntry × ℕ))) (pos : ℕ) (e : DirTocEntry) where
  dread_end : e.length ≡ 0 → dread_entry rest pos e ≡ got none
  dread_end h = let n : ((e.length) == 0) ≡ true = ground (arith, h) in rw n refl

  dread_step :
      0 < e.length
      → pos + e.length < 2048
      → dread_entry rest pos e
        ≡ (if e.filename_length == 1 then rest (pos + e.length) else got (some (e, pos + e.length)))
  dread_step l w =
      let n : ((e.length) == 0) ≡ false = ground (arith, l) in
      rw n (
        ap (λ p. if e.filename_length == 1 then rest p else got (some (e, p)))
          (moved_small pos (e.length) w))

-- The reads of a sector that are accepted or refused.
abbrev pub reads_of : Memory → List Bool → List (Option Memory)
reads_of mem [] = []
reads_of mem (b ∷ bs) = (if b then some mem else none) ∷ reads_of mem bs

-- The accepted reads in front of the first one that is refused.
abbrev pub accepted : List Bool → ℕ
accepted [] = 0
accepted (b ∷ bs) = let n = accepted bs in if b then suc n else 0

module _ (mem : Memory) (fuel : ℕ) where
  -- What the calls list from the loop's state on.
  abbrev listed : (more : ℕ) → List (Option Memory) → ℕ → Result (List Dirent)
  listed more rs pos =
      and_then (dread_loop more mem pos) (add_entry (λ p. list_directory fuel rs p))

  -- One call, where the further calls list what is behind each position.
  listed-named :
      (rs : List (Option Memory)) (k : ℕ)
      → ((es : List DirTocEntry) (pos : ℕ)
          → length es < fuel
          → ListsEntries mem pos es
          → list_directory fuel rs pos ≡ got (take k (named_entries es)))
      → (es : List DirTocEntry) (more pos : ℕ) → length es < more
      → length es < fuel
      → ListsEntries mem pos es
      → listed more rs pos ≡ got (take (suc k) (named_entries es))
  unfolding dread_loop
  listed-named rs k rest es zero pos f g h = absurd (omega (arith, f))
  listed-named rs k rest [] (suc more) pos f g h =
      ap (λ r. and_then r (add_entry (λ p. list_directory fuel rs p)))
        (dread_end (λ p. dread_loop more mem p) pos (toc_entry mem pos) h)
  listed-named rs k rest (e ∷ es) (suc more) pos f g (q, l, w, h) =
      ap (λ r. and_then r (add_entry (λ p. list_directory fuel rs p)))
        (ap (dread_entry (λ p. dread_loop more mem p) pos) q
          ∙ dread_step (λ p. dread_loop more mem p) pos e l w)
      ∙ by_name (e.filename_length == 1)
          (listed-named rs k rest es more (pos + e.length) (omega (arith, f)) (omega (arith, g)) h)
          (rest es (pos + e.length) (omega (arith, g)) h)
    where
      by_name :
          (b : Bool)
          → listed more rs (pos + e.length) ≡ got (take (suc k) (named_entries es))
          → list_directory fuel rs (pos + e.length) ≡ got (take k (named_entries es))
          → and_then
              (if b then dread_loop more mem (pos + e.length) else got (some (e, pos + e.length)))
              (add_entry (λ p. list_directory fuel rs p))
            ≡ got (take (suc k) (if b then named_entries es else dirent_of e ∷ named_entries es))
      by_name true x y = x
      by_name false x y = ap (λ r. and_then r (λ ds. got (dirent_of e ∷ ds))) y

-- Reading a directory call by call, where an entry of length 0 ends it in the first 2048 bytes: the calls list its
-- entries in their order, all but those with a name of one byte, one for each read that is accepted, until a read is
-- refused or the directory ends; and each of them ends, with fuel for one more round than there are entries.
pub list_directory-named_entries :
    (mem : Memory) (fuel : ℕ) (bs : List Bool) (es : List DirTocEntry) (pos : ℕ)
    → length es < fuel
    → ListsEntries mem pos es
    → list_directory fuel (reads_of mem bs) pos ≡ got (take (accepted bs) (named_entries es))
unfolding list_directory cdrom_dread
list_directory-named_entries mem fuel [] es pos f h = refl
list_directory-named_entries mem fuel (false ∷ bs) es pos f h = refl
list_directory-named_entries mem fuel (true ∷ bs) es pos f h =
    listed-named mem fuel (reads_of mem bs) (accepted bs)
      (λ es pos f h. list_directory-named_entries mem fuel bs es pos f h) es fuel pos f f h
