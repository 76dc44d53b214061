-- ===== src/DiscSearch/Search.antt =====
-- `cdvdman_findfile` and `cdvdman_searchfile_init` of modules/iopcore/cdvdman/searchfile.c.
use opl_future_beta.Base.{
  ℕ, ◌+◌, ◌-◌, ◌%◌, ◌^◌, Bool, not, ◌&&◌, ◌||◌, Option, none, some, [], ◌∷◌, ltb, ◌==◌,
  if◌then◌else◌, length, drop,
}
use opl_future_beta.Text.{Str, strncmp_eq, copy_terminated}
use opl_future_beta.DiscSearch.Toc.{
  Result, fault, missing, got, and_then, Memory, Disc, load, u32_at, DirTocEntry,
}
use opl_future_beta.DiscSearch.Locate.{as_toc_length, cdvdman_locatefile}
use opl_future_beta.DiscSearch.Trim.{cdvdman_trimspaces}

-- The flags of `cdvdman_settings` that the search reads.
pub record Settings : Type 0 where
  pub emu_dvddl : Bool
  pub skip_videos : Bool

-- `sceCdRead` of one sector, which checks the sector with `mediaLsnCount`, and `sceCdReadDvdDualInfo`.
pub record CdDrive : Type 0 where
  pub read : (media_lsn_count : ℕ) → Disc
  pub on_dual : Bool
  pub layer1_start : ℕ

-- `layer_info_t`
pub record LayerInfo : Type 0 where
  pub root_dirtoc_lba : ℕ
  pub root_dirtoc_length : ℕ

-- The variables of the file, and the memory from `cdvdman_buf` on. A search reads a sector before it looks at the
-- buffer's first 2048 bytes, so they are not kept from one search to the next.
pub record SearchState : Type 0 where
  pub mem : Memory
  pub layer0 : LayerInfo
  pub layer1 : LayerInfo
  pub media_lsn_count : ℕ

abbrev pub load_if : Option Memory → Memory → Memory
load_if none mem = mem
load_if (some sector) mem = load sector mem

-- A read into `cdvdman_buf` whose result is not looked at.
abbrev pub read_sector : CdDrive → (media_lsn_count lsn : ℕ) → Memory → Memory
read_sector drive count lsn mem = load_if (drive.read count lsn) mem

-- The root directory that a volume descriptor names, on the layer from sector `start` on.
abbrev pub root_at : (start : ℕ) → Memory → LayerInfo
root_at start mem = record {
  root_dirtoc_lba = (start + u32_at mem 158) % 2 ^ 32;
  root_dirtoc_length = u32_at mem 166;
}

abbrev pub first_layer : CdDrive → SearchState → SearchState
first_layer drive s =
    let mem = read_sector drive (s.media_lsn_count) 16 (s.mem) in
    record s { mem = mem; layer0 = root_at 0 mem; media_lsn_count = u32_at mem 80 }

abbrev pub second_layer : CdDrive → SearchState → SearchState
second_layer drive s =
    let mem = read_sector drive 0 ((drive.layer1_start + 16) % 2 ^ 32) (s.mem) in
    record s {
      mem = mem;
      layer1 = root_at (drive.layer1_start) mem;
      media_lsn_count = (s.media_lsn_count + u32_at mem 80 + (2 ^ 32 - 16)) % 2 ^ 32;
    }

unfoldable pub cdvdman_searchfile_init : Settings → CdDrive → SearchState → SearchState
cdvdman_searchfile_init settings drive s =
    let first = first_layer drive s in
    if not (settings.emu_dvddl) && drive.on_dual then second_layer drive first else first

-- The fields of `sceCdlFILE` that the search sets.
pub record CdlFile : Type 0 where
  pub lsn : ℕ
  pub size : ℕ
  pub name : Str

-- `strrchr(s, c) + 1`, none where there is no `c`.
abbrev pub after_last : (c : ℕ) → Str → Option Str
after_last c [] = none
after_last c (a ∷ as') = elim (after_last c as') [
  | none ↦ if a == c then some as' else none
  | some r ↦ some r
]

-- Whether ".PSS" or ".pss" stands six bytes before the end of a path.
abbrev pub is_video : Str → Bool
is_video path =
    let tail = drop (length path - 6) path in
    strncmp_eq 4 tail (46 ∷ 80 ∷ 83 ∷ 83 ∷ []) || strncmp_eq 4 tail (46 ∷ 112 ∷ 115 ∷ 115 ∷ [])

-- The size given for a file. The test reads before the path where that has fewer than 6 bytes.
abbrev pub size_of : Settings → (path : Str) (file_size : ℕ) → Result ℕ
size_of settings path size =
    if settings.skip_videos
    then if ltb (length path) 6 then fault else got (if is_video path then 0 else size)
    else got size

-- The name is what stands behind the last backslash: without one, `strrchr` gives NULL, and a name of 16 bytes does
-- not fit `pcdfile->name` with its NUL.
abbrev pub name_of : Option Str → Result Str
name_of none = fault
name_of (some s) = if ltb (length s) 16 then got s else fault

abbrev pub file_of : Settings → (name path : Str) (layer1_start : ℕ) → DirTocEntry → Result CdlFile
file_of settings name path start e = and_then (size_of settings path (e.file_size)) (λ size.
    and_then (name_of (after_last 92 name))
      (λ n. got (record { lsn = (e.file_lba + start) % 2 ^ 32; size = size; name = n })))

-- The search for `cdvdman_filepath`.
abbrev pub find_path :
    (fuel : ℕ)
    → Settings
    → CdDrive
    → SearchState
    → (name : Str) (layer1_start : ℕ) → LayerInfo
    → (path : Str) → Result CdlFile
find_path fuel settings drive s name start info path =
    if info.root_dirtoc_lba == 0
    then missing
    else and_then
        (cdvdman_locatefile fuel (drive.read (s.media_lsn_count)) (s.mem) start path
          (info.root_dirtoc_lba) (as_toc_length (info.root_dirtoc_length)))
        (file_of settings name path start)

-- The search on one layer: `start` is its first sector where the layer is not the first one.
unfoldable pub find_on_layer :
    (fuel : ℕ)
    → Settings
    → CdDrive
    → SearchState
    → (name : Str) (layer1_start : ℕ) → LayerInfo
    → Result CdlFile
find_on_layer fuel settings drive s name start info =
    find_path fuel settings drive s name start info (cdvdman_trimspaces (copy_terminated 256 name))

unfoldable pub cdvdman_findfile :
    (fuel : ℕ) → Settings → CdDrive → SearchState → (name : Str) (layer : ℕ) → Result CdlFile
cdvdman_findfile fuel settings drive s name layer =
    if settings.emu_dvddl || layer == 0
    then find_on_layer fuel settings drive s name 0 (s.layer0)
    else find_on_layer fuel settings drive s name (drive.layer1_start) (s.layer1)

-- `sceCdSearchFile`
unfoldable pub sce_cd_search_file :
    (fuel : ℕ) → Settings → CdDrive → SearchState → (name : Str) → Result CdlFile
sce_cd_search_file fuel settings drive s name = cdvdman_findfile fuel settings drive s name 0
