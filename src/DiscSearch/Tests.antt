-- ===== src/DiscSearch/Tests.antt =====
-- Searches of modules/iopcore/cdvdman/searchfile.c on a small image, and the theorems at concrete inputs.
use opl_future_beta.Base.{
  ℕ, ◌+◌, ◌%◌, ◌/◌, ◌^◌, ◌≡◌, ◌<◌, refl, true, false, [], ◌∷◌, ◌++◌, none, some, ◌==◌,
  if◌then◌else◌, length, get_or, Each, inr, arith,
}
use opl_future_beta.Text.{Str, strncmp_eq, strchr}
use opl_future_beta.DiscSearch.Toc.{running, fault, got, Memory, Disc, DirTocEntry, toc_entry}
use opl_future_beta.DiscSearch.Locate.{as_toc_length, cdvdman_locatefile}
use opl_future_beta.DiscSearch.Directory.{IsEntry, HoldsToc}
use opl_future_beta.DiscSearch.Walk.{
  Contents, dir_lba, IsImage, AreWhole, is_directory, IsPart, path_of,
}
use opl_future_beta.DiscSearch.Trim.{cdvdman_trimspaces, Trims, cdvdman_trimspaces-Trims}
use opl_future_beta.DiscSearch.Search.{
  Settings, CdDrive, LayerInfo, SearchState, cdvdman_findfile, after_last, name_of,
  cdvdman_searchfile_init, sce_cd_search_file,
}
use opl_future_beta.DiscSearch.Found.{IsName, cdvdman_findfile-walk, sce_cd_search_file-walk}
use opl_future_beta.DiscSearch.Stall.{cdvdman_locatefile_stalls}

-- "A . ."
cdvdman_trimspaces-Trims_example :
    Trims (65 ∷ 32 ∷ 46 ∷ []) (cdvdman_trimspaces (65 ∷ 32 ∷ 46 ∷ []))
cdvdman_trimspaces-Trims_example = cdvdman_trimspaces-Trims (65 ∷ 32 ∷ 46 ∷ [])

-- The bytes of an entry, with a sector below 256.
abbrev entry_bytes : (lba size flags : ℕ) → Str → Str
entry_bytes lba size flags name =
    (33 + length name)
    ∷ 0
    ∷ lba
    ∷ 0
    ∷ 0
    ∷ 0
    ∷ 0
    ∷ 0
    ∷ 0
    ∷ 0
    ∷ (size % 256)
    ∷ (size / 256)
    ∷ 0
    ∷ 0
    ∷ 0
    ∷ 0
    ∷ 0
    ∷ 0
    ∷ 0
    ∷ 0
    ∷ 0
    ∷ 0
    ∷ 0
    ∷ 0
    ∷ 0
    ∷ flags
    ∷ 0
    ∷ 0
    ∷ 0
    ∷ 0
    ∷ 0
    ∷ 0
    ∷ length name
    ∷ name

abbrev entry_of_name : (lba size flags : ℕ) → (bytes name : Str) → DirTocEntry
entry_of_name lba size flags bytes name = record {
  length = 33 + length bytes;
  file_lba = lba;
  file_size = size;
  file_properties = flags;
  filename_length = length bytes;
  filename = name;
}

abbrev self_entry : DirTocEntry
self_entry = entry_of_name 20 2048 2 (0 ∷ []) []

-- "DATA"
abbrev data_name : Str
data_name = 68 ∷ 65 ∷ 84 ∷ 65 ∷ []

abbrev data_entry : DirTocEntry
data_entry = entry_of_name 21 2048 2 data_name data_name

-- "MOVIE.PSS;1"
abbrev movie_name : Str
movie_name = 77 ∷ 79 ∷ 86 ∷ 73 ∷ 69 ∷ 46 ∷ 80 ∷ 83 ∷ 83 ∷ 59 ∷ 49 ∷ []

abbrev movie_entry : DirTocEntry
movie_entry = entry_of_name 40 5000 0 movie_name movie_name

abbrev from_bytes : Str → Memory
from_bytes s i = get_or s i 0

abbrev root_sector : Memory
root_sector = from_bytes (entry_bytes 20 2048 2 (0 ∷ []) ++ entry_bytes 21 2048 2 data_name)

abbrev data_sector : Memory
data_sector = from_bytes (entry_bytes 40 5000 0 movie_name)

-- A volume descriptor of 100 sectors whose root directory has the 2048 bytes of sector 20.
abbrev pvd : Memory
pvd i = if i == 158 then 20 else if i == 167 then 8 else if i == 80 then 100 else 0

abbrev drive : CdDrive
drive = record {
  read = λ count lsn.
      if lsn == 16
      then some pvd
      else if lsn == 20
      then some root_sector
      else if lsn == 21
      then some data_sector
      else none;
  on_dual = false;
  layer1_start = 0;
}

abbrev settings : Settings
settings = record { emu_dvddl = false; skip_videos = true }

abbrev at_boot : SearchState
at_boot =
    let none_yet : LayerInfo = record { root_dirtoc_lba = 0; root_dirtoc_length = 0 } in
    record { mem = λ i. 0; layer0 = none_yet; layer1 = none_yet; media_lsn_count = 0 }

abbrev contents : Contents
contents lba len =
    if lba == 20 then (self_entry ∷ data_entry ∷ []) ∷ [] else (movie_entry ∷ []) ∷ []

data IsExampleDir : ℕ → ℕ → Type 0 where
  root_dir : IsExampleDir 20 2048
  data_dir : IsExampleDir 21 2048

movie-IsPart : IsPart movie_name
unfolding strchr
movie-IsPart = (omega arith, omega arith, refl, refl)

data-IsPart : IsPart data_name
unfolding strchr
data-IsPart = (omega arith, omega arith, refl, refl)

movie-IsName : IsName (data_name ∷ []) movie_name
movie-IsName = (
  (data-IsPart, tt),
  movie-IsPart,
  (77 ∷ 79 ∷ 86 ∷ 73 ∷ 69 ∷ 46 ∷ 80 ∷ 83 ∷ 83 ∷ 59 ∷ [], 49, refl, refl),
  omega arith,
  omega arith,
  omega arith,
)

self-IsEntry : IsEntry self_entry
self-IsEntry = (omega arith, omega arith, omega arith, omega arith)

data-IsEntry : IsEntry data_entry
data-IsEntry = (omega arith, omega arith, omega arith, omega arith)

movie-IsEntry : IsEntry movie_entry
movie-IsEntry = (omega arith, omega arith, omega arith, omega arith)

holds :
    (mem : Memory) (count lba len : ℕ)
    → IsExampleDir lba len
    → (len < 2 ^ 31) × HoldsToc (drive.read count) mem lba len (contents lba len)
unfolding toc_entry
holds mem count _ _ root_dir = (
  omega arith,
  (
    omega arith,
    (
      root_sector,
      refl,
      (refl, self-IsEntry, inr (omega arith, (refl, data-IsEntry, inr (omega arith, refl)))),
    ),
    refl,
  ),
)
holds mem count _ _ data_dir = (
  omega arith,
  (omega arith, (data_sector, refl, (refl, movie-IsEntry, inr (omega arith, refl))), refl),
)

nested :
    (lba len : ℕ)
    → IsExampleDir lba len
    → Each
        (λ es.
          Each
            (λ (e : DirTocEntry).
              is_directory e ≡ true → IsExampleDir (dir_lba 0 e) (as_toc_length (e.file_size)))
            es)
        (contents lba len)
nested _ _ root_dir = (((λ q. root_dir), ((λ q. data_dir), tt)), tt)
nested _ _ data_dir = (((λ q. absurd (no_flag q)), tt), tt)
  where
    no_flag : false ≡ true → ⊥
    no_flag q = cc

image : (mem : Memory) (count : ℕ) → IsImage (drive.read count) mem 0 contents IsExampleDir
image mem count = record { holds = holds mem count; nested = nested }

unequal : {A : Type 0} → false ≡ true → A
unequal q = absurd (no_flag q)
  where
    no_flag : false ≡ true → ⊥
    no_flag q = cc

data-AreWhole : AreWhole contents IsExampleDir data_name
unfolding strncmp_eq
data-AreWhole _ _ root_dir = (((λ q. unequal q), ((λ q. refl), tt)), tt)
data-AreWhole _ _ data_dir = (((λ q. unequal q), tt), tt)

movie-AreWhole : AreWhole contents IsExampleDir movie_name
unfolding strncmp_eq
movie-AreWhole _ _ root_dir = (((λ q. unequal q), ((λ q. unequal q), tt)), tt)
movie-AreWhole _ _ data_dir = (((λ q. refl), tt), tt)

abbrev booted : SearchState
booted = cdvdman_searchfile_init settings drive at_boot

-- "\DATA\MOVIE.PSS;1", with a size of 0 since videos are skipped.
sce_cd_search_file-walk_example :
    sce_cd_search_file
      (2 ^ 20 + 2020)
      settings
      drive
      booted
      (92 ∷ path_of (data_name ∷ []) movie_name)
    ≡ got (record { lsn = 40; size = 0; name = movie_name })
unfolding strncmp_eq
sce_cd_search_file-walk_example =
    sce_cd_search_file-walk settings drive at_boot pvd contents IsExampleDir (data_name ∷ [])
      movie_name (2 ^ 20 + 2020) refl (image (booted.mem) (booted.media_lsn_count)) root_dir
      (omega arith) movie-IsName ((data-AreWhole, tt), movie-AreWhole) (omega arith)

-- A second layer from sector 30 on, with the one sector of its root directory.
abbrev two_layers : CdDrive
two_layers = record {
  read = λ count lsn. if lsn == 50 then some data_sector else none;
  on_dual = true;
  layer1_start = 30;
}

abbrev second_root : LayerInfo
second_root = record { root_dirtoc_lba = 50; root_dirtoc_length = 2048 }

abbrev on_second : SearchState
on_second = record at_boot { layer1 = second_root; media_lsn_count = 100 }

data IsSecondRoot : ℕ → ℕ → Type 0 where
  second_root_dir : IsSecondRoot 50 2048

abbrev second_contents : Contents
second_contents lba len = (movie_entry ∷ []) ∷ []

second_image : IsImage (two_layers.read 100) (λ i. 0) 30 second_contents IsSecondRoot
unfolding toc_entry
second_image = record { holds = second_holds; nested = second_nested }
  where
    second_holds :
        (lba len : ℕ)
        → IsSecondRoot lba len
        → (len < 2 ^ 31) × HoldsToc (two_layers.read 100) (λ i. 0) lba len (second_contents lba len)
    second_holds _ _ second_root_dir = (
      omega arith,
      (omega arith, (data_sector, refl, (refl, movie-IsEntry, inr (omega arith, refl))), refl),
    )

    no_flag : false ≡ true → ⊥
    no_flag q = cc

    second_nested :
        (lba len : ℕ)
        → IsSecondRoot lba len
        → Each
            (λ es.
              Each
                (λ (e : DirTocEntry).
                  is_directory e ≡ true → IsSecondRoot (dir_lba 30 e) (as_toc_length (e.file_size)))
                es)
            (second_contents lba len)
    second_nested lba len d = (((λ q. absurd (no_flag q)), tt), tt)

second-AreWhole : AreWhole second_contents IsSecondRoot movie_name
second-AreWhole lba len d = (((λ q. refl), tt), tt)

movie-IsShort : IsName [] movie_name
movie-IsShort = (
  tt,
  movie-IsPart,
  (77 ∷ 79 ∷ 86 ∷ 73 ∷ 69 ∷ 46 ∷ 80 ∷ 83 ∷ 83 ∷ 59 ∷ [], 49, refl, refl),
  omega arith,
  omega arith,
  omega arith,
)

cdvdman_findfile-walk_example :
    cdvdman_findfile (2 ^ 20 + 2019) settings two_layers on_second (92 ∷ movie_name) 1
    ≡ got (record { lsn = 70; size = 0; name = movie_name })
unfolding strncmp_eq
cdvdman_findfile-walk_example =
    cdvdman_findfile-walk settings two_layers on_second 1 second_contents IsSecondRoot [] movie_name
      (2 ^ 20 + 2019) second_image second_root_dir (omega arith) movie-IsShort (tt, second-AreWhole)
      (omega arith)

-- Behind the entry of the directory itself stands an entry of 33 bytes without a name.
abbrev nameless_sector : Memory
nameless_sector = from_bytes (entry_bytes 20 2048 2 (0 ∷ []) ++ entry_bytes 0 0 0 [])

abbrev nameless_disc : Disc
nameless_disc lsn = if lsn == 20 then some nameless_sector else none

-- "\X"
cdvdman_locatefile_stalls_example :
    cdvdman_locatefile 1000 nameless_disc (λ i. 0) 0 (92 ∷ 88 ∷ []) 20 2048 ≡ running
unfolding toc_entry strncmp_eq strchr
cdvdman_locatefile_stalls_example =
    cdvdman_locatefile_stalls (self_entry ∷ []) 1000 nameless_disc (λ i. 0) nameless_sector 0
      (92 ∷ 88 ∷ []) 20 2048 (omega arith) (omega arith) refl
      (refl, self-IsEntry, refl, omega arith, (omega arith, refl))

-- A name without a backslash has no result.
search_code : name_of (after_last 92 movie_name) ≡ fault
search_code = refl
