-- ===== src/DiscFiles/Tests.antt =====
-- Runs of modules/iopcore/cdvdman/ioops.c, and the theorems at concrete inputs.
use opl_future_beta.Base.{
  ℕ, inr, get_or, ◌==◌, if◌then◌else◌, ◌<◌, ◌-◌, ◌+◌, ◌*◌, ◌^◌, ◌≡◌, refl, true, false, [], ◌∷◌,
  none, some, Each, set, arith,
}
use opl_future_beta.Text.{Str, strchr, strncmp_eq}
use opl_future_beta.DiscSearch.Toc.{got, Memory, DirTocEntry, toc_entry}
use opl_future_beta.DiscSearch.Directory.{HoldsToc}
use opl_future_beta.DiscSearch.Walk.{Contents, dir_lba, is_directory, IsImage}
use opl_future_beta.DiscSearch.Locate.{as_toc_length}
use opl_future_beta.DiscSearch.Search.{Settings, CdDrive, LayerInfo, SearchState}
use opl_future_beta.DiscSearch.Found.{IsName}
use opl_future_beta.DiscFiles.Handles.{
  Fhandle, limit_size, init_handles, Sectors, opened, seek_set, seek_end, cdvdman_getfilefreeslot,
  cdvdman_open, cdrom_purify_path, cdrom_open,
}
use opl_future_beta.DiscFiles.Bytes.{file_bytes}
use opl_future_beta.DiscFiles.Calls.{reads, seeks, calls, file_calls, calls-file_calls}
use opl_future_beta.DiscFiles.Opening.{HasVersion, cdrom_purify_path-version, cdrom_open-file_calls}
use opl_future_beta.DiscFiles.Listing.{list_directory, reads_of, list_directory-named_entries}
use opl_future_beta.DiscFiles.Slots.{Slots, cdvdman_open-Slots}

-- A disc whose bytes are their sector and their index in it.
abbrev disc : Sectors
disc lsn i = 10000 * lsn + i

abbrev half_read : Fhandle
half_read = record { f = some 1; lsn = 7; filesize = 4098; position = 2046 }

calls-file_calls_example :
    calls disc (reads 2 ∷ seeks seek_end 1 ∷ reads 9 ∷ seeks seek_set 9999 ∷ []) half_read
    ≡ (2, 72046 ∷ 72047 ∷ []) ∷ (4097, []) ∷ (1, 90001 ∷ []) ∷ (4098, []) ∷ []
unfolding file_bytes file_calls
calls-file_calls_example =
    calls-file_calls disc (reads 2 ∷ seeks seek_end 1 ∷ reads 9 ∷ seeks seek_set 9999 ∷ [])
      half_read (omega arith, omega arith) (omega arith, (tt, (omega arith, (tt, tt))))

-- "\A;"
cdrom_purify_path-version_example :
    HasVersion (cdrom_purify_path (92 ∷ 65 ∷ 59 ∷ []))
    × (cdrom_purify_path (cdrom_purify_path (92 ∷ 65 ∷ 59 ∷ []))
        ≡ cdrom_purify_path (92 ∷ 65 ∷ 59 ∷ []))
cdrom_purify_path-version_example = cdrom_purify_path-version (92 ∷ 65 ∷ 59 ∷ []) (omega arith)

-- "M.B;1"
abbrev file_name : Str
file_name = 77 ∷ 46 ∷ 66 ∷ 59 ∷ 49 ∷ []

-- A directory of one file, of 3000 bytes from sector 60 on.
abbrev dir_sector : Memory
dir_sector i =
    get_or
      (38 ∷ 0 ∷ 60 ∷ 0 ∷ 0 ∷ 0 ∷ 0 ∷ 0 ∷ 0 ∷ 0 ∷ 184 ∷ 11 ∷ 0 ∷ 0 ∷ 0 ∷ 0 ∷ 0 ∷ 0 ∷ 0 ∷ 0 ∷ 0 ∷ 0
        ∷ 0 ∷ 0 ∷ 0 ∷ 0 ∷ 0 ∷ 0 ∷ 0 ∷ 0 ∷ 0 ∷ 0 ∷ 5 ∷ file_name)
      i 0

abbrev file_entry : DirTocEntry
file_entry = record {
  length = 38;
  file_lba = 60;
  file_size = 3000;
  file_properties = 0;
  filename_length = 5;
  filename = file_name;
}

abbrev drive : CdDrive
drive = record {
  read = λ count lsn. if lsn == 50 then some dir_sector else none;
  on_dual = false;
  layer1_start = 0;
}

abbrev settings : Settings
settings = record { emu_dvddl = false; skip_videos = false }

abbrev root : LayerInfo
root = record { root_dirtoc_lba = 50; root_dirtoc_length = 2048 }

abbrev ready : SearchState
ready = record { mem = λ i. 0; layer0 = root; layer1 = root; media_lsn_count = 0 }

data IsRoot : ℕ → ℕ → Type 0 where
  root_dir : IsRoot 50 2048

abbrev contents : Contents
contents lba len = (file_entry ∷ []) ∷ []

image : IsImage (drive.read 0) (λ i. 0) 0 contents IsRoot
unfolding toc_entry
image = record { holds = holds; nested = nested }
  where
    holds :
        (lba len : ℕ)
        → IsRoot lba len
        → (len < 2 ^ 31) × HoldsToc (drive.read 0) (λ i. 0) lba len (contents lba len)
    holds _ _ root_dir = (
      omega arith,
      (
        omega arith,
        (
          dir_sector,
          refl,
          (refl, (omega arith, omega arith, omega arith, omega arith), inr (omega arith, refl)),
        ),
        refl,
      ),
    )

    no_flag : false ≡ true → ⊥
    no_flag q = cc

    nested :
        (lba len : ℕ)
        → IsRoot lba len
        → Each
            (λ es.
              Each
                (λ (e : DirTocEntry).
                  is_directory e ≡ true → IsRoot (dir_lba 0 e) (as_toc_length (e.file_size)))
                es)
            (contents lba len)
    nested lba len d = (((λ q. absurd (no_flag q)), tt), tt)

file-IsName : IsName [] file_name
unfolding strchr
file-IsName = (
  tt,
  (omega arith, omega arith, refl, refl),
  (77 ∷ 46 ∷ 66 ∷ 59 ∷ [], 49, refl, refl),
  omega arith,
  omega arith,
  omega arith,
)

-- "\M.B" is opened, and two bytes are read at the end of its first sector and two behind it.
cdrom_open-file_calls_example :
    (cdrom_open (2 ^ 20 + 2019) settings drive ready 1 0 (92 ∷ 77 ∷ 46 ∷ 66 ∷ []) init_handles
      ≡ got (
        opened 0,
        set init_handles 0 (record { f = some 1; lsn = 60; filesize = 3000; position = 0 }),
      ))
    × (calls disc
          (seeks seek_set 2046 ∷ reads 4 ∷ [])
          (record { f = some 1; lsn = 60; filesize = 3000; position = 0 })
        ≡ (2046, []) ∷ (4, 602046 ∷ 602047 ∷ 610000 ∷ 610001 ∷ []) ∷ [])
unfolding strncmp_eq cdvdman_getfilefreeslot cdrom_purify_path file_bytes file_calls
cdrom_open-file_calls_example =
    cdrom_open-file_calls settings drive ready 0 contents IsRoot (92 ∷ 77 ∷ 46 ∷ 66 ∷ []) []
      file_name (2 ^ 20 + 2019) file_entry 1 0 init_handles disc
      (seeks seek_set 2046 ∷ reads 4 ∷ []) (omega arith) image root_dir (omega arith) refl
      (omega arith) file-IsName (tt, (λ lba len d. (((λ q. refl), tt), tt))) (omega arith) refl
      (omega arith) refl (tt, (omega arith, tt))

cdvdman_open-Slots_example :
    Slots 1 init_handles
      (cdvdman_open (2 ^ 20 + 2019) settings drive ready 1 0 (92 ∷ file_name) init_handles)
cdvdman_open-Slots_example =
    cdvdman_open-Slots (2 ^ 20 + 2019) settings drive ready 1 0 (92 ∷ file_name) init_handles

-- A size of -1 at the start of a file reads the whole file.
negative_code :
    limit_size (record { f = some 1; lsn = 60; filesize = 3000; position = 0 }) (2 ^ 32 - 1) ≡ 3000
negative_code = refl

list_directory-named_entries_example :
    list_directory 2 (reads_of dir_sector (true ∷ true ∷ false ∷ [])) 0
    ≡ got (record { mode = 8484; size = 3000; name = file_name } ∷ [])
unfolding toc_entry
list_directory-named_entries_example =
    list_directory-named_entries dir_sector 2 (true ∷ true ∷ false ∷ []) (file_entry ∷ []) 0
      (omega arith) (refl, omega arith, omega arith, refl)
