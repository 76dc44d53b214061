-- ===== src/DiscFiles/Handles.antt =====
-- The operations of modules/iopcore/cdvdman/ioops.c on the file handles.
use opl_future_beta.Base.{
  ℕ, zero, suc, ◌+◌, ◌-◌, ◌*◌, ◌/◌, ◌%◌, ◌^◌, ◌&&◌, Option, none, some, List, [], ◌∷◌, ◌++◌, ltb,
  leb, ◌==◌, if◌then◌else◌, length, get_or, set, replicate,
}
use opl_future_beta.Text.{Str}
use opl_future_beta.DiscSearch.Toc.{Result, running, fault, missing, got, Memory}
use opl_future_beta.DiscSearch.Search.{Settings, CdDrive, SearchState, CdlFile, cdvdman_findfile}

-- `FHANDLE`, with the address of its `iop_file_t`.
pub record Fhandle : Type 0 where
  pub f : Option ℕ
  pub lsn : ℕ
  pub filesize : ℕ
  pub position : ℕ

-- A handle of zeros.
abbrev pub no_handle : Fhandle
no_handle = record { f = none; lsn = 0; filesize = 0; position = 0 }

abbrev pub max_fdhandles : ℕ
max_fdhandles = 64

-- `memset(&cdvdman_fdhandles[0], 0, ...)` of `cdvdman_fs_init`.
abbrev pub init_handles : List Fhandle
init_handles = replicate max_fdhandles no_handle

-- `cdvdman_getfilefreeslot`, as an index of `cdvdman_fdhandles`.
unfoldable pub cdvdman_getfilefreeslot : List Fhandle → Option ℕ
cdvdman_getfilefreeslot [] = none
cdvdman_getfilefreeslot (h ∷ hs) = elim (h.f) [
  | none ↦ some 0
  | some a ↦ elim (cdvdman_getfilefreeslot hs) [ none ↦ none | some i ↦ some (suc i) ]
]

-- What `cdvdman_open` returns: the handle in `privdata`, or an error.
pub data Opened : Type 0 where
  opened : (slot : ℕ) → Opened
  enoent : Opened
  emfile : Opened

-- The handle of a file that is found.
abbrev pub fill_slot : (file slot : ℕ) → List Fhandle → CdlFile → Opened × List Fhandle
fill_slot file i hs cd =
    (opened i, set hs i (record { f = some file; lsn = cd.lsn; filesize = cd.size; position = 0 }))

abbrev pub with_search :
    (file slot : ℕ) → List Fhandle → Result CdlFile → Result (Opened × List Fhandle)
with_search file i hs running = running
with_search file i hs fault = fault
with_search file i hs missing = got (enoent, hs)
with_search file i hs (got cd) = got (fill_slot file i hs cd)

abbrev pub in_slot :
    (file : ℕ) → List Fhandle → Result CdlFile → Option ℕ → Result (Opened × List Fhandle)
in_slot file hs search none = got (emfile, hs)
in_slot file hs search (some i) = with_search file i hs search

unfoldable pub cdvdman_open :
    (fuel : ℕ)
    → Settings
    → CdDrive
    → SearchState
    → (file unit : ℕ) (filename : Str) → List Fhandle
    → Result (Opened × List Fhandle)
cdvdman_open fuel settings drive s file unit filename hs =
    if ltb unit 2
    then in_slot file hs (cdvdman_findfile fuel settings drive s filename unit)
        (cdvdman_getfilefreeslot hs)
    else got (enoent, hs)

-- `cdrom_purifyPath`
unfoldable pub cdrom_purify_path : Str → Str
cdrom_purify_path path =
    let len = length path in
    if leb 3 len
    then if get_or path (len - 2) 0 == 59 && get_or path (len - 1) 0 == 49
      then path
      else if get_or path (len - 1) 0 == 59
      then path ++ 49 ∷ []
      else path ++ 59 ∷ 49 ∷ []
    else path

-- `cdrom_open`, where the path and its suffix have to fit the 128 bytes of `path_buffer`.
unfoldable pub cdrom_open :
    (fuel : ℕ)
    → Settings
    → CdDrive
    → SearchState
    → (file unit : ℕ) (filename : Str) → List Fhandle
    → Result (Opened × List Fhandle)
cdrom_open fuel settings drive s file unit filename hs =
    let path = cdrom_purify_path filename in
    if ltb (length path) 128 then cdvdman_open fuel settings drive s file unit path hs else fault

-- `cdrom_close`
unfoldable pub cdrom_close : (slot : ℕ) → List Fhandle → List Fhandle
cdrom_close slot hs = set hs slot no_handle

-- The sectors of the disc.
abbrev pub Sectors : Type 0
Sectors = (lsn : ℕ) → Memory

-- The bytes of a buffer from an index on.
unfoldable pub copy_slice : Memory → (offset nbytes : ℕ) → List ℕ
copy_slice mem i zero = []
copy_slice mem i (suc n) = mem i ∷ copy_slice mem (i + 1) n

-- What `sceCdRead` reads, once it is accepted.
unfoldable pub cd_read : Sectors → (sectors lsn : ℕ) → List ℕ
cd_read disc zero lsn = []
cd_read disc (suc n) lsn = copy_slice (disc lsn) 0 2048 ++ cd_read disc n (lsn + 1)

-- The variables of `cdrom_read`; `out` is what stands in the caller's buffer.
pub record ReadState : Type 0 where
  pub position : ℕ
  pub size : ℕ
  pub rpos : ℕ
  pub out : List ℕ

-- `fh->position += nbytes; size -= nbytes; rpos += nbytes`, with the bytes that are copied.
abbrev pub take_bytes : (nbytes : ℕ) → List ℕ → ReadState → ReadState
take_bytes nbytes bytes r = record {
  position = (r.position + nbytes) % 2 ^ 32;
  size = r.size - nbytes;
  rpos = r.rpos + nbytes;
  out = r.out ++ bytes;
}

abbrev pub align : Sectors → (lsn : ℕ) → ReadState → ReadState
align disc lsn r =
    let offset = r.position % 2048 in
    let nbytes = if ltb (r.size) (2048 - offset) then r.size else 2048 - offset in
    if offset == 0
    then r
    else take_bytes nbytes (copy_slice (disc (lsn + r.position / 2048)) offset nbytes) r

abbrev pub read_middle : Sectors → (lsn : ℕ) → ReadState → ReadState
read_middle disc lsn r =
    let nsectors = r.size / 2048 in
    take_bytes (nsectors * 2048) (cd_read disc nsectors (lsn + r.position / 2048)) r

abbrev pub read_rest : Sectors → (lsn : ℕ) → ReadState → ReadState
read_rest disc lsn r =
    take_bytes (r.size) (copy_slice (disc (lsn + r.position / 2048)) 0 (r.size)) r

-- `size` as the 32 bits of the int: cut to what is left of the file.
abbrev pub limit_size : Fhandle → (size : ℕ) → ℕ
limit_size fh size =
    if ltb (fh.filesize) ((fh.position + size) % 2 ^ 32)
    then (fh.filesize + (2 ^ 32 - fh.position)) % 2 ^ 32
    else size

abbrev pub all_phases : Sectors → (lsn : ℕ) → ReadState → ReadState
all_phases disc lsn r = read_rest disc lsn (read_middle disc lsn (align disc lsn r))

abbrev pub at_position : Fhandle → (size : ℕ) → ReadState
at_position fh size = record { position = fh.position; size = size; rpos = 0; out = [] }

abbrev pub read_out : Fhandle → ReadState → ℕ × List ℕ × Fhandle
read_out fh r = (r.rpos, r.out, record fh { position = r.position })

-- `if (size > 0)` for the 32 bits of the int.
abbrev pub read_size : Sectors → Fhandle → (size : ℕ) → ℕ × List ℕ × Fhandle
read_size disc fh size =
    if ltb 0 size && ltb size (2 ^ 31)
    then read_out fh (all_phases disc (fh.lsn) (at_position fh size))
    else (0, [], fh)

-- `cdrom_read`: what it returns, the bytes that are read, and the handle.
unfoldable pub cdrom_read : Sectors → Fhandle → (size : ℕ) → ℕ × List ℕ × Fhandle
cdrom_read disc fh size = read_size disc fh (limit_size fh size)

pub data Whence : Type 0 where
  seek_set : Whence
  seek_cur : Whence
  seek_end : Whence
  other : Whence

-- `offset` as the 32 bits of the int.
abbrev pub seek_to : Whence → (offset : ℕ) → Fhandle → ℕ
seek_to seek_set offset fh = offset
seek_to seek_cur offset fh = (fh.position + offset) % 2 ^ 32
seek_to seek_end offset fh = (fh.filesize + (2 ^ 32 - offset)) % 2 ^ 32
seek_to other offset fh = fh.position

-- `cdrom_lseek`, which returns the new position.
unfoldable pub cdrom_lseek : Whence → (offset : ℕ) → Fhandle → ℕ × Fhandle
cdrom_lseek whence offset fh =
    let p = seek_to whence offset fh in
    let q : ℕ = if ltb (fh.filesize) p then fh.filesize else p in (q, record fh { position = q })
