-- ===== src/DiscSearch/Found.antt =====
-- `cdvdman_findfile` of modules/iopcore/cdvdman/searchfile.c on an image.
use opl_future_beta.Base.{
  ℕ, zero, suc, ◌+◌, ◌%◌, ◌^◌, ◌≤◌, ◌<◌, ◌≡◌, ◌∙◌, ap, refl, sym, Bool, true, false, not, ◌&&◌,
  ◌||◌, Option, none, some, List, [], ◌∷◌, ◌++◌, ltb, ◌==◌, if◌then◌else◌, length, Each, arith,
  append-nil,
}
use opl_future_beta.Text.{Str, strchr, copy_terminated, copy_terminated_short}
use opl_future_beta.DiscSearch.Toc.{Result, got, and_then, Memory, Disc, DirTocEntry, scan_toc}
use opl_future_beta.DiscSearch.Locate.{skip, first_part, as_toc_length, at_part, cdvdman_locatefile}
use opl_future_beta.DiscSearch.Walk.{
  and_then_cong, Contents, AreWhole, walk, IsImage, IsPart, path_of, skip_part,
  cdvdman_locatefile-walk,
}
use opl_future_beta.DiscSearch.Trim.{
  EndsSolid, EndsSolid-append, cdvdman_trimspaces, cdvdman_trimspaces_solid,
}
use opl_future_beta.DiscSearch.Search.{
  Settings, CdDrive, LayerInfo, SearchState, CdlFile, after_last, is_video, size_of, name_of,
  file_of, find_path, find_on_layer, cdvdman_findfile, root_at, first_layer, second_layer,
  cdvdman_searchfile_init, sce_cd_search_file, load_if,
}

skip_path :
    (ds : List Str) (file : Str)
    → Each IsPart ds
    → IsPart file
    → skip 47 (path_of ds file) ≡ path_of ds file
skip_path [] file h (l, _, p, _) =
    ap (skip 47) (sym (append-nil file)) ∙ skip_part file [] 47 l p ∙ append-nil file
skip_path (d ∷ ds) file ((l, _, p, _), hs) i = skip_part d (92 ∷ path_of ds file) 47 l p

-- A backslash in front of a path is skipped.
locate-backslash :
    (fuel : ℕ) (disc : Disc) (mem : Memory) (start : ℕ) (p : Str) (lba len : ℕ)
    → skip 47 p ≡ p
    → cdvdman_locatefile fuel disc mem start (92 ∷ p) lba len
      ≡ cdvdman_locatefile fuel disc mem start p lba len
unfolding cdvdman_locatefile
locate-backslash zero disc mem start p lba len h = refl
locate-backslash (suc fuel) disc mem start p lba len h =
    ap
      (λ x.
        at_part (λ dirname slash. scan_toc fuel dirname slash disc mem lba len)
          (λ rest e.
            cdvdman_locatefile fuel disc mem start rest ((e.file_lba + start) % 2 ^ 32)
              (as_toc_length (e.file_size)))
          (first_part (skip 92 x)))
      (sym h)

after_last-absent : (s : Str) (c : ℕ) → strchr s c ≡ none → after_last c s ≡ none
unfolding strchr
after_last-absent [] c h = refl
after_last-absent (x ∷ xs) c h = ground (arith, h, after_last-absent xs c)

after_last-front : (a t r : Str) (c : ℕ) → after_last c t ≡ some r → after_last c (a ++ t) ≡ some r
after_last-front [] t r c h = h
after_last-front (x ∷ xs) t r c h = rw (after_last-front xs t r c h) refl

after_last-path :
    (ds : List Str) (file : Str) → IsPart file → after_last 92 (92 ∷ path_of ds file) ≡ some file
after_last-path [] file (_, _, _, q) =
    behind_slash (after_last 92 file) (after_last-absent file 92 q)
  where
    behind_slash :
        (o : Option Str) → o ≡ none → (elim o [ none ↦ some file | some r ↦ some r ]) ≡ some file
    behind_slash o h = rw h refl
after_last-path (d ∷ ds) file i =
    after_last-front (92 ∷ d) (92 ∷ path_of ds file) file 92 (after_last-path ds file i)

path-EndsSolid : (ds : List Str) (file : Str) → EndsSolid file → EndsSolid (path_of ds file)
path-EndsSolid [] file h = h
path-EndsSolid (d ∷ ds) file h =
    EndsSolid-append d (92 ∷ path_of ds file)
      (EndsSolid-append (92 ∷ []) (path_of ds file) (path-EndsSolid ds file h))

-- A file of an image as `sceCdlFILE` describes it. The size of a video is 0 where videos are skipped.
abbrev pub described : Settings → (path file : Str) (layer1_start : ℕ) → DirTocEntry → CdlFile
described settings path file start e = record {
  lsn = (e.file_lba + start) % 2 ^ 32;
  size = if settings.skip_videos && is_video path then 0 else e.file_size;
  name = file;
}

size_of_long :
    (settings : Settings) (path : Str) (size : ℕ)
    → 6 ≤ length path
    → size_of settings path size ≡ got (if settings.skip_videos && is_video path then 0 else size)
size_of_long settings path size h =
    let k : ltb (length path) 6 ≡ false = ground (arith, h) in rw k (by_flag (settings.skip_videos))
  where
    by_flag :
        (b : Bool)
        → (if b then got (if is_video path then 0 else size) else got size)
          ≡ got (if b && is_video path then 0 else size)
    by_flag true = refl
    by_flag false = refl

-- A name that can be looked up: parts of 1 to 31 bytes behind a backslash each, the last of at most
-- 15 bytes, 6 to 255 bytes in all, where the last byte is neither a space nor a dot.
abbrev pub IsName : (dirs : List Str) (file : Str) → Type 0
IsName dirs file =
    Each IsPart dirs
    × IsPart file
    × EndsSolid file
    × (5 ≤ length (path_of dirs file))
    × (length (path_of dirs file) < 255)
    × (length file < 16)

file_of-described :
    (settings : Settings) (dirs : List Str) (file : Str) (start : ℕ) (e : DirTocEntry)
    → IsName dirs file
    → file_of settings (92 ∷ path_of dirs file) (92 ∷ path_of dirs file) start e
      ≡ got (described settings (92 ∷ path_of dirs file) file start e)
file_of-described settings dirs file start e (_, i, _, l, _, w) =
    ap
      (λ r.
        and_then r
          (λ size. and_then (name_of (after_last 92 (92 ∷ path_of dirs file))) (with_name size)))
      (size_of_long settings (92 ∷ path_of dirs file) (e.file_size) (omega (arith, l)))
    ∙ ap (λ r. and_then r (with_name size)) (ap name_of (after_last-path dirs file i) ∙ short)
  where
    with_name : ℕ → Str → Result CdlFile
    with_name size n = got (record { lsn = (e.file_lba + start) % 2 ^ 32; size = size; name = n })

    size : ℕ
    size = if settings.skip_videos && is_video (92 ∷ path_of dirs file) then 0 else e.file_size

    short : name_of (some file) ≡ got file
    short = let k : ltb (length file) 16 ≡ true = ground (arith, w) in rw k refl

path-trimmed :
    (dirs : List Str) (file : Str)
    → IsName dirs file
    → cdvdman_trimspaces (copy_terminated 256 (92 ∷ path_of dirs file)) ≡ 92 ∷ path_of dirs file
path-trimmed dirs file (_, _, e, _, l, _) =
    ap cdvdman_trimspaces (copy_terminated_short 256 (92 ∷ path_of dirs file) (omega (arith, l)))
    ∙ cdvdman_trimspaces_solid (92 ∷ path_of dirs file) (path-EndsSolid ([] ∷ dirs) file e)

module _ (settings : Settings) (drive : CdDrive) (s : SearchState) (start : ℕ) (info : LayerInfo)
    (contents : Contents) (IsDir : ℕ → ℕ → Type 0)
    (image : IsImage (drive.read (s.media_lsn_count)) (s.mem) start contents IsDir)
    (root : IsDir (info.root_dirtoc_lba) (as_toc_length (info.root_dirtoc_length))) where
  -- What the reference gives for a path.
  abbrev pub walk_path : (dirs : List Str) (file : Str) → Result DirTocEntry
  walk_path dirs file =
      walk contents start dirs file (info.root_dirtoc_lba) (as_toc_length (info.root_dirtoc_length))

  locate-path :
      (dirs : List Str) (file : Str) (fuel : ℕ)
      → IsName dirs file
      → Each (AreWhole contents IsDir) dirs × AreWhole contents IsDir file
      → 2 ^ 20 + 2019 + length dirs ≤ fuel
      → cdvdman_locatefile fuel
          (drive.read (s.media_lsn_count))
          (s.mem)
          start
          (92 ∷ path_of dirs file)
          (info.root_dirtoc_lba)
          (as_toc_length (info.root_dirtoc_length))
        ≡ walk_path dirs file
  locate-path dirs file fuel (h, i, _, _, _, _) x f =
      locate-backslash fuel (drive.read (s.media_lsn_count)) (s.mem) start (path_of dirs file)
        (info.root_dirtoc_lba) (as_toc_length (info.root_dirtoc_length)) (skip_path dirs file h i)
      ∙ cdvdman_locatefile-walk (drive.read (s.media_lsn_count)) (s.mem) start contents IsDir image
          dirs file fuel (info.root_dirtoc_lba) (as_toc_length (info.root_dirtoc_length)) root h i x
          f

  pub find_on_layer-walk :
      (dirs : List Str) (file : Str) (fuel : ℕ)
      → 0 < info.root_dirtoc_lba
      → IsName dirs file
      → Each (AreWhole contents IsDir) dirs × AreWhole contents IsDir file
      → 2 ^ 20 + 2019 + length dirs ≤ fuel
      → find_on_layer fuel settings drive s (92 ∷ path_of dirs file) start info
        ≡ and_then
            (walk_path dirs file)
            (λ e. got (described settings (92 ∷ path_of dirs file) file start e))
  unfolding find_on_layer
  find_on_layer-walk dirs file fuel r n x f =
      let k : ((info.root_dirtoc_lba) == 0) ≡ false = ground (arith, r) in
      ap (find_path fuel settings drive s (92 ∷ path_of dirs file) start info)
        (path-trimmed dirs file n)
      ∙ rw k (
          and_then_cong
            (cdvdman_locatefile fuel (drive.read (s.media_lsn_count)) (s.mem) start
              (92 ∷ path_of dirs file) (info.root_dirtoc_lba)
              (as_toc_length (info.root_dirtoc_length)))
            (walk_path dirs file)
            (file_of settings (92 ∷ path_of dirs file) (92 ∷ path_of dirs file) start)
            (λ e. got (described settings (92 ∷ path_of dirs file) file start e))
            (locate-path dirs file fuel n x f)
            (λ e q. file_of-described settings dirs file start e n))

-- The layer that is searched: its root directory, and the sector that its sectors are counted from.
abbrev pub searched_layer : Settings → CdDrive → SearchState → (layer : ℕ) → LayerInfo × ℕ
searched_layer settings drive s layer =
    if settings.emu_dvddl || layer == 0 then (s.layer0, 0) else (s.layer1, drive.layer1_start)

-- On an image, where the sectors of each directory from the root on hold entries that have names of 1
-- to 14 bytes and lengths below 2^15, and for a path of parts of 1 to 31 bytes without a slash, a
-- backslash in front of each, 6 to 255 bytes in all, the last part of at most 15 bytes and its last
-- byte neither a space nor a dot: `sceCdLayerSearchFile` gives the sector, the size and the name of
-- the file that has the whole of these names, from the root of the layer it is asked for, and fails
-- where there is none. No entry of a directory may differ from a part of the path only behind its
-- first 12 bytes, which are all that the code compares. The size is 0 for a video that is skipped. The
-- fuel is 2^20 + 2019 and one for each directory of the path.
pub cdvdman_findfile-walk :
    (settings : Settings) (drive : CdDrive) (s : SearchState) (layer : ℕ) (contents : Contents)
    (IsDir : ℕ → ℕ → Type 0) (dirs : List Str) (file : Str) (fuel : ℕ)
    → let info = (searched_layer settings drive s layer).0 in
      let start = (searched_layer settings drive s layer).1 in
      IsImage (drive.read (s.media_lsn_count)) (s.mem) start contents IsDir
      → IsDir (info.root_dirtoc_lba) (as_toc_length (info.root_dirtoc_length))
      → 0 < info.root_dirtoc_lba
      → IsName dirs file
      → Each (AreWhole contents IsDir) dirs × AreWhole contents IsDir file
      → 2 ^ 20 + 2019 + length dirs ≤ fuel
      → cdvdman_findfile fuel settings drive s (92 ∷ path_of dirs file) layer
        ≡ and_then
            (walk contents start dirs file
              (info.root_dirtoc_lba)
              (as_toc_length (info.root_dirtoc_length)))
            (λ e. got (described settings (92 ∷ path_of dirs file) file start e))
unfolding cdvdman_findfile
cdvdman_findfile-walk settings drive s layer contents IsDir dirs file fuel image root r n x f =
    on_layer (settings.emu_dvddl || layer == 0) image root r
  where
    on_layer :
        (b : Bool)
        → let p : LayerInfo × ℕ = if b then (s.layer0, 0) else (s.layer1, drive.layer1_start) in
          IsImage (drive.read (s.media_lsn_count)) (s.mem) (p.1) contents IsDir
          → IsDir (p.0.root_dirtoc_lba) (as_toc_length (p.0.root_dirtoc_length))
          → 0 < p.0.root_dirtoc_lba
          → (if b
              then find_on_layer fuel settings drive s (92 ∷ path_of dirs file) 0 (s.layer0)
              else find_on_layer fuel settings drive s
                  (92 ∷ path_of dirs file)
                  (drive.layer1_start)
                  (s.layer1))
            ≡ and_then
                (walk contents
                  (p.1)
                  dirs
                  file
                  (p.0.root_dirtoc_lba)
                  (as_toc_length (p.0.root_dirtoc_length)))
                (λ e. got (described settings (92 ∷ path_of dirs file) file (p.1) e))
    on_layer true i d p =
        find_on_layer-walk settings drive s 0 (s.layer0) contents IsDir i d dirs file fuel p n x f
    on_layer false i d p =
        find_on_layer-walk settings drive s (drive.layer1_start) (s.layer1) contents IsDir i d dirs
          file fuel p n x f

init-layer0 :
    (settings : Settings) (drive : CdDrive) (s : SearchState) (pvd : Memory)
    → drive.read (s.media_lsn_count) 16 ≡ some pvd
    → (cdvdman_searchfile_init settings drive s).layer0 ≡ root_at 0 pvd
unfolding cdvdman_searchfile_init
init-layer0 settings drive s pvd q =
    first_kept (not (settings.emu_dvddl) && drive.on_dual) ∙ first_root
  where
    first_kept :
        (b : Bool)
        → (if b then second_layer drive (first_layer drive s) else first_layer drive s).layer0
          ≡ (first_layer drive s).layer0
    first_kept true = refl
    first_kept false = refl

    first_root : (first_layer drive s).layer0 ≡ root_at 0 pvd
    first_root = ap (λ o. root_at 0 (load_if o (s.mem))) q

-- Once `cdvdman_searchfile_init` has read the volume descriptor of sector 16, on a disc of one or two layers
-- that is an image as above, `sceCdSearchFile` of such a path gives the file that the directories of the first
-- layer name from the root directory of that descriptor, and fails where they name none.
pub sce_cd_search_file-walk :
    (settings : Settings) (drive : CdDrive) (s : SearchState) (pvd : Memory) (contents : Contents)
    (IsDir : ℕ → ℕ → Type 0) (dirs : List Str) (file : Str) (fuel : ℕ)
    → let t = cdvdman_searchfile_init settings drive s in
      let info = root_at 0 pvd in
      drive.read (s.media_lsn_count) 16 ≡ some pvd
      → IsImage (drive.read (t.media_lsn_count)) (t.mem) 0 contents IsDir
      → IsDir (info.root_dirtoc_lba) (as_toc_length (info.root_dirtoc_length))
      → 0 < info.root_dirtoc_lba
      → IsName dirs file
      → Each (AreWhole contents IsDir) dirs × AreWhole contents IsDir file
      → 2 ^ 20 + 2019 + length dirs ≤ fuel
      → sce_cd_search_file fuel settings drive t (92 ∷ path_of dirs file)
        ≡ and_then
            (walk contents 0 dirs file
              (info.root_dirtoc_lba)
              (as_toc_length (info.root_dirtoc_length)))
            (λ e. got (described settings (92 ∷ path_of dirs file) file 0 e))
unfolding sce_cd_search_file cdvdman_findfile
sce_cd_search_file-walk settings drive s pvd contents IsDir dirs file fuel q image root r n x f =
    let t : SearchState = cdvdman_searchfile_init settings drive s in
    on_first (settings.emu_dvddl)
      (find_on_layer fuel settings drive t (92 ∷ path_of dirs file) 0 (t.layer0))
      (find_on_layer fuel settings drive t (92 ∷ path_of dirs file) (drive.layer1_start) (t.layer1))
    ∙ ap (find_on_layer fuel settings drive t (92 ∷ path_of dirs file) 0)
        (init-layer0 settings drive s pvd q)
    ∙ find_on_layer-walk settings drive t 0 (root_at 0 pvd) contents IsDir image root dirs file fuel
        r n x f
  where
    on_first : (b : Bool) (x y : Result CdlFile) → (if b || (0 == 0) then x else y) ≡ x
    on_first true x y = refl
    on_first false x y = refl
