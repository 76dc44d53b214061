-- ===== src/DiscFiles/Opening.antt =====
-- `cdrom_open` and `cdrom_purifyPath` of modules/iopcore/cdvdman/ioops.c.
use opl_future_beta.Base.{
  ℕ, zero, suc, ◌+◌, ◌-◌, ◌^◌, ◌≤◌, ◌<◌, ◌≡◌, ◌∙◌, ap, ap₂, refl, sym, Bool, true, false, ◌&&◌,
  some, List, [], ◌∷◌, ◌++◌, append_assoc, ltb, leb, ◌==◌, if◌then◌else◌, if-elim, length,
  length-append, get_or, set, take, Each, arith,
}
use opl_future_beta.Text.{Str}
use opl_future_beta.DiscSearch.Toc.{Result, fault, got, and_then, DirTocEntry}
use opl_future_beta.DiscSearch.Locate.{as_toc_length}
use opl_future_beta.DiscSearch.Walk.{Contents, AreWhole, walk, IsImage, path_of}
use opl_future_beta.DiscSearch.Trim.{last_byte}
use opl_future_beta.DiscSearch.Search.{
  Settings, CdDrive, SearchState, CdlFile, is_video, cdvdman_findfile,
}
use opl_future_beta.DiscSearch.Found.{IsName, described, searched_layer, cdvdman_findfile-walk}
use opl_future_beta.DiscFiles.Handles.{
  Fhandle, Sectors, Opened, opened, cdvdman_getfilefreeslot, in_slot, cdvdman_open,
  cdrom_purify_path, cdrom_open,
}
use opl_future_beta.DiscFiles.Bytes.{file_bytes}
use opl_future_beta.DiscFiles.Calls.{FileCall, IsCall, calls, file_calls, calls-file_calls}

-- The handle that an open file gets.
abbrev pub handle_of : (file : ℕ) → CdlFile → Fhandle
handle_of file cd = record { f = some file; lsn = cd.lsn; filesize = cd.size; position = 0 }

-- A path that ends in ";1".
abbrev pub HasVersion : Str → Type 0
HasVersion p = (front : Str) × (p ≡ front ++ 59 ∷ 49 ∷ [])

last_two :
    (i : ℕ) (s : Str)
    → length s ≡ suc (suc i)
    → s ≡ take i s ++ get_or s i 0 ∷ get_or s (suc i) 0 ∷ []
last_two zero [] h = absurd (omega (arith, h))
last_two zero (x ∷ []) h = absurd (omega (arith, h))
last_two zero (x ∷ y ∷ []) h = refl
last_two zero (x ∷ y ∷ z ∷ zs) h = absurd (omega (arith, h))
last_two (suc i) [] h = absurd (omega (arith, h))
last_two (suc i) (x ∷ xs) h = ap (λ r. x ∷ r) (last_two i xs (omega (arith, h)))

cdrom_purify_path-HasVersion :
    (i : ℕ) (p : Str) → length p ≡ suc (suc i) → 1 ≤ i → HasVersion (cdrom_purify_path p)
unfolding cdrom_purify_path
cdrom_purify_path-HasVersion i p h l =
    if-elim HasVersion (leb 3 (length p))
      (λ t.
        if-elim HasVersion (get_or p (length p - 2) 0 == 59 && get_or p (length p - 1) 0 == 49)
          (λ t. (
            take i p,
            last_two i p h
                ∙ ap₂ (λ x y. take i p ++ x ∷ y ∷ []) (ap at_index j ∙ ground (arith, t))
                    (ap at_index k ∙ ground (arith, t)),
          ))
          (λ t.
            if-elim HasVersion (get_or p (length p - 1) 0 == 59)
              (λ w. (
                take (suc i) p,
                ap (λ x. x ++ 49 ∷ [])
                      (last_byte (suc i) p h
                        ∙ ap (λ x. take (suc i) p ++ x ∷ []) (ap at_index k ∙ ground (arith, w)))
                    ∙ append_assoc (take (suc i) p) (59 ∷ []) (49 ∷ []),
              ))
              (λ w. (p, refl))))
      (λ t. absurd (ground (arith, t, h, l)))
  where
    at_index : ℕ → ℕ
    at_index n = get_or p n 0

    j : i ≡ length p - 2
    j = omega (arith, h)

    k : suc i ≡ length p - 1
    k = omega (arith, h)

get_or-behind : (front back : Str) → get_or (front ++ back) (length front) 0 ≡ get_or back 0 0
get_or-behind [] back = refl
get_or-behind (x ∷ xs) back = get_or-behind xs back

get_or-second : (front : Str) (x y : ℕ) → get_or (front ++ x ∷ y ∷ []) (suc (length front)) 0 ≡ y
get_or-second [] x y = refl
get_or-second (z ∷ zs) x y = get_or-second zs x y

-- A path with a version is left as it is.
pub purify-HasVersion : (p front : Str) → p ≡ front ++ 59 ∷ 49 ∷ [] → cdrom_purify_path p ≡ p
unfolding cdrom_purify_path
purify-HasVersion p front e = ap cdrom_purify_path e ∙ kept ∙ sym e
  where
    whole : Str
    whole = front ++ 59 ∷ 49 ∷ []

    n : length whole ≡ length front + 2
    n = length-append front (59 ∷ 49 ∷ [])

    j : length whole - 2 ≡ length front
    j = omega (arith, n)

    k : length whole - 1 ≡ suc (length front)
    k = omega (arith, n)

    a : get_or whole (length whole - 2) 0 ≡ 59
    a = ap (λ m. get_or whole m 0) j ∙ get_or-behind front (59 ∷ 49 ∷ [])

    b : get_or whole (length whole - 1) 0 ≡ 49
    b = ap (λ m. get_or whole m 0) k ∙ get_or-second front 59 49

    kept : cdrom_purify_path whole ≡ whole
    kept =
        let both : (get_or whole (length whole - 2) 0 == 59
              && get_or whole (length whole - 1) 0 == 49)
            ≡ true =
          ap₂ (λ x y. x == 59 && y == 49) a b in
        if-elim (λ (r : Str). r ≡ whole) (leb 3 (length whole)) (λ t. rw both refl) (λ t. refl)

-- A path of at least three bytes ends in ";1" once it is purified, and purifying it again leaves it as it is.
pub cdrom_purify_path-version :
    (p : Str)
    → 3 ≤ length p
    → HasVersion (cdrom_purify_path p)
      × (cdrom_purify_path (cdrom_purify_path p) ≡ cdrom_purify_path p)
cdrom_purify_path-version p h =
    let v : HasVersion (cdrom_purify_path p) =
      cdrom_purify_path-HasVersion (length p - 2) p (omega (arith, h)) (omega (arith, h)) in
    (v, purify-HasVersion (cdrom_purify_path p) (v.0) (v.1))

open_found :
    (fuel : ℕ) (settings : Settings) (drive : CdDrive) (s : SearchState) (a unit : ℕ) (path : Str)
    (hs : List Fhandle) (slot : ℕ) (cd : CdlFile)
    → unit < 2
    → cdvdman_findfile fuel settings drive s path unit ≡ got cd
    → cdvdman_getfilefreeslot hs ≡ some slot
    → cdvdman_open fuel settings drive s a unit path hs
      ≡ got (opened slot, set hs slot (handle_of a cd))
unfolding cdvdman_open
open_found fuel settings drive s a unit path hs slot cd u found free =
    let k : ltb unit 2 ≡ true = ground (arith, u) in rw k (ap₂ (in_slot a hs) found free)

-- On an image (as for `cdvdman_findfile-walk`), `cdrom_open` on layer 0 or 1 of a name that becomes the path
-- of a file once it is purified, of at most 127 bytes, gives a free handle, if there is one, at the sector of
-- that file with position 0; and where the size of the file is below 2^31, any sequence of reads of
-- sizes that are not negative and of seeks with that handle gives what it gives on the bytes of the disc
-- from that sector on.
pub cdrom_open-file_calls :
    (settings : Settings) (drive : CdDrive) (s : SearchState) (unit : ℕ) (contents : Contents)
    (IsDir : ℕ → ℕ → Type 0) (name : Str) (dirs : List Str) (file : Str) (fuel : ℕ)
    (e : DirTocEntry) (a slot : ℕ) (hs : List Fhandle) (disc : Sectors) (cs : List FileCall)
    → let info = (searched_layer settings drive s unit).0 in
      let start = (searched_layer settings drive s unit).1 in
      let cd = described settings (92 ∷ path_of dirs file) file start e in
      unit < 2
      → IsImage (drive.read (s.media_lsn_count)) (s.mem) start contents IsDir
      → IsDir (info.root_dirtoc_lba) (as_toc_length (info.root_dirtoc_length))
      → 0 < info.root_dirtoc_lba
      → cdrom_purify_path name ≡ 92 ∷ path_of dirs file
      → length (path_of dirs file) < 127
      → IsName dirs file
      → Each (AreWhole contents IsDir) dirs × AreWhole contents IsDir file
      → 2 ^ 20 + 2019 + length dirs ≤ fuel
      → walk contents start dirs file
          (info.root_dirtoc_lba)
          (as_toc_length (info.root_dirtoc_length))
        ≡ got e
      → e.file_size < 2 ^ 31
      → cdvdman_getfilefreeslot hs ≡ some slot
      → Each IsCall cs
      → (cdrom_open fuel settings drive s a unit name hs
          ≡ got (opened slot, set hs slot (handle_of a cd)))
        × (calls disc cs (handle_of a cd) ≡ file_calls (file_bytes disc (cd.lsn)) (cd.size) cs 0)
unfolding cdrom_open
cdrom_open-file_calls settings drive s unit contents IsDir name dirs file fuel e a slot hs disc cs u
      image root r p l n x f w z q i =
    (
      ap open_path p ∙ rw short (open_found fuel settings drive s a unit path hs slot cd u found q),
      calls-file_calls disc cs (handle_of a cd)
          (omega arith, size_small (settings.skip_videos && is_video path)) i,
    )
  where
    start : ℕ
    start = (searched_layer settings drive s unit).1

    path : Str
    path = 92 ∷ path_of dirs file

    cd : CdlFile
    cd = described settings path file start e

    open_path : Str → Result (Opened × List Fhandle)
    open_path x =
        if ltb (length x) 128 then cdvdman_open fuel settings drive s a unit x hs else fault

    short : ltb (length path) 128 ≡ true
    short = ground (arith, l)

    found : cdvdman_findfile fuel settings drive s path unit ≡ got cd
    found =
        cdvdman_findfile-walk settings drive s unit contents IsDir dirs file fuel image root r n x f
        ∙ ap (λ x. and_then x (λ y. got (described settings path file start y))) w

    size_small : (b : Bool) → (if b then 0 else e.file_size) < 2 ^ 31
    size_small true = omega arith
    size_small false = z
