-- ===== src/DiscFiles/Slots.antt =====
-- Which handle a file gets in `cdvdman_open` of modules/iopcore/cdvdman/ioops.c.
use opl_future_beta.Base.{
  ℕ, suc, ◌≡◌, ◌≢◌, refl, Option, none, some, List, [], ◌∷◌, ltb, if-elim, get_elem?, set, Each,
}
use opl_future_beta.Text.{Str}
use opl_future_beta.DiscSearch.Toc.{Result, running, fault, missing, got}
use opl_future_beta.DiscSearch.Search.{Settings, CdDrive, SearchState, CdlFile, cdvdman_findfile}
use opl_future_beta.DiscFiles.Handles.{
  Fhandle, Opened, opened, enoent, emfile, cdvdman_getfilefreeslot, in_slot, cdvdman_open,
}

-- What an index of `cdvdman_fdhandles` says: the handle there is free, or no handle is.
abbrev pub IsFreeSlot : List Fhandle → Option ℕ → Type 0
IsFreeSlot hs none = Each (λ (h : Fhandle). h.f ≢ none) hs
IsFreeSlot hs (some i) = (h : Fhandle) × (get_elem? hs i ≡ some h) × (h.f ≡ none)

getfilefreeslot-IsFreeSlot : (hs : List Fhandle) → IsFreeSlot hs (cdvdman_getfilefreeslot hs)
unfolding cdvdman_getfilefreeslot
getfilefreeslot-IsFreeSlot [] = tt
getfilefreeslot-IsFreeSlot (h ∷ hs) =
    first (h.f) refl (cdvdman_getfilefreeslot hs) (getfilefreeslot-IsFreeSlot hs)
  where
    clash : {o : Option ℕ} {a : ℕ} → o ≡ some a → o ≡ none → ⊥
    clash e n = cc

    first :
        (o : Option ℕ)
        → h.f ≡ o
        → (r : Option ℕ) → IsFreeSlot hs r
        → IsFreeSlot
            (h ∷ hs)
            (elim o [ none ↦ some 0 | some a ↦ elim r [ none ↦ none | some i ↦ some (suc i) ] ])
    first none e r k = (h, refl, e)
    first (some a) e none k = ((λ n. clash e n), k)
    first (some a) e (some i) k = k

-- What `cdvdman_open` does with the handles: a file that is opened takes a handle that was free, from the start of the
-- file, and no other handle changes; an error changes none, and the error of too many files means that none is free.
abbrev pub Slots : (file : ℕ) → List Fhandle → Result (Opened × List Fhandle) → Type 0
Slots file hs running = Unit
Slots file hs fault = Unit
Slots file hs missing = ⊥
Slots file hs (got (opened i, hs')) =
    IsFreeSlot hs (some i)
    × ((h : Fhandle) × (h.f ≡ some file) × (h.position ≡ 0) × (hs' ≡ set hs i h))
Slots file hs (got (enoent, hs')) = hs' ≡ hs
Slots file hs (got (emfile, hs')) = (hs' ≡ hs) × IsFreeSlot hs none

-- Where the search comes to an end in bounds: opening a file takes a free handle, sets it to the start of the
-- file and changes no other one. An error changes no handle, and the error of too many open files is given
-- only where every handle is in use.
pub cdvdman_open-Slots :
    (fuel : ℕ) (settings : Settings) (drive : CdDrive) (s : SearchState) (file unit : ℕ)
    (filename : Str) (hs : List Fhandle)
    → Slots file hs (cdvdman_open fuel settings drive s file unit filename hs)
unfolding cdvdman_open
cdvdman_open-Slots fuel settings drive s file unit filename hs =
    if-elim (Slots file hs) (ltb unit 2)
      (λ t.
        by_slot (cdvdman_getfilefreeslot hs) (getfilefreeslot-IsFreeSlot hs)
          (cdvdman_findfile fuel settings drive s filename unit))
      (λ t. refl)
  where
    by_slot :
        (o : Option ℕ)
        → IsFreeSlot hs o
        → (r : Result CdlFile) → Slots file hs (in_slot file hs r o)
    by_slot none k r = (refl, k)
    by_slot (some i) k running = tt
    by_slot (some i) k fault = tt
    by_slot (some i) k missing = refl
    by_slot (some i) k (got cd) = (
      k,
      (record { f = some file; lsn = cd.lsn; filesize = cd.size; position = 0 }, refl, refl, refl),
    )
