-- ===== src/DiscSearch/Directory.antt =====
-- What the loops of modules/iopcore/cdvdman/searchfile.c find in a directory, by the list of its entries.
use opl_future_beta.Base.{
  ◌&&◌, ◌||◌, not, bit_and, Bool-cases, Each, take, ℕ, zero, suc, ◌+◌, ◌-◌, ◌*◌, ◌%◌, ◌^◌, ◌≤◌, ◌<◌,
  ◌≡◌, ◌∙◌, ap, ap₂, refl, sym, Bool, true, false, some, List, [], ◌∷◌, ltb, ◌==◌, if◌then◌else◌,
  ◌⊎◌, inl, inr, arith, lt→ltb,
}
use opl_future_beta.Text.{Str, str_eq, strncmp_eq, str_eq_refl, str_eq-eq}
use opl_future_beta.DiscSearch.Toc.{
  Result, missing, got, or_next, Memory, Disc, load, DirTocEntry, toc_entry, stops, at_entry,
  scan_sector, scan_toc,
}

-- An entry that the loop gets over: its length is not 0 and not negative, its name has 1 to 14 bytes.
abbrev pub IsEntry : DirTocEntry → Type 0
IsEntry e = (0 < e.length) × (e.length < 32768) × (0 < e.filename_length) × (e.filename_length ≤ 14)

-- The entries of a sector from a position on: they end with a length of 0, or at byte 2016.
abbrev pub HoldsEntries : Memory → ℕ → List DirTocEntry → Type 0
HoldsEntries mem pos [] = (toc_entry mem pos).length ≡ 0
HoldsEntries mem pos (e ∷ es) =
    (toc_entry mem pos ≡ e)
    × IsEntry e
    × (((2016 ≤ pos + e.length) × (es ≡ []))
        ⊎ ((pos + e.length < 2016) × HoldsEntries mem (pos + e.length) es))

-- A directory of some bytes from a sector on, with the entries of each of its sectors.
abbrev pub HoldsToc : Disc → Memory → (toc_lba toc_length : ℕ) → List (List DirTocEntry) → Type 0
HoldsToc disc mem lba len [] = len ≡ 0
HoldsToc disc mem lba len (es ∷ ess) =
    (0 < len)
    × ((sector : Memory) × (disc lba ≡ some sector) × HoldsEntries (load sector mem) 0 es)
    × HoldsToc disc mem ((lba + 1) % 2 ^ 32) (len - 2048) ess

abbrev pub find_entry : (dirname : Str) (has_slash : Bool) → List DirTocEntry → Result DirTocEntry
find_entry dirname slash [] = missing
find_entry dirname slash (e ∷ es) =
    let rest = find_entry dirname slash es in if stops dirname slash e then got e else rest

abbrev pub find_toc :
    (dirname : Str) (has_slash : Bool) → List (List DirTocEntry) → Result DirTocEntry
find_toc dirname slash [] = missing
find_toc dirname slash (es ∷ ess) =
    or_next (find_entry dirname slash es) (find_toc dirname slash ess)

module _ (dirname : Str) (slash : Bool) where
  module _ (rest : ℕ → Result DirTocEntry) (pos : ℕ) where
    -- The loop's body on an entry that it gets over.
    at_entry-stops :
        (e : DirTocEntry)
        → IsEntry e
        → at_entry dirname slash rest pos e ≡ (
            if stops dirname slash e
            then got e
            else if ltb (pos + e.length) 2016
            then rest (pos + e.length)
            else missing)
    unfolding at_entry
    at_entry-stops e (a, b, c, d) =
        let n : ((e.length) == 0) ≡ false = ground (arith, a) in
        let m : ((e.filename_length) == 0) ≡ false = ground (arith, c) in
        let k : ltb 14 (e.filename_length) ≡ false = ground (arith, d) in
        let w : ltb (e.length) 32768 ≡ true = ground (arith, b) in rw (n, m, k, w) refl

  no_entry :
      (rest : ℕ → Result DirTocEntry) (pos : ℕ) (e : DirTocEntry)
      → e.length ≡ 0
      → at_entry dirname slash rest pos e ≡ missing
  unfolding at_entry
  no_entry rest pos e q = let k : ((e.length) == 0) ≡ true = ground (arith, q) in rw k refl

  abbrev choose :
      (rest : ℕ → Result DirTocEntry) (pos : ℕ) → DirTocEntry → Bool → Result DirTocEntry
  choose rest pos e b = if stops dirname slash e then got e else if b then rest pos else missing

  last_entry :
      (rest : ℕ → Result DirTocEntry) (pos : ℕ) (e : DirTocEntry)
      → IsEntry e
      → 2016 ≤ pos + e.length
      → at_entry dirname slash rest pos e ≡ find_entry dirname slash (e ∷ [])
  last_entry rest pos e i h =
      let b : ltb (pos + e.length) 2016 ≡ false = ground (arith, h) in
      at_entry-stops rest pos e i ∙ ap (choose rest (pos + e.length) e) b

  pub next_entry :
      (rest : ℕ → Result DirTocEntry) (pos : ℕ) (e : DirTocEntry)
      → IsEntry e
      → pos + e.length < 2016
      → at_entry dirname slash rest pos e
        ≡ (if stops dirname slash e then got e else rest (pos + e.length))
  next_entry rest pos e i h =
      let b : ltb (pos + e.length) 2016 ≡ true = lt→ltb (pos + e.length) 2016 h in
      at_entry-stops rest pos e i ∙ ap (choose rest (pos + e.length) e) b

  pub scan_sector-find_entry :
      (es : List DirTocEntry) (fuel pos : ℕ) (mem : Memory)
      → pos < 2016
      → 2017 ≤ fuel + pos
      → HoldsEntries mem pos es
      → scan_sector fuel dirname slash mem pos ≡ find_entry dirname slash es
  unfolding scan_sector
  scan_sector-find_entry es zero pos mem l f h = absurd (omega (arith, l, f))
  scan_sector-find_entry [] (suc fuel) pos mem l f h =
      no_entry (λ p. scan_sector fuel dirname slash mem p) pos (toc_entry mem pos) h
  scan_sector-find_entry (e ∷ es) (suc fuel) pos mem l f (q, i, inl (w, n)) =
      ap (at_entry dirname slash (λ p. scan_sector fuel dirname slash mem p) pos) q
      ∙ last_entry (λ p. scan_sector fuel dirname slash mem p) pos e i w
      ∙ ap (λ xs. find_entry dirname slash (e ∷ xs)) (sym n)
  scan_sector-find_entry (e ∷ es) (suc fuel) pos mem l f (q, i, inr (w, n)) =
      ap (at_entry dirname slash (λ p. scan_sector fuel dirname slash mem p) pos) q
      ∙ next_entry (λ p. scan_sector fuel dirname slash mem p) pos e i w
      ∙ ap (λ r. if stops dirname slash e then got e else r)
          (scan_sector-find_entry es fuel (pos + e.length) mem w (omega (arith, f, i.0)) n)

  pub scan_toc-find_toc :
      (ess : List (List DirTocEntry)) (disc : Disc) (mem : Memory) (fuel lba len : ℕ)
      → len + 2048 * 2018 ≤ 2048 * fuel
      → HoldsToc disc mem lba len ess
      → scan_toc fuel dirname slash disc mem lba len ≡ find_toc dirname slash ess
  unfolding scan_toc
  scan_toc-find_toc ess disc mem zero lba len f h = absurd (omega (arith, f))
  scan_toc-find_toc [] disc mem (suc fuel) lba len f h =
      let k : (len == 0) ≡ true = ground (arith, h) in rw k refl
  scan_toc-find_toc (es ∷ ess) disc mem (suc fuel) lba len f (p, (sector, q, h), hs) =
      let k : (len == 0) ≡ false = ground (arith, p) in
      rw (k, q)
        (ap₂ or_next
          (scan_sector-find_entry es fuel 0 (load sector mem) (omega arith) (omega (arith, f)) h)
          (scan_toc-find_toc ess disc mem fuel ((lba + 1) % 2 ^ 32) (len - 2048)
            (omega (arith, f, p)) hs))

-- Whether an entry has a name, the whole of it, and is a directory where one is wanted.
abbrev pub is_named : (name : Str) (directory : Bool) → DirTocEntry → Bool
is_named name directory e =
    str_eq name (e.filename) && (not directory || not (bit_and (e.file_properties) 2 == 0))

-- The first entry of a name, without the code's comparison of 12 bytes.
abbrev pub find_named : (name : Str) (directory : Bool) → List DirTocEntry → Result DirTocEntry
find_named name directory [] = missing
find_named name directory (e ∷ es) =
    let rest = find_named name directory es in if is_named name directory e then got e else rest

abbrev pub named_toc :
    (name : Str) (directory : Bool) → List (List DirTocEntry) → Result DirTocEntry
named_toc name directory [] = missing
named_toc name directory (es ∷ ess) =
    or_next (find_named name directory es) (named_toc name directory ess)

-- No entry differs from a name only behind the first 12 bytes.
abbrev pub IsWhole : Str → DirTocEntry → Type 0
IsWhole name e = strncmp_eq 12 name (e.filename) ≡ true → name ≡ e.filename

module _ (name : Str) (directory : Bool) where
  compared :
      (e : DirTocEntry)
      → IsWhole name e
      → strncmp_eq 12 name (e.filename) ≡ str_eq name (e.filename)
  unfolding strncmp_eq
  compared e h = elim (Bool-cases (strncmp_eq 12 name (e.filename))) [
    | inl t ↦ t ∙ sym (ap (str_eq name) (sym (h t)) ∙ str_eq_refl name)
    | inr t ↦ elim (Bool-cases (str_eq name (e.filename))) [
      | inl u ↦
          ap (λ x. str_eq (take 12 name) (take 12 x)) (sym (str_eq-eq name (e.filename) u))
          ∙ str_eq_refl (take 12 name)
          ∙ sym u
      | inr u ↦ t ∙ sym u
    ]
  ]

  find_entry-named :
      (es : List DirTocEntry)
      → Each (IsWhole name) es
      → find_entry name directory es ≡ find_named name directory es
  find_entry-named [] h = refl
  find_entry-named (e ∷ es) (h, hs) =
      ap₂
        (λ b r.
          if b && (not directory || not (bit_and (e.file_properties) 2 == 0)) then got e else r)
        (compared e h) (find_entry-named es hs)

  pub find_toc-named :
      (ess : List (List DirTocEntry))
      → Each (Each (IsWhole name)) ess
      → find_toc name directory ess ≡ named_toc name directory ess
  find_toc-named [] h = refl
  find_toc-named (es ∷ ess) (h, hs) = ap₂ or_next (find_entry-named es h) (find_toc-named ess hs)
