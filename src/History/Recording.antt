-- ===== src/History/Recording.antt =====
-- What `AddHistoryRecord` of src/OSDHistory.c records.
use opl_future_beta.Base.{
  ℕ, zero, suc, ◌+◌, ◌%◌, ◌<◌, ◌≡◌, ◌≢◌, ◌∙◌, ap, refl, sym, subst, not, ◌&&◌, List, [], ◌∷◌,
  Option, none, some, inl, inr, ◌==◌, if◌then◌else◌, if-elim, length, Each, Each-mono, arith,
  mod_fact,
}
use opl_future_beta.Text.{Str, first_char}
use opl_future_beta.History.{
  max_history_entries, int_max, HistoryEntry, Least, Scanned, blank_slots, slots_used, new_entry,
  write_slot, nth, Recorded, choose_slot, replaced, put_record, record_new, scanned, add_record,
}
use opl_future_beta.History.Names.{IsName, IsEntry, Distinct, Fair}
use opl_future_beta.History.Victim.{least_from, IsLeast, least_from-IsLeast}
use opl_future_beta.History.Scanning.{NotNamed, Relaunched, scan_entries-Scans}

-- The history file: its entries are well formed, and no two of them have the same name.
pub record IsHistory (es : List HistoryEntry) : Type 0 where
  pub sized : length es ≡ max_history_entries
  pub entries : Each IsEntry es
  pub distinct : Distinct es

-- A blank entry in a slot.
abbrev BlankAt : (i : ℕ) → List HistoryEntry → ℕ → Type 0
BlankAt i es slot =
    (k : ℕ) × (e : HistoryEntry) × (slot ≡ i + k) × (nth es k ≡ some e) × (first_char (e.name) ≡ 0)

blank_slots-BlankAt : (i : ℕ) (es : List HistoryEntry) → Each (BlankAt i es) (blank_slots i es)
blank_slots-BlankAt i [] = tt
blank_slots-BlankAt i (e ∷ es) =
    let later : Each (BlankAt i (e ∷ es)) (blank_slots (i + 1) es) =
      Each-mono (blank_slots (i + 1) es)
        (λ slot (k, b, q, n, z). (suc k, b, omega (arith, q), n, z))
        (blank_slots-BlankAt (i + 1) es) in
    if-elim (Each (BlankAt i (e ∷ es))) (first_char (e.name) == 0)
      (λ t. ((0, e, omega arith, refl, ground (arith, t)), later)) (λ t. later)

nth-Each :
    (P : ℕ → Type 0) (xs : List ℕ) (i : ℕ)
    → i < length xs
    → Each P xs
    → (x : ℕ) × (nth xs i ≡ some x) × P x
nth-Each P [] i h v = absurd (omega (arith, h))
nth-Each P (x ∷ xs) zero h v = (x, refl, v.0)
nth-Each P (x ∷ xs) (suc i) h v = nth-Each P xs i (omega (arith, h)) (v.1)

-- The new history: the launched entry, or a new entry in a blank slot, or in the slot of an entry that
-- is launched no more often than any other and goes to the old history where there is no blank slot.
-- Where all 21 slots are used up, the history is left as it is.
pub data Records (name : Str) (stamp : ℕ) (es : List HistoryEntry) (o : Recorded) : Type 0 where
  launches : Relaunched name stamp es (o.entries) → o.old ≡ none → Records name stamp es o
  fills :
      NotNamed name es
      → (slot : ℕ) (e : HistoryEntry) → slots_used es ≢ max_history_entries
      → nth es slot ≡ some e
      → first_char (e.name) ≡ 0
      → o.entries ≡ write_slot (new_entry name stamp) slot es
      → o.old ≡ none
      → Records name stamp es o
  evicts :
      NotNamed name es
      → (slot : ℕ) (v : HistoryEntry) → slots_used es ≢ max_history_entries
      → nth es slot ≡ some v
      → IsLeast es v
      → blank_slots 0 es ≡ []
      → o.entries ≡ write_slot (new_entry name stamp) slot es
      → o.old ≡ some v
      → Records name stamp es o
  used_up :
      NotNamed name es
      → slots_used es ≡ max_history_entries
      → o.entries ≡ es
      → o.old ≡ none
      → Records name stamp es o

abbrev Result : (name : Str) (stamp : ℕ) (es : List HistoryEntry) → Option Recorded → Type 0
Result name stamp es r = (o : Recorded) × (r ≡ some o) × Records name stamp es o

abbrev start : Least
start = record { index = 0; count = int_max; stamp = int_max }

-- The slot that a new record gets.
put-Result :
    (name : Str) (stamp : ℕ) (es : List HistoryEntry) (rands : List ℕ)
    → IsHistory es
    → Fair rands
    → NotNamed name es
    → slots_used es ≢ max_history_entries
    → (blanks : List ℕ) → blank_slots 0 es ≡ blanks
    → Each (BlankAt 0 es) blanks
    → (let slot = choose_slot blanks (least_from 0 es start) rands in
        Result name stamp es (put_record name stamp es (replaced blanks slot es) slot))
unfolding choose_slot
put-Result name stamp [] rands v f n u [] q b = absurd (omega (arith, v.sized))
put-Result name stamp (e ∷ es) rands v f n u [] q b =
    let c : e.launch_count < int_max = omega (arith, (v.entries.0).counted) in
    let (victim, at, least) = least_from-IsLeast e es start c in
    let slot = (least_from 0 (e ∷ es) start).index in
    (
      record { entries = write_slot (new_entry name stamp) slot (e ∷ es); old = nth (e ∷ es) slot },
      refl,
      evicts n slot victim u at least q refl at,
    )
put-Result name stamp es [] v f n u (b ∷ blanks) q all = absurd (f 0 (omega arith))
put-Result name stamp es (r ∷ rands) v f n u (b ∷ blanks) q all =
    let (slot, at, (k, e, p, there, z)) =
      nth-Each (BlankAt 0 es) (b ∷ blanks) (r % length (b ∷ blanks)) (mod_fact r (length blanks))
        all in
    let e' : k ≡ slot = omega (arith, p) in
    (
      record { entries = write_slot (new_entry name stamp) slot es; old = none },
      ap (put_record name stamp es none) at,
      fills n slot e u (ap (nth es) (sym e') ∙ there) z refl refl,
    )

-- For a history of 21 well formed entries with different names, a name of 1 to 15 characters, and results of
-- `rand` that hit every bit: `AddHistoryRecord` returns, and writes the history as `Records` says: the entry
-- of the name is launched, or a new one stands in a blank slot, or in that of an entry launched no more often
-- than any other, which goes to the old history; or all 21 slots are used up and nothing changes.
pub add_record-Records :
    (name : Str) (stamp : ℕ) (rands : List ℕ) (es : List HistoryEntry)
    → IsHistory es
    → IsName name
    → Fair rands
    → (o : Recorded) × (add_record name stamp rands es ≡ some o) × Records name stamp es o
unfolding add_record record_new
add_record-Records name stamp rands es v n f =
    let sc = scan_entries-Scans name stamp es 0 start rands n (v.entries) (v.distinct) f in
    subst (Result name stamp es) (sym (ap (scanned (record_new name stamp)) (sc.scans)))
      (elim (sc.result) [
        | inl (none_named, q) ↦
            subst (λ s. Result name stamp es (record_new name stamp s)) (sym q)
              (if-elim (Result name stamp es) (not (slots_used es == max_history_entries))
                (λ t.
                  put-Result name stamp es rands v f none_named (ground (arith, t))
                    (blank_slots 0 es) refl (blank_slots-BlankAt 0 es))
                (λ t. (
                  record { entries = es; old = none },
                  refl,
                  used_up none_named (ground (arith, t)) refl refl,
                )))
        | inr (r, q) ↦ (
          record { entries = sc.s.entries; old = none },
          ap
              (λ b.
                if b && not (slots_used (sc.s.entries) == max_history_entries)
                then fresh (sc.s)
                else some (record { entries = sc.s.entries; old = none }))
              q,
          launches r refl,
        )
      ])
  where
    fresh : Scanned → Option Recorded
    fresh s =
        let blanks = blank_slots 0 (s.entries) in
        let slot = choose_slot blanks (s.least) (s.rands) in
        put_record name stamp (s.entries) (replaced blanks slot (s.entries)) slot
