-- ===== src/History/Keeping.antt =====
-- The history file that the calls of `AddHistoryRecord` of src/OSDHistory.c keep.
use opl_future_beta.Base.{
  ℕ, zero, suc, ◌≡◌, ◌∙◌, ap, refl, sym, subst, false, List, [], ◌∷◌, ◌++◌, some, inl, inr, length,
  take, replicate, Each, Each-mono, arith,
}
use opl_future_beta.Text.{Str, str_eq, strncmp_eq, first_char}
use opl_future_beta.History.{
  max_history_entries, HistoryEntry, c_str, has_name, new_entry, write_slot, Recorded,
  clear_history, Launch, and_then, add_records,
}
use opl_future_beta.History.Names.{
  IsName, IsEntry, Differ, Distinct, Fair, str_eq_sym, new_entry-name, new_entry-IsEntry,
}
use opl_future_beta.History.Scanning.{NotNamed, Relaunched}
use opl_future_beta.History.Recording.{
  IsHistory, Records, launches, fills, evicts, used_up, add_record-Records,
}

length-write_slot :
    (f : HistoryEntry → HistoryEntry) (slot : ℕ) (es : List HistoryEntry)
    → length (write_slot f slot es) ≡ length es
length-write_slot f slot [] = refl
length-write_slot f zero (e ∷ es) = refl
length-write_slot f (suc slot) (e ∷ es) = ap (λ n. suc n) (length-write_slot f slot es)

Each-write_slot :
    (P Q : HistoryEntry → Type 0) (f : HistoryEntry → HistoryEntry) (slot : ℕ)
    (es : List HistoryEntry)
    → ((e : HistoryEntry) → P e → Q (f e))
    → Each P es
    → Each Q es
    → Each Q (write_slot f slot es)
Each-write_slot P Q f slot [] h p q = tt
Each-write_slot P Q f zero (e ∷ es) h p q = (h e (p.0), q.1)
Each-write_slot P Q f (suc slot) (e ∷ es) h p q = (q.0, Each-write_slot P Q f slot es h (p.1) (q.1))

-- A new entry differs from the entries that do not have its name.
differs-new :
    (name : Str) (stamp : ℕ) (x e : HistoryEntry)
    → IsName name
    → IsEntry e
    → has_name name x ≡ false
    → Differ x (new_entry name stamp e)
unfolding has_name strncmp_eq
differs-new name stamp x e n v h = inr (
    ap (λ s. str_eq (take 16 s) (take 16 (c_str (x.name)))) (new_entry-name name stamp e n v)
    ∙ str_eq_sym (take 16 name) (take 16 (c_str (x.name)))
    ∙ h)

new-differs :
    (name : Str) (stamp : ℕ) (x e : HistoryEntry)
    → IsName name
    → IsEntry e
    → has_name name x ≡ false
    → Differ (new_entry name stamp e) x
new-differs name stamp x e n v h =
    inr (ap (λ s. has_name s x) (new_entry-name name stamp e n v) ∙ h)

Distinct-write_slot :
    (name : Str) (stamp slot : ℕ) (es : List HistoryEntry)
    → IsName name
    → Each IsEntry es
    → NotNamed name es
    → Distinct es
    → Distinct (write_slot (new_entry name stamp) slot es)
Distinct-write_slot name stamp slot [] n v m d = tt
Distinct-write_slot name stamp zero (e ∷ es) n v m d =
    (Each-mono es (λ x h. new-differs name stamp x e n (v.0) h) (m.1), d.1)
Distinct-write_slot name stamp (suc slot) (e ∷ es) n v m d = (
  Each-write_slot IsEntry (Differ e) (new_entry name stamp) slot es
      (λ x k. differs-new name stamp e x n k (m.0)) (v.1) (d.0),
  Distinct-write_slot name stamp slot es n (v.1) (m.1) (d.1),
)

-- A new entry in a slot.
write_slot-IsHistory :
    (name : Str) (stamp slot : ℕ) (es : List HistoryEntry)
    → IsName name
    → IsHistory es
    → NotNamed name es
    → IsHistory (write_slot (new_entry name stamp) slot es)
write_slot-IsHistory name stamp slot es n v m = record {
  sized = length-write_slot (new_entry name stamp) slot es ∙ v.sized;
  entries =
      Each-write_slot IsEntry IsEntry (new_entry name stamp) slot es
        (λ e k. new_entry-IsEntry name stamp e k) (v.entries) (v.entries);
  distinct = Distinct-write_slot name stamp slot es n (v.entries) m (v.distinct);
}

Each-exchange :
    (P : HistoryEntry → Type 0) (front back : List HistoryEntry) (e e' : HistoryEntry)
    → (P e → P e')
    → Each P (front ++ e ∷ back)
    → Each P (front ++ e' ∷ back)
Each-exchange P [] back e e' h v = (h (v.0), v.1)
Each-exchange P (x ∷ front) back e e' h v = (v.0, Each-exchange P front back e e' h (v.1))

renamed-differs : (x e e' : HistoryEntry) → e'.name ≡ e.name → Differ x e → Differ x e'
unfolding has_name
renamed-differs x e e' q (inl z) = inl (ap first_char q ∙ z)
renamed-differs x e e' q (inr h) = inr (ap (λ s. strncmp_eq 16 (c_str s) (c_str (x.name))) q ∙ h)

Distinct-exchange :
    (front back : List HistoryEntry) (e e' : HistoryEntry)
    → e'.name ≡ e.name
    → Distinct (front ++ e ∷ back)
    → Distinct (front ++ e' ∷ back)
Distinct-exchange [] back e e' q d = (
  Each-mono back
      (λ x k. elim k [ inl z ↦ inl z | inr h ↦ inr (ap (λ s. has_name (c_str s) x) q ∙ h) ]) (d.0),
  d.1,
)
Distinct-exchange (x ∷ front) back e e' q d = (
  Each-exchange (Differ x) front back e e' (renamed-differs x e e' q) (d.0),
  Distinct-exchange front back e e' q (d.1),
)

length-exchange :
    (front back : List HistoryEntry) (e e' : HistoryEntry)
    → length (front ++ e' ∷ back) ≡ length (front ++ e ∷ back)
length-exchange [] back e e' = refl
length-exchange (x ∷ front) back e e' = ap (λ n. suc n) (length-exchange front back e e')

Relaunched-IsHistory :
    (name : Str) (stamp : ℕ) (es es' : List HistoryEntry)
    → Relaunched name stamp es es'
    → IsHistory es
    → IsHistory es'
Relaunched-IsHistory name stamp es es' r v =
    let b = r.before in
    subst IsHistory (sym (r.after)) (record {
      sized = length-exchange (r.front) (r.back) (r.e) (r.e') ∙ ap length (sym b) ∙ v.sized;
      entries =
          Each-exchange IsEntry (r.front) (r.back) (r.e) (r.e') (λ _. (r.launch).entry)
            (subst (Each IsEntry) b (v.entries));
      distinct =
          Distinct-exchange (r.front) (r.back) (r.e) (r.e') ((r.launch).name)
            (subst Distinct b (v.distinct));
    })

Records-IsHistory :
    (name : Str) (stamp : ℕ) (es : List HistoryEntry) (o : Recorded)
    → IsName name
    → IsHistory es
    → Records name stamp es o
    → IsHistory (o.entries)
Records-IsHistory name stamp es o n v (launches r q) =
    Relaunched-IsHistory name stamp es (o.entries) r v
Records-IsHistory name stamp es o n v (fills m slot e u at z q k) =
    subst IsHistory (sym q) (write_slot-IsHistory name stamp slot es n v m)
Records-IsHistory name stamp es o n v (evicts m slot e u at l b q k) =
    subst IsHistory (sym q) (write_slot-IsHistory name stamp slot es n v m)
Records-IsHistory name stamp es o n v (used_up m u q k) = subst IsHistory (sym q) v

-- Names that fit, and enough results of `rand`.
abbrev pub IsLaunch : Launch → Type 0
IsLaunch l = IsName (l.name) × Fair (l.rands)

add_records-kept :
    (ls : List Launch) (es : List HistoryEntry)
    → Each IsLaunch ls
    → IsHistory es
    → (es' : List HistoryEntry) × (add_records ls es ≡ some es') × IsHistory es'
unfolding add_records
add_records-kept [] es h v = (es, refl, v)
add_records-kept (l ∷ ls) es h v =
    let (o, q, k) = add_record-Records (l.name) (l.stamp) (l.rands) es v (h.0.0) (h.0.1) in
    let (es', r, v') =
      add_records-kept ls (o.entries) (h.1)
        (Records-IsHistory (l.name) (l.stamp) es o (h.0.0) v k) in
    (es', ap (and_then (add_records ls)) q ∙ r, v')

Each-replicate :
    (P : HistoryEntry → Type 0) (n : ℕ) (e : HistoryEntry) → P e → Each P (replicate n e)
Each-replicate P zero e h = tt
Each-replicate P (suc n) e h = (h, Each-replicate P n e h)

Distinct-blank : (n : ℕ) (e : HistoryEntry) → first_char (e.name) ≡ 0 → Distinct (replicate n e)
Distinct-blank zero e z = tt
Distinct-blank (suc n) e z = (Each-replicate (Differ e) n e (inl z), Distinct-blank n e z)

pub clear-IsHistory : IsHistory clear_history
clear-IsHistory =
    let blank : HistoryEntry = record {
      name = replicate 16 0;
      launch_count = 0;
      bitmask = 0;
      shift_amount = 0;
      date_stamp = 0;
    } in
    record {
      sized = refl;
      entries =
          Each-replicate IsEntry max_history_entries blank
            (record { sized = refl; ended = refl; counted = omega arith; masked = omega arith });
      distinct = Distinct-blank max_history_entries blank refl;
    }

-- Any number of launches of names of 1 to 15 characters, on a memory card without a history: every call
-- returns, and the history always has 21 well formed entries, launch counts of at most 127, and no two entries
-- of the same name.
pub add_records-IsHistory :
    (ls : List Launch)
    → Each IsLaunch ls
    → (es : List HistoryEntry) × (add_records ls clear_history ≡ some es) × IsHistory es
add_records-IsHistory ls h = add_records-kept ls clear_history h clear-IsHistory
