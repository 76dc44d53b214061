-- ===== src/History/Scanning.antt =====
-- The first loop of `AddHistoryRecord` in src/OSDHistory.c.
use opl_future_beta.Base.{
  ℕ, ◌+◌, ◌-◌, ◌%◌, ◌^◌, ◌<◌, ◌≡◌, ◌∙◌, ap, refl, sym, Bool, true, false, not, ◌&&◌, List, [], ◌∷◌,
  ◌++◌, Option, some, inl, inr, ◌⊎◌, ltb, leb, ◌==◌, if◌then◌else◌, if-elim, Each, Each-mono, arith,
  min,
}
use opl_future_beta.Text.{Str}
use opl_future_beta.History.{
  HistoryEntry, has_name, shifted, next_count, launch_entry, Least, least_step, Scanned, keep_entry,
  launched, scan_entries,
}
use opl_future_beta.History.Names.{
  IsName, IsEntry, Differ, Distinct, Fair, free_bit-Frees, named-c_str, blank-has_name,
}
use opl_future_beta.History.Victim.{least_from}

-- An entry after a launch: it keeps its name, and has the time of the launch. Its count goes up by one to
-- at most 127, or stands at 63 when all bits are set.
pub record IsLaunched (stamp : ℕ) (e e' : HistoryEntry) : Type 0 where
  pub name : e'.name ≡ e.name
  pub stamped : e'.date_stamp ≡ stamp
  pub entry : IsEntry e'
  pub counts :
      (e'.launch_count ≡ min (e.launch_count + 1) 127)
      ⊎ ((e.bitmask ≡ 63) × (e'.launch_count ≡ min (e.launch_count + 1) 63))

-- What a launch gives.
abbrev Launches : (stamp : ℕ) → HistoryEntry → Option (HistoryEntry × List ℕ) → Type 0
Launches stamp e o =
    (e' : HistoryEntry) × (rest : List ℕ) × (o ≡ some (e', rest)) × IsLaunched stamp e e'

next_count-min : (count : ℕ) → next_count count ≡ min (count + 1) 127
next_count-min count = ground arith

-- The entry that a launch writes.
launched-IsLaunched :
    (stamp count mask shift : ℕ) (e : HistoryEntry)
    → IsEntry e
    → mask < 64
    → (count ≡ min (e.launch_count + 1) 127)
      ⊎ ((e.bitmask ≡ 63) × (count ≡ min (e.launch_count + 1) 63))
    → IsLaunched stamp e (record e {
      launch_count = count;
      bitmask = mask;
      shift_amount = shift;
      date_stamp = stamp;
    })
launched-IsLaunched stamp count mask shift e v m c = record {
  name = refl;
  stamped = refl;
  entry = record {
    sized = v.sized;
    ended = v.ended;
    counted = elim c [ inl h ↦ omega (arith, h) | inr (b, h) ↦ omega (arith, h) ];
    masked = m;
  };
  counts = c;
}

launch_entry-Launches :
    (stamp : ℕ) (rands : List ℕ) (e : HistoryEntry)
    → IsEntry e
    → Fair rands
    → Launches stamp e (launch_entry stamp rands e)
unfolding launch_entry
launch_entry-Launches stamp rands e v f =
    if-elim (Launches stamp e) (not (e.bitmask % 64 == 63))
      (λ t.
        if-elim (Launches stamp e) (leb 14 count && (count - 14) % 10 == 0)
          (λ _.
            let m = v.masked in
            let fr = free_bit-Frees (e.bitmask) rands m (ground (arith, t, m)) f in
            (
              record e' {
                launch_count = count;
                shift_amount = fr.value;
                bitmask = e.bitmask + 2 ^ fr.value;
              },
              fr.rest,
              ap (shifted e' count) (fr.frees),
              launched-IsLaunched stamp count (e.bitmask + 2 ^ fr.value) (fr.value) e v (fr.masked)
                  (inl (next_count-min (e.launch_count))),
            ))
          (λ _. (
            record e' { launch_count = count },
            rands,
            refl,
            launched-IsLaunched stamp count (e.bitmask) (e.shift_amount) e v (v.masked)
                (inl (next_count-min (e.launch_count))),
          )))
      (λ t.
        let m = v.masked in
        let all : e.bitmask ≡ 63 = ground (arith, t, m) in
        if-elim (Launches stamp e) (ltb (e.launch_count) 63)
          (λ h. (
            record e' { launch_count = e.launch_count + 1 },
            rands,
            refl,
            launched-IsLaunched stamp (e.launch_count + 1) (e.bitmask) (e.shift_amount) e v m
                (inr (all, ground (arith, h))),
          ))
          (λ h. (
            record e' { launch_count = e.bitmask % 64; shift_amount = 7 },
            rands,
            refl,
            launched-IsLaunched stamp (e.bitmask % 64) (e.bitmask) 7 e v m
                (inr (all, ground (arith, h, all))),
          )))
  where
    e' : HistoryEntry
    e' = record e { date_stamp = stamp }

    count : ℕ
    count = next_count (e.launch_count)

-- No entry has the name.
abbrev pub NotNamed : Str → List HistoryEntry → Type 0
NotNamed name es = Each (λ e. has_name name e ≡ false) es

-- A loop on entries without the name changes none.
scan-NotNamed :
    (name : Str) (stamp : ℕ) (es : List HistoryEntry) (i : ℕ) (least : Least) (is_new : Bool)
    (rands : List ℕ)
    → NotNamed name es
    → scan_entries name stamp es i least is_new rands
      ≡ some
          (record { entries = es; least = least_from i es least; is_new = is_new; rands = rands })
unfolding scan_entries
scan-NotNamed name stamp [] i least is_new rands n = refl
scan-NotNamed name stamp (e ∷ es) i least is_new rands n =
    let step = least_step i e least in
    ap
      (λ b.
        if b
        then launched (λ rands. scan_entries name stamp es (i + 1) step false rands)
            (launch_entry stamp rands e)
        else keep_entry e (scan_entries name stamp es (i + 1) step is_new rands))
      (n.0)
    ∙ ap (keep_entry e) (scan-NotNamed name stamp es (i + 1) step is_new rands (n.1))

-- The entries with one launched.
pub record Relaunched (name : Str) (stamp : ℕ) (es es' : List HistoryEntry) : Type 0 where
  pub front : List HistoryEntry
  pub e : HistoryEntry
  pub e' : HistoryEntry
  pub back : List HistoryEntry
  pub before : es ≡ front ++ e ∷ back
  pub after : es' ≡ front ++ e' ∷ back
  pub named : has_name name e ≡ true
  pub launch : IsLaunched stamp e e'

-- The name of an entry is that of no later one.
Differ-NotNamed :
    (name : Str) (e : HistoryEntry) (es : List HistoryEntry)
    → IsName name
    → Each IsEntry (e ∷ es)
    → has_name name e ≡ true
    → Each (Differ e) es
    → NotNamed name es
Differ-NotNamed name e es n v h d =
    Each-mono es
      (λ e' k. elim k [
        | inl z ↦ blank-has_name name e' n z
        | inr q ↦ ap (λ s. has_name s e') (sym (named-c_str name e n (v.0) h)) ∙ q
      ])
      d

-- What the loop does to a history.
pub record Scans (name : Str) (stamp : ℕ) (es : List HistoryEntry) (i : ℕ) (least : Least)
    (rands : List ℕ) : Type 0 where
  pub s : Scanned
  pub scans : scan_entries name stamp es i least true rands ≡ some s
  pub result :
      (NotNamed name es
        × (s
            ≡ record { entries = es; least = least_from i es least; is_new = true; rands = rands }))
      ⊎ (Relaunched name stamp es (s.entries) × (s.is_new ≡ false))

pub scan_entries-Scans :
    (name : Str) (stamp : ℕ) (es : List HistoryEntry) (i : ℕ) (least : Least) (rands : List ℕ)
    → IsName name
    → Each IsEntry es
    → Distinct es
    → Fair rands
    → Scans name stamp es i least rands
unfolding scan_entries
scan_entries-Scans name stamp [] i least rands n v d f = record {
  s = record { entries = []; least = least; is_new = true; rands = rands };
  scans = refl;
  result = inl (tt, refl);
}
scan_entries-Scans name stamp (e ∷ es) i least rands n v d f =
    by (has_name name e) refl (scan_entries-Scans name stamp es (i + 1) step rands n (v.1) (d.1) f)
      (launch_entry-Launches stamp rands e (v.0) f)
  where
    with_entry : HistoryEntry → Scanned → Scanned
    with_entry e s = record s { entries = e ∷ s.entries }

    step : Least
    step = least_step i e least

    choice : Bool → Option Scanned
    choice b =
        if b
        then launched (λ rands. scan_entries name stamp es (i + 1) step false rands)
            (launch_entry stamp rands e)
        else keep_entry e (scan_entries name stamp es (i + 1) step true rands)

    by :
        (b : Bool)
        → has_name name e ≡ b
        → Scans name stamp es (i + 1) step rands
        → Launches stamp e (launch_entry stamp rands e)
        → Scans name stamp (e ∷ es) i least rands
    by true h ih (e', rest, l, launch) =
        let none_later = Differ-NotNamed name e es n v h (d.0) in
        record {
          s = record {
            entries = e' ∷ es;
            least = least_from (i + 1) es step;
            is_new = false;
            rands = rest;
          };
          scans =
              ap choice h
              ∙ ap (launched (λ rands. scan_entries name stamp es (i + 1) step false rands)) l
              ∙ ap (keep_entry e') (scan-NotNamed name stamp es (i + 1) step false rest none_later);
          result = inr (
            record {
              front = [];
              e = e;
              e' = e';
              back = es;
              before = refl;
              after = refl;
              named = h;
              launch = launch;
            },
            refl,
          );
        }
    by false h ih l = record {
      s = record ih.s { entries = e ∷ ih.s.entries };
      scans = ap choice h ∙ ap (keep_entry e) (ih.scans);
      result = elim (ih.result) [
        | inl (k, q) ↦ inl ((h, k), ap (with_entry e) q)
        | inr (r, q) ↦ inr (
          record {
            front = e ∷ r.front;
            e = r.e;
            e' = r.e';
            back = r.back;
            before = ap (λ l. e ∷ l) (r.before);
            after = ap (λ l. e ∷ l) (r.after);
            named = r.named;
            launch = r.launch;
          },
          q,
        )
      ];
    }
