-- ===== src/History.antt =====
-- The play history of src/OSDHistory.c: `AddHistoryRecord` on the 21 entries of the history file.
pub mod Names
pub mod Victim
pub mod Scanning
pub mod Recording
pub mod Keeping
pub mod BootPath
mod Tests
use opl_future_beta.Base.{
  ℕ, zero, suc, ◌+◌, ◌-◌, ◌*◌, ◌/◌, ◌%◌, ◌^◌, Bool, true, false, not, ◌&&◌, List, [], ◌∷◌, ◌++◌,
  Option, none, some, ltb, leb, ◌==◌, if◌then◌else◌, length, take, drop, replicate,
}
use opl_future_beta.Text.{Str, strncmp_eq, first_char}

abbrev pub max_history_entries : ℕ
max_history_entries = 21

-- `INT_MAX`
abbrev pub int_max : ℕ
int_max = 2147483647

-- `struct HistoryEntry`: `name` is the 16 bytes of the array.
pub record HistoryEntry : Type 0 where
  pub name : Str
  pub launch_count : ℕ
  pub bitmask : ℕ
  pub shift_amount : ℕ
  pub date_stamp : ℕ

-- A string in an array, up to its NUL.
abbrev pub c_str : Str → Str
c_str [] = []
c_str (c ∷ s) = let rest = c_str s in if c == 0 then [] else c ∷ rest

-- `OSD_HISTORY_SET_DATE` and the getters of src/OSDHistory.h, on 16 bits.
unfoldable pub set_date : (year month date : ℕ) → ℕ
set_date year month date = (year * 2 ^ 9 + month % 16 * 2 ^ 5 + date % 32) % 2 ^ 16

unfoldable pub get_year : ℕ → ℕ
get_year stamp = stamp / 2 ^ 9 % 128

unfoldable pub get_month : ℕ → ℕ
get_month stamp = stamp / 2 ^ 5 % 16

unfoldable pub get_date : ℕ → ℕ
get_date stamp = stamp % 32

-- `!strncmp(entry.name, name, sizeof(entry.name))`
unfoldable pub has_name : Str → HistoryEntry → Bool
has_name name e = strncmp_eq 16 (c_str (e.name)) name

-- `while ((bitmask >> (value = rand() % 6)) & 1)` on what the calls of `rand` return: the value it ends
-- with, and what is left of the list; `none` if the list ends first.
unfoldable pub free_bit : (bitmask : ℕ) → (rands : List ℕ) → Option (ℕ × List ℕ)
free_bit bitmask [] = none
free_bit bitmask (r ∷ rands) =
    let rest = free_bit bitmask rands in
    if bitmask / 2 ^ (r % 6) % 2 == 1 then rest else some (r % 6, rands)

-- `NewLaunchCount`
abbrev pub next_count : ℕ → ℕ
next_count count = if leb 128 (count + 1) then 127 else count + 1

-- The bit is clear, so that `|=` adds it.
abbrev pub shifted :
    HistoryEntry → (count : ℕ) → Option (ℕ × List ℕ) → Option (HistoryEntry × List ℕ)
shifted e count none = none
shifted e count (some (value, rands)) = some (
  record e { launch_count = count; shift_amount = value; bitmask = e.bitmask + 2 ^ value },
  rands,
)

-- What a launch does to the entry of its name.
unfoldable pub launch_entry :
    (stamp : ℕ) (rands : List ℕ) → HistoryEntry → Option (HistoryEntry × List ℕ)
unfolding free_bit
launch_entry stamp rands e =
    let e' = record e { date_stamp = stamp } in
    let count = next_count (e.launch_count) in
    if not (e.bitmask % 64 == 63)
    then (if leb 14 count && (count - 14) % 10 == 0
        then shifted e' count (free_bit (e.bitmask) rands)
        else some (record e' { launch_count = count }, rands))
    else (if ltb (e.launch_count) 63
        then some (record e' { launch_count = e.launch_count + 1 }, rands)
        else some (record e' { launch_count = e.bitmask % 64; shift_amount = 7 }, rands))

-- `LeastUsedRecord` with its launch count and time stamp.
pub record Least : Type 0 where
  pub index : ℕ
  pub count : ℕ
  pub stamp : ℕ

unfoldable pub least_step : (i : ℕ) → HistoryEntry → Least → Least
least_step i e l =
    let l' =
      if ltb (e.launch_count) (l.count)
      then record l { index = i; count = e.launch_count }
      else l in
    if l'.count == e.launch_count && ltb (e.date_stamp) (l'.stamp)
    then record l' { index = i; stamp = e.date_stamp }
    else l'

-- The entries after the first loop, and `IsNewRecord`.
pub record Scanned : Type 0 where
  pub entries : List HistoryEntry
  pub least : Least
  pub is_new : Bool
  pub rands : List ℕ

abbrev pub keep_entry : HistoryEntry → Option Scanned → Option Scanned
keep_entry e none = none
keep_entry e (some s) = some (record s { entries = e ∷ s.entries })

abbrev pub launched : (List ℕ → Option Scanned) → Option (HistoryEntry × List ℕ) → Option Scanned
launched go none = none
launched go (some (e, rands)) = keep_entry e (go rands)

-- The first loop of `AddHistoryRecord`, from entry `i` on.
unfoldable pub scan_entries :
    (name : Str) (stamp : ℕ)
    → List HistoryEntry
    → (i : ℕ) (least : Least) (is_new : Bool) (rands : List ℕ) → Option Scanned
unfolding has_name launch_entry least_step
scan_entries name stamp [] i least is_new rands =
    some (record { entries = []; least = least; is_new = is_new; rands = rands })
scan_entries name stamp (e ∷ es) i least is_new rands =
    let go = λ (new : Bool) (rands : List ℕ).
      scan_entries name stamp es (i + 1) (least_step i e least) new rands in
    if has_name name e
    then launched (go false) (launch_entry stamp rands e)
    else keep_entry e (go is_new rands)

-- `BlankSlotList`, from slot `i` on.
abbrev pub blank_slots : (i : ℕ) → List HistoryEntry → List ℕ
blank_slots i [] = []
blank_slots i (e ∷ es) =
    let rest = blank_slots (i + 1) es in if first_char (e.name) == 0 then i ∷ rest else rest

-- `NumSlotsUsed`
abbrev pub slots_used : List HistoryEntry → ℕ
slots_used [] = 0
slots_used (e ∷ es) =
    let rest = slots_used es in
    if first_char (e.name) == 0 then rest else if e.shift_amount == 7 then rest + 1 else rest

-- A new entry over an old one. `strncpy` with `sizeof(name) - 1` leaves the last byte of the array.
unfoldable pub new_entry : (name : Str) (stamp : ℕ) → HistoryEntry → HistoryEntry
new_entry name stamp e = record {
  name = take 15 (name ++ replicate 15 0) ++ drop 15 (e.name);
  launch_count = 1;
  bitmask = 1;
  shift_amount = 0;
  date_stamp = stamp;
}

abbrev pub write_slot :
    (HistoryEntry → HistoryEntry) → (slot : ℕ) → List HistoryEntry → List HistoryEntry
write_slot f slot [] = []
write_slot f zero (e ∷ es) = f e ∷ es
write_slot f (suc slot) (e ∷ es) = e ∷ write_slot f slot es

abbrev pub nth : {A : Type 0} → List A → ℕ → Option A
nth [] i = none
nth (x ∷ xs) zero = some x
nth (x ∷ xs) (suc i) = nth xs i

-- The history to save, and the record that goes to the old history.
pub record Recorded : Type 0 where
  pub entries : List HistoryEntry
  pub old : Option HistoryEntry

-- The slot of a new record: a blank one that `rand` chooses, or the least used one; `none` if no result of
-- `rand` is left.
unfoldable pub choose_slot : (blanks : List ℕ) → Least → (rands : List ℕ) → Option ℕ
choose_slot [] least rands = some (least.index)
choose_slot (b ∷ blanks) least [] = none
choose_slot (b ∷ blanks) least (r ∷ rands) = nth (b ∷ blanks) (r % length (b ∷ blanks))

abbrev pub replaced : List ℕ → Option ℕ → List HistoryEntry → Option HistoryEntry
replaced [] (some slot) es = nth es slot
replaced [] none es = none
replaced (b ∷ blanks) slot es = none

abbrev pub put_record :
    (name : Str) (stamp : ℕ) → List HistoryEntry → Option HistoryEntry → Option ℕ → Option Recorded
put_record name stamp es old none = none
put_record name stamp es old (some slot) =
    some (record { entries = write_slot (new_entry name stamp) slot es; old = old })

-- The part behind the loop: with no blank slots and 21 used ones nothing is recorded.
unfoldable pub record_new : (name : Str) (stamp : ℕ) → Scanned → Option Recorded
unfolding choose_slot new_entry
record_new name stamp s =
    if s.is_new && not (slots_used (s.entries) == max_history_entries)
    then (let blanks = blank_slots 0 (s.entries) in
        let slot = choose_slot blanks (s.least) (s.rands) in
        put_record name stamp (s.entries) (replaced blanks slot (s.entries)) slot)
    else some (record { entries = s.entries; old = none })

abbrev pub scanned : (Scanned → Option Recorded) → Option Scanned → Option Recorded
scanned f none = none
scanned f (some s) = f s

-- `AddHistoryRecord` on the entries that it has loaded, or cleared.
unfoldable pub add_record :
    (name : Str) (stamp : ℕ) (rands : List ℕ) → List HistoryEntry → Option Recorded
unfolding scan_entries record_new
add_record name stamp rands es = scanned (record_new name stamp) (
    scan_entries name stamp es 0 (record { index = 0; count = int_max; stamp = int_max }) true
      rands)

-- `memset` of the entries to 0, where no history file could be loaded.
abbrev pub clear_history : List HistoryEntry
clear_history = replicate max_history_entries (record {
  name = replicate 16 0;
  launch_count = 0;
  bitmask = 0;
  shift_amount = 0;
  date_stamp = 0;
})

-- A call of `AddHistoryRecord`, with what `GetTimestamp` and `rand` return in it.
pub record Launch : Type 0 where
  pub name : Str
  pub stamp : ℕ
  pub rands : List ℕ

abbrev pub and_then :
    (List HistoryEntry → Option (List HistoryEntry)) → Option Recorded → Option (List HistoryEntry)
and_then f none = none
and_then f (some o) = f (o.entries)

-- Calls of `AddHistoryRecord`, each on the history that the one before it has saved.
unfoldable pub add_records : List Launch → List HistoryEntry → Option (List HistoryEntry)
unfolding add_record
add_records [] es = some es
add_records (l ∷ ls) es = and_then (add_records ls) (add_record (l.name) (l.stamp) (l.rands) es)
