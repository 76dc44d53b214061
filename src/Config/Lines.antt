-- ===== src/Config/Lines.antt =====
-- The lines of a configuration file: `isWS`, `splitAssignment`, `parsePrefix`, the body of the loop of
-- `configReadFileBuffer` and the lines of `configWrite`, of src/config.c.
use opl_future_beta.Base.{
  ℕ, zero, suc, ◌+◌, ◌-◌, Bool, true, false, ◌&&◌, List, [], ◌∷◌, ◌++◌, Option, none, some, ltb,
  ◌==◌, if◌then◌else◌, length, take, drop, min,
}
use opl_future_beta.Text.{Str, strchr, first_char, copy_terminated}
use opl_future_beta.Config.{Item, ConfigSet, key_name_len, key_value_len, config_set_str}

-- `isWS`: a space or a tab.
unfoldable pub is_ws : ℕ → Bool
is_ws c = if c == 32 then true else c == 9

unfoldable pub skip_ws : Str → Str
skip_ws [] = []
skip_ws (c ∷ line) = if is_ws c then skip_ws line else c ∷ line

-- What `splitAssignment` does: the key, the value and its result, or a write outside `key` or `val`.
pub data Split : Type 0 where
  assigned : (key val : Str) (at : ℕ) → Split
  malformed : Split
  overrun : Split

-- The copies of `splitAssignment`, with the offset of the first `=` behind the white space.
unfoldable pub copy_assignment : (line : Str) (keymax valmax : ℕ) → Option ℕ → Split
copy_assignment line keymax valmax none = malformed
copy_assignment line keymax valmax (some at) =
    let keylen = min keymax at in
    let content_len = length line - (at + 1) in
    let vallen = min valmax content_len in
    if ltb keylen keymax && ltb vallen valmax
    then assigned (take keylen line) (take vallen (drop (at + 1) line)) (at + 1)
    else overrun

-- `splitAssignment`
unfoldable pub split_assignment : Str → (keymax valmax : ℕ) → Split
unfolding skip_ws copy_assignment
split_assignment text keymax valmax =
    let line = skip_ws text in copy_assignment line keymax valmax (strchr line 61)

-- What `parsePrefix` does: the new prefix, its result 0, or a write outside `prefix`.
pub data Prefix : Type 0 where
  prefixed : Str → Prefix
  absent : Prefix
  too_long : Prefix

-- `parsePrefix`, on an array of `size` bytes.
unfoldable pub parse_prefix : Str → (size : ℕ) → Prefix
parse_prefix line size = elim (strchr line 58) [
  | some zero ↦ absent
  | some (suc at) ↦ if ltb (suc at) size then prefixed (take (suc at) line) else too_long
  | none ↦ absent
]

-- The array `prefix` and the set while a file is read.
pub record Reading : Type 0 where
  pub set : ConfigSet
  pub prefix : Str

-- `snprintf(composedKey, sizeof(composedKey), "%s_%s", prefix, key)`
unfoldable pub composed_key : (prefix key : Str) → Str
composed_key [] key = key
composed_key (c ∷ prefix) key = copy_terminated key_name_len (c ∷ prefix ++ 95 ∷ key)

-- The loop's body after `splitAssignment`.
unfoldable pub read_split : Reading → (line : Str) → Split → Option Reading
unfolding parse_prefix composed_key
read_split r line (assigned key val at) =
    let prefix = if is_ws (first_char line) then r.prefix else [] in
    some
      (record { set = (config_set_str (r.set) (composed_key prefix key) val).1; prefix = prefix })
read_split r line malformed = elim (parse_prefix line key_name_len) [
  | prefixed prefix ↦ some (record r { prefix = prefix })
  | absent ↦ some r
  | too_long ↦ none
]
read_split r line overrun = none

-- The body of the loop of `configReadFileBuffer`; `none` once a write has gone outside an array.
unfoldable pub read_line : Reading → Str → Option Reading
unfolding split_assignment read_split
read_line r line = read_split r line (split_assignment line key_name_len key_value_len)

unfoldable pub read_lines : Reading → List Str → Option Reading
unfolding read_line
read_lines r [] = some r
read_lines r (line ∷ lines) = elim (read_line r line) [
  | some next ↦ read_lines next lines
  | none ↦ none
]

-- `configReadFileBuffer` on the lines that `readFileBuffer` returns.
unfoldable pub config_read_lines : ConfigSet → List Str → Option ConfigSet
unfolding read_lines
config_read_lines s lines = elim (read_lines (record { set = s; prefix = [] }) lines) [
  | some r ↦ some (record r.set { modified = false })
  | none ↦ none
]

-- A line of `configWrite`, with `line[512]`: key, `=`, value, CR and LF.
unfoldable pub item_line : Item → Str
item_line i = copy_terminated 512 (i.key ++ 61 ∷ (i.val ++ 13 ∷ 10 ∷ []))

-- The text that the loop of `configWrite` writes.
unfoldable pub written_lines : List Item → List Str
unfolding item_line
written_lines [] = []
written_lines (i ∷ is) =
    let rest = written_lines is in
    if first_char (i.key) == 0
    then rest
    else if first_char (i.key) == 35
    then rest
    else item_line i ∷ rest

-- `configWrite`: the lines of the file, where one is written, the result and the set.
-- `opened` is whether `openFileBuffer` gives a buffer.
unfoldable pub config_write : ConfigSet → (opened : Bool) → Option (List Str) × Bool × ConfigSet
unfolding written_lines
config_write s opened =
    if s.modified
    then (if opened
        then (some (written_lines (s.items)), true, record s { modified = false })
        else (none, false, s))
    else (none, true, s)
