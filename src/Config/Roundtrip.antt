-- ===== src/Config/Roundtrip.antt =====
-- A configuration file that `configWrite` has written is read back.
use opl_future_beta.Base.{
  ℕ, ◌+◌, ◌-◌, ◌<◌, ◌≡◌, ◌≢◌, ◌∙◌, ap, ap₂, refl, sym, true, false, ◌&&◌, List, [], ◌∷◌, ◌++◌,
  Option, none, some, ltb, ◌==◌, if◌then◌else◌, if-elim, length, take_all, take-append,
  length-append, append_assoc, min, arith,
}
use opl_future_beta.Text.{
  Str, drop-append, strchr, strchr-append, first_char, copy_terminated_short,
}
use opl_future_beta.Config.{
  Item, ConfigSet, key_name_len, key_value_len, config_set_str, config_merge, merge_items,
  config_merge,
}
use opl_future_beta.Config.Linked.{All, IsItem, IsLinked}
use opl_future_beta.Config.Lines.{
  is_ws, skip_ws, assigned, overrun, split_assignment, copy_assignment, Reading, composed_key,
  read_line, read_split, read_lines, config_read_lines, config_write, item_line, written_lines,
}

-- A line of a file without its CR and LF.
unfoldable pub line_of : Item → Str
line_of i = i.key ++ 61 ∷ i.val

-- A key that a line can hold: it has no `=`, and does not begin with a space or a tab, or with `#`.
pub record IsKey (key : Str) : Type 0 where
  pub no_equals : strchr key 61 ≡ none
  pub starts : is_ws (first_char key) ≡ false
  pub visible : first_char key ≢ 35
  pub nonempty : first_char key ≢ 0

skip_ws-key :
    (key rest : Str)
    → is_ws (first_char key) ≡ false
    → key ≢ []
    → skip_ws (key ++ rest) ≡ key ++ rest
unfolding skip_ws
skip_ws-key [] rest h n = absurd (n refl)
skip_ws-key (c ∷ key) rest h n = rw h refl

copy_assignment-line :
    (key val : Str) (keymax valmax : ℕ)
    → length key < keymax
    → length val < valmax
    → copy_assignment (key ++ 61 ∷ val) keymax valmax (some (length key))
      ≡ assigned key val (length key + 1)
unfolding copy_assignment
copy_assignment-line key val keymax valmax lk lv =
    let k : min keymax (length key) ≡ length key = omega (arith, lk) in
    let c : length (key ++ 61 ∷ val) - (length key + 1) ≡ length val =
      omega (arith, length-append {0} key (61 ∷ val)) in
    let v : min valmax (length val) ≡ length val = omega (arith, lv) in
    let bk : ltb (length key) keymax ≡ true = ground (arith, lk) in
    let bv : ltb (length val) valmax ≡ true = ground (arith, lv) in
    rw
      (
        k,
        c,
        v,
        bk,
        bv,
        drop-append key val 61,
        take_all (length val) val (omega arith),
        take-append (length key) key (61 ∷ val) (omega arith),
        take_all (length key) key (omega arith),
      )
      refl

split-line :
    (key val : Str) (keymax valmax : ℕ)
    → IsKey key
    → length key < keymax
    → length val < valmax
    → split_assignment (key ++ 61 ∷ val) keymax valmax ≡ assigned key val (length key + 1)
unfolding split_assignment
split-line key val keymax valmax k lk lv =
    ap (λ l. copy_assignment l keymax valmax (strchr l 61))
      (skip_ws-key key (61 ∷ val) (k.starts) (λ e. k.nonempty (ap first_char e)))
    ∙ ap (copy_assignment (key ++ 61 ∷ val) keymax valmax) (strchr-append key val 61 (k.no_equals))
    ∙ copy_assignment-line key val keymax valmax lk lv

first_char-append : (key rest : Str) → key ≢ [] → first_char (key ++ rest) ≡ first_char key
first_char-append [] rest n = absurd (n refl)
first_char-append (c ∷ key) rest n = refl

copy_assignment-overrun :
    (key val : Str) (keymax valmax : ℕ)
    → (ltb (length key) keymax && ltb (length val) valmax) ≡ false
    → copy_assignment (key ++ 61 ∷ val) keymax valmax (some (length key)) ≡ overrun
unfolding copy_assignment
copy_assignment-overrun key val keymax valmax h =
    let c : length (key ++ 61 ∷ val) - (length key + 1) ≡ length val =
      omega (arith, length-append {0} key (61 ∷ val)) in
    let b : (ltb (min keymax (length key)) keymax && ltb (min valmax (length val)) valmax) ≡ false =
      ground (arith, h) in
    simp (c, b) refl

-- For a key that is not empty, has no `=` and does not begin with a space, a tab or `#`:
-- `splitAssignment` finds the key and the value of the line `key=val`, and the offset of the value, when
-- both are shorter than their arrays, and writes behind the end of an array otherwise.
pub split_assignment-line :
    (key val : Str) (keymax valmax : ℕ)
    → IsKey key
    → split_assignment (key ++ 61 ∷ val) keymax valmax ≡ (
        if ltb (length key) keymax && ltb (length val) valmax
        then assigned key val (length key + 1)
        else overrun)
unfolding split_assignment
split_assignment-line key val keymax valmax k =
    if-elim (λ r. split_assignment (key ++ 61 ∷ val) keymax valmax ≡ r)
      (ltb (length key) keymax && ltb (length val) valmax)
      (λ t. split-line key val keymax valmax k (ground (arith, t)) (ground (arith, t)))
      (λ t.
        ap (λ l. copy_assignment l keymax valmax (strchr l 61))
          (skip_ws-key key (61 ∷ val) (k.starts) (λ e. k.nonempty (ap first_char e)))
        ∙ ap (copy_assignment (key ++ 61 ∷ val) keymax valmax)
            (strchr-append key val 61 (k.no_equals))
        ∙ copy_assignment-overrun key val keymax valmax t)

read_split-line :
    (i : Item) (r : Reading) (at : ℕ)
    → IsKey (i.key)
    → read_split r (line_of i) (assigned (i.key) (i.val) at)
      ≡ some (record { set = (config_set_str (r.set) (i.key) (i.val)).1; prefix = [] })
unfolding read_split line_of composed_key
read_split-line i r at k =
    let f = first_char-append (i.key) (61 ∷ i.val) (λ e. k.nonempty (ap first_char e)) in
    rw (f, k.starts) refl

read-line :
    (i : Item) (r : Reading)
    → IsKey (i.key)
    → length (i.key) < key_name_len
    → length (i.val) < key_value_len
    → read_line r (line_of i)
      ≡ some (record { set = (config_set_str (r.set) (i.key) (i.val)).1; prefix = [] })
unfolding read_line line_of
read-line i r k lk lv =
    ap (read_split r (line_of i)) (split-line (i.key) (i.val) key_name_len key_value_len k lk lv)
    ∙ read_split-line i r (length (i.key) + 1) k

abbrev pub lines_of : List Item → List Str
lines_of [] = []
lines_of (i ∷ is) = line_of i ∷ lines_of is

-- The prefix that is left behind.
abbrev left_prefix : Str → List Item → Str
left_prefix prefix [] = prefix
left_prefix prefix (i ∷ is) = []

left_prefix-none : (is : List Item) → left_prefix [] is ≡ []
left_prefix-none [] = refl
left_prefix-none (i ∷ is) = refl

read_lines-line :
    (r next : Reading) (line : Str) (lines : List Str)
    → read_line r line ≡ some next
    → read_lines r (line ∷ lines) ≡ read_lines next lines
unfolding read_lines
read_lines-line r next line lines e = rw (e, read_lines) refl

read_lines-lines_of :
    (n : ℕ) (is : List Item) (r : Reading)
    → All (λ (i : Item). IsKey (i.key)) is
    → All (IsItem n) is
    → read_lines r (lines_of is)
      ≡ some (record { set = merge_items (r.set) is; prefix = left_prefix (r.prefix) is })
unfolding read_lines merge_items
read_lines-lines_of n [] r k f = refl
read_lines-lines_of n (i ∷ is) r k f =
    let s = (config_set_str (r.set) (i.key) (i.val)).1 in
    read_lines-line r _ (line_of i) (lines_of is)
      (read-line i r (k.0) (f.0.short_key) (f.0.short_val))
    ∙ read_lines-lines_of n is (record { set = s; prefix = [] }) (k.1) (f.1)
    ∙ ap (left s) (left_prefix-none is)
  where
    left : ConfigSet → Str → Option Reading
    left s p = some (record { set = merge_items s is; prefix = p })

-- `readFileBuffer` gives the lines without these two bytes.
abbrev pub with_ends : List Str → List Str
with_ends [] = []
with_ends (line ∷ lines) = (line ++ 13 ∷ 10 ∷ []) ∷ with_ends lines

item_line-line_of :
    (i : Item)
    → length (i.key) < key_name_len
    → length (i.val) < key_value_len
    → item_line i ≡ line_of i ++ 13 ∷ 10 ∷ []
unfolding item_line line_of
item_line-line_of i lk lv =
    let a = length-append {0} (i.key) (61 ∷ (i.val ++ 13 ∷ 10 ∷ [])) in
    let b = length-append {0} (i.val) (13 ∷ 10 ∷ []) in
    copy_terminated_short 512 (i.key ++ 61 ∷ (i.val ++ 13 ∷ 10 ∷ [])) (omega (arith, a, b, lk, lv))
    ∙ sym (append_assoc (i.key) (61 ∷ i.val) (13 ∷ 10 ∷ []))

config_read_lines-some :
    (s : ConfigSet) (lines : List Str) (r : Reading)
    → read_lines (record { set = s; prefix = [] }) lines ≡ some r
    → config_read_lines s lines ≡ some (record r.set { modified = false })
unfolding config_read_lines
config_read_lines-some s lines r e = rw (e, config_read_lines) refl

written-lines_of :
    (n : ℕ) (is : List Item)
    → All (λ (i : Item). IsKey (i.key)) is
    → All (IsItem n) is
    → written_lines is ≡ with_ends (lines_of is)
unfolding written_lines
written-lines_of n [] k f = refl
written-lines_of n (i ∷ is) k f =
    let a : (first_char (i.key) == 0) ≡ false = ground (arith, k.0.nonempty) in
    let b : (first_char (i.key) == 35) ≡ false = ground (arith, k.0.visible) in
    simp (a, b)
      (ap₂ ◌∷◌ (item_line-line_of i (f.0.short_key) (f.0.short_val))
        (written-lines_of n is (k.1) (f.1)))

-- For a set with a well formed list, marked as modified, in which no key has a `=` or begins with a
-- space, a tab or `#`, and no key is empty: `configWrite`, where the file opens, writes one line per
-- item, with CR and LF, and reading these lines without their ends into any set is `configMerge` of the
-- written set into it, with `modified` cleared, and no write outside an array.
pub read-write :
    (s d : ConfigSet)
    → IsLinked s
    → s.modified ≡ true
    → All (λ (i : Item). IsKey (i.key)) (s.items)
    → (config_write s true
        ≡ (some (with_ends (lines_of (s.items))), true, record s { modified = false }))
      × (config_read_lines d (lines_of (s.items))
          ≡ some (record (config_merge d s) { modified = false }))
unfolding config_write config_merge
read-write s d v m k = (
  simp m (
      ap (λ (l : List Str). (some l, true, record s { modified = false }))
        (written-lines_of (s.next_id) (s.items) k (v.fits))),
  config_read_lines-some d (lines_of (s.items)) _
      (read_lines-lines_of (s.next_id) (s.items) (record { set = d; prefix = [] }) k (v.fits)),
)
