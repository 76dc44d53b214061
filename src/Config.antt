-- ===== src/Config.antt =====
-- The configuration sets of src/config.c: a linked list of keys and values, kept in memory and
-- written to and read from text.
pub mod Linked
pub mod Keeping
pub mod Lookup
pub mod Colors
pub mod Lines
pub mod Roundtrip
pub mod DiscId
pub mod Files
mod Tests
use opl_future_beta.Base.{
  ℕ, zero, suc, ◌+◌, ◌-◌, ◌*◌, ◌/◌, ◌%◌, Bool, true, false, not, ◌&&◌, List, [], ◌∷◌, ◌++◌, Option,
  none, some, leb, ltb, ◌==◌, if◌then◌else◌, length, take,
}
use opl_future_beta.Text.{
  Str, str_eq, strncmp_eq, copy_terminated, strchr, first_char, from_hex, to_hex,
}

-- `CONFIG_KEY_NAME_LEN` and `CONFIG_KEY_VALUE_LEN`, the NUL included.
abbrev pub key_name_len : ℕ
key_name_len = 32

abbrev pub key_value_len : ℕ
key_value_len = 256

-- `struct config_value_t`. `id` stands for its address.
pub record Item : Type 0 where
  pub id : ℕ
  pub key : Str
  pub val : Str

-- `config_set_t`. `items` is the list from `head` on, `tail` the address in the field of this name,
-- and `next_id` the address that `malloc` gives next.
pub record ConfigSet : Type 0 where
  pub type : ℕ
  pub items : List Item
  pub tail : Option ℕ
  pub filename : Option Str
  pub modified : Bool
  pub uid : ℕ
  pub next_id : ℕ

-- `configAlloc`, with `currentUID` before it, on 32 bits.
unfoldable pub config_alloc : (current_uid type : ℕ) → Option Str → ConfigSet
config_alloc current_uid type file_name = record {
  type = type;
  items = [];
  tail = none;
  filename = file_name;
  modified = false;
  uid = (current_uid + 1) % 4294967296;
  next_id = 0;
}

-- `configMove`
unfoldable pub config_move : ConfigSet → Str → ConfigSet
config_move s file_name = record s { filename = some file_name }

-- `configKeyValidate`
unfoldable pub key_validate : Str → Bool
key_validate [] = false
key_validate (c ∷ key) = elim (strchr (c ∷ key) 61) [ none ↦ true | some i ↦ false ]

unfoldable pub alloc_config_item : ℕ → Str → Str → Item
alloc_config_item id key val = record {
  id = id;
  key = copy_terminated key_name_len key;
  val = copy_terminated key_value_len val;
}

-- `tail->next = it`: what followed the tail is no longer in the list.
unfoldable pub link_after : ℕ → Item → List Item → List Item
link_after t it [] = []
link_after t it (i ∷ is) = if i.id == t then i ∷ it ∷ [] else i ∷ link_after t it is

unfoldable pub link : Option ℕ → Item → List Item → List Item
unfolding link_after
link none it items = it ∷ []
link (some t) it items = link_after t it items

-- `addConfigValue`
unfoldable pub add_config_value : ConfigSet → Str → Str → ConfigSet
unfolding alloc_config_item link
add_config_value s key val =
    let it = alloc_config_item (s.next_id) key val in
    record s {
      items = link (s.tail) it (s.items);
      tail = some (s.next_id);
      next_id = s.next_id + 1;
    }

-- `getConfigItemForName`
unfoldable pub find_item : Str → List Item → Option Item
find_item name [] = none
find_item name (i ∷ is) = if strncmp_eq key_name_len (i.key) name then some i else find_item name is

-- A write to the value of the item at an address.
unfoldable pub write_val : ℕ → Str → List Item → List Item
write_val id val [] = []
write_val id val (i ∷ is) =
    if i.id == id then record i { val = val } ∷ is else i ∷ write_val id val is

-- A key that begins with `#` leaves `modified` alone.
abbrev pub touch : Str → ConfigSet → ConfigSet
touch key s = if first_char key == 35 then s else record s { modified = true }

-- `configSetStr` on the item found for the key.
unfoldable pub overwrite : ConfigSet → Str → Item → ConfigSet
unfolding write_val
overwrite s value it =
    if strncmp_eq key_value_len (it.val) value
    then s
    else touch (it.key)
        (record s { items = write_val (it.id) (copy_terminated key_value_len value) (s.items) })

unfoldable pub config_set_str : ConfigSet → Str → Str → Bool × ConfigSet
config_set_str s key value =
    if key_validate key
    then (
      true,
      elim (find_item key (s.items)) [
        | some it ↦ overwrite s value it
        | none ↦ touch key (add_config_value s key value)
      ],
    )
    else (false, s)

-- `configGetStr`; `none` for the result 0.
unfoldable pub config_get_str : ConfigSet → Str → Option Str
config_get_str s key =
    if key_validate key
    then elim (find_item key (s.items)) [ none ↦ none | some it ↦ some (it.val) ]
    else none

-- `configGetStrCopy`, into an array of `length` bytes.
unfoldable pub config_get_str_copy : ConfigSet → Str → ℕ → Bool × Str
unfolding config_get_str
config_get_str_copy s key size = elim (config_get_str s key) [
  | some val ↦ (true, copy_terminated size val)
  | none ↦ (false, [])
]

abbrev pub is_tail : ℕ → Option ℕ → Bool
is_tail id none = false
is_tail id (some t) = id == t

-- The loop of `configRemoveKey`: the rest of the list, with the address of the last item kept and
-- the fields `tail` and `modified` as they stand.
unfoldable pub remove_loop :
    Str → List Item → (prev tail : Option ℕ) (modified : Bool) → List Item × Option ℕ × Bool
remove_loop key [] prev tail modified = ([], tail, modified)
remove_loop key (i ∷ is) prev tail modified =
    let cut =
      remove_loop key is prev (if is_tail (i.id) tail then prev else tail)
        (if first_char key == 35 then modified else true) in
    let kept = remove_loop key is (some (i.id)) tail modified in
    if strncmp_eq key_name_len (i.key) key then cut else (i ∷ kept.0, kept.1, kept.2)

-- `configRemoveKey`
unfoldable pub config_remove_key : ConfigSet → Str → Bool × ConfigSet
unfolding remove_loop
config_remove_key s key =
    if key_validate key
    then (let (items, t, m) = remove_loop key (s.items) none (s.tail) (s.modified) in
        (true, record s { items = items; tail = t; modified = m }))
    else (false, s)

-- `configMerge`
unfoldable pub merge_items : ConfigSet → List Item → ConfigSet
merge_items dest [] = dest
merge_items dest (i ∷ is) = merge_items ((config_set_str dest (i.key) (i.val)).1) is

unfoldable pub config_merge : ConfigSet → ConfigSet → ConfigSet
unfolding merge_items
config_merge dest source = merge_items dest (source.items)

-- `configClear`
unfoldable pub config_clear : ConfigSet → ConfigSet
config_clear s = record s { items = []; tail = none; modified = true }
