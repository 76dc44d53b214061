-- ===== src/Config/Tests.antt =====
-- The theorems on src/config.c at concrete sets.
use opl_future_beta.Base.{
  ◌≡◌, refl, replicate, true, false, List, [], ◌∷◌, none, some, if◌then◌else◌, arith,
}
use opl_future_beta.Text.{Str, from_hex, to_hex, str_eq, strchr, strncmp_eq, copy_terminated}
use opl_future_beta.Config.{
  ConfigSet, config_alloc, key_validate, config_set_str, config_get_str, config_remove_key,
  config_merge, find_item, add_config_value, alloc_config_item, link, link_after, overwrite,
  write_val, remove_loop,
}
use opl_future_beta.Config.Linked.{All, IsLinked}
use opl_future_beta.Config.Keeping.{Change, sets, removes, change, changes, changes-IsLinked}
use opl_future_beta.Config.DiscId.{config_item_dnas, config_get_disc_id, hex_only, get_disc_id-hex}
use opl_future_beta.Config.Files.{
  IsPlain, config_write_file, config_read_file, config_read_buffer, read-write_file,
}
use opl_future_beta.Config.Lookup.{get-set, get-remove}
use opl_future_beta.Config.Colors.{Color, dealt}
use opl_future_beta.Config.Lines.{is_ws}
use opl_future_beta.Config.Roundtrip.{IsKey}

-- The keys `mac` and `vmc`, and two values.
abbrev mac : Str
mac = 109 ∷ 97 ∷ 99 ∷ []

abbrev vmc : Str
vmc = 118 ∷ 109 ∷ 99 ∷ []

abbrev on : Str
on = 111 ∷ 110 ∷ []

abbrev off : Str
off = 111 ∷ 102 ∷ 102 ∷ []

abbrev some_changes : List Change
some_changes = sets mac on ∷ sets vmc off ∷ removes mac ∷ sets mac off ∷ sets vmc on ∷ []

abbrev a_set : ConfigSet
a_set = changes (config_alloc 0 1 none) some_changes

changes-IsLinked_example : IsLinked a_set
changes-IsLinked_example = changes-IsLinked some_changes 0 1 none

key_mac : key_validate mac ≡ true
unfolding key_validate strchr
key_mac = refl

key_vmc : key_validate vmc ≡ true
unfolding key_validate strchr
key_vmc = refl

get-set_example :
    config_get_str ((config_set_str a_set mac on).1) vmc
    ≡ (if str_eq mac vmc then some (copy_terminated 256 on) else config_get_str a_set vmc)
get-set_example =
    get-set a_set mac on vmc (changes-IsLinked some_changes 0 1 none) key_mac (omega arith) key_vmc
      (omega arith)

get-remove_example :
    config_get_str ((config_remove_key a_set vmc).1) mac
    ≡ (if str_eq vmc mac then none else config_get_str a_set mac)
get-remove_example =
    get-remove a_set vmc mac (changes-IsLinked some_changes 0 1 none) key_vmc (omega arith) key_mac
      (omega arith)

abbrev orange : Color
orange = record { red = 255; green = 128; blue = 16 }

-- The colour that comes back is another one.
dealt-orange : dealt orange ≡ record { red = 240; green = 241; blue = 128 }
dealt-orange = refl

mac-IsKey : IsKey mac
unfolding strchr is_ws
mac-IsKey = record {
  no_equals = refl;
  starts = refl;
  visible = omega arith;
  nonempty = omega arith;
}

vmc-IsKey : IsKey vmc
unfolding strchr is_ws
vmc-IsKey = record {
  no_equals = refl;
  starts = refl;
  visible = omega arith;
  nonempty = omega arith;
}

config_code : Unit {0}
unfolding changes change config_alloc config_set_str key_validate strchr find_item strncmp_eq
    add_config_value alloc_config_item link link_after overwrite write_val copy_terminated
    config_remove_key remove_loop
config_code = tt

a_set-keys : All (λ i. IsKey (i.key)) (a_set.items)
unfolding config_code
a_set-keys = (vmc-IsKey, (mac-IsKey, tt))

a_set-modified : a_set.modified ≡ true
unfolding config_code
a_set-modified = refl

lf_code : Unit {0}
unfolding strchr
lf_code = tt

mac_lf : strchr mac 10 ≡ none
unfolding lf_code
mac_lf = refl

vmc_lf : strchr vmc 10 ≡ none
unfolding lf_code
vmc_lf = refl

on_lf : strchr on 10 ≡ none
unfolding lf_code
on_lf = refl

off_lf : strchr off 10 ≡ none
unfolding lf_code
off_lf = refl

a_set-IsPlain : All IsPlain (a_set.items)
unfolding config_code
a_set-IsPlain = (
  record { key_lf = vmc_lf; val_lf = on_lf; key_mark = λ e. omega (arith, e) },
  (record { key_lf = mac_lf; val_lf = off_lf; key_mark = λ e. omega (arith, e) }, tt),
)

-- Through a buffer of eight bytes.
read-write_file_example :
    (file : Str) × (config_write_file (replicate 8 0) a_set true ≡ some file)
    × (config_read_file (some file) a_set
        ≡ some (true, record (config_merge a_set a_set) { modified = false }))
    × (config_read_buffer file a_set
        ≡ some (true, record (config_merge a_set a_set) { modified = false }))
read-write_file_example =
    read-write_file (replicate 8 0) a_set a_set (changes-IsLinked some_changes 0 1 none)
      a_set-modified a_set-keys a_set-IsPlain

-- "AB 01-ff 9 0 7F"
abbrev disc_id : Str
disc_id = 65 ∷ 66 ∷ 32 ∷ 48 ∷ 49 ∷ 45 ∷ 70 ∷ 70 ∷ 32 ∷ 57 ∷ 32 ∷ 48 ∷ 32 ∷ 55 ∷ 70 ∷ []

abbrev with_id : ConfigSet
with_id = (config_set_str (config_alloc 0 1 none) config_item_dnas disc_id).1

get_id : config_get_str with_id config_item_dnas ≡ some disc_id
unfolding config_alloc config_set_str config_get_str key_validate strchr find_item add_config_value
    alloc_config_item link link_after overwrite write_val strncmp_eq copy_terminated
get_id = refl

digits_of_id :
    hex_only disc_id
    ≡ to_hex 10
      ∷ to_hex 171
      ∷ to_hex 0
      ∷ to_hex 1
      ∷ to_hex 15
      ∷ to_hex 255
      ∷ to_hex 9
      ∷ to_hex 144
      ∷ to_hex 7
      ∷ to_hex 127
      ∷ []
unfolding from_hex to_hex
digits_of_id = refl

get_disc_id-hex_example : config_get_disc_id with_id ≡ 171 ∷ 1 ∷ 255 ∷ 144 ∷ 127 ∷ []
get_disc_id-hex_example =
    get_disc_id-hex with_id disc_id 171 1 255 144 127 get_id
      (omega arith, (omega arith, (omega arith, (omega arith, (omega arith, tt))))) digits_of_id
