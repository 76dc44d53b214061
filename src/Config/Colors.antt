-- ===== src/Config/Colors.antt =====
-- Colours in a configuration set: `configSetColor`, `configGetColor` and `strToColor` of
-- src/config.c. A colour is an array of three bytes.
use opl_future_beta.Base.{
  ℕ, zero, suc, ◌+◌, ◌*◌, ◌/◌, ◌%◌, ◌<◌, ◌≡◌, ◌∙◌, ap, refl, Bool, true, false, [], ◌∷◌, Option,
  none, some, ◌==◌, if◌then◌else◌, length, arith,
}
use opl_future_beta.Text.{
  Str, str_eq_refl, copy_terminated, from_hex, to_hex, from_hex-to_hex, from_hex-to_hex_low,
}
use opl_future_beta.Config.{ConfigSet, key_name_len, key_validate, config_set_str, config_get_str}
use opl_future_beta.Config.Linked.{IsLinked}
use opl_future_beta.Config.Lookup.{get-set}

pub record Color : Type 0 where
  pub red : ℕ
  pub green : ℕ
  pub blue : ℕ

-- `color[n] = color[n] * 16 + digit`, in a byte.
unfoldable pub add_digit : ℕ → ℕ → Color → Color
add_digit zero digit c = record c { red = (c.red * 16 + digit) % 256 }
add_digit (suc zero) digit c = record c { green = (c.green * 16 + digit) % 256 }
add_digit (suc (suc n)) digit c = record c { blue = (c.blue * 16 + digit) % 256 }

-- The loop of `strToColor`. A digit that is not hexadecimal ends it with the result 0.
unfoldable pub color_digits : Str → ℕ → Color → Bool × Color
color_digits [] n c = (true, c)
color_digits (d ∷ ds) n c =
    let rest = λ (digit : ℕ). color_digits ds ((n + 1) % 3) (add_digit n digit c) in
    elim (from_hex d) [ some digit ↦ rest digit | none ↦ (false, c) ]

-- `strToColor`. The array is cleared before anything is read.
unfoldable pub str_to_color : Str → Bool × Color
str_to_color [] = (false, record { red = 0; green = 0; blue = 0 })
str_to_color (c ∷ digits) =
    let black : Color = record { red = 0; green = 0; blue = 0 } in
    if c == 35
    then (if length digits == 6 then color_digits digits 0 black else (false, black))
    else (false, black)

-- `snprintf("#%02X%02X%02X")` of three bytes: seven characters, which fit `tmp` with the NUL.
unfoldable pub color_text : Color → Str
color_text c =
    35
    ∷ to_hex (c.red / 16)
    ∷ to_hex (c.red)
    ∷ to_hex (c.green / 16)
    ∷ to_hex (c.green)
    ∷ to_hex (c.blue / 16)
    ∷ to_hex (c.blue)
    ∷ []

-- `configSetColor`
unfoldable pub config_set_color : ConfigSet → Str → Color → Bool × ConfigSet
config_set_color s key c = config_set_str s key (color_text c)

-- `configGetColor`, on the array as it stands.
unfoldable pub config_get_color : ConfigSet → Str → Color → Bool × Color
config_get_color s key c = elim (config_get_str s key) [
  | some val ↦ (true, (str_to_color val).1)
  | none ↦ (false, c)
]

-- What the loop makes of the six digits: it takes the digits of one byte for those of three.
abbrev pub dealt : Color → Color
dealt c = record {
  red = c.red / 16 * 16 + c.green % 16;
  green = c.red % 16 * 16 + c.blue / 16;
  blue = c.green / 16 * 16 + c.blue % 16;
}

pub record IsColor (c : Color) : Type 0 where
  pub red_byte : c.red < 256
  pub green_byte : c.green < 256
  pub blue_byte : c.blue < 256

hex_high : (n : ℕ) → n < 256 → from_hex (to_hex (n / 16)) ≡ some (n / 16)
hex_high n h = from_hex-to_hex (n / 16) (omega arith)

color_digits-digit :
    (d digit : ℕ) (ds : Str) (n : ℕ) (c : Color)
    → from_hex d ≡ some digit
    → color_digits (d ∷ ds) n c ≡ color_digits ds ((n + 1) % 3) (add_digit n digit c)
unfolding color_digits
color_digits-digit d digit ds n c h = rw (h, color_digits) refl

digits-dealt :
    (c : Color)
    → IsColor c
    → color_digits [] 0 (
        add_digit 2 (c.blue % 16) (
          add_digit 1 (c.blue / 16) (
            add_digit 0 (c.green % 16) (
              add_digit 2 (c.green / 16) (
                add_digit 1
                  (c.red % 16)
                  (add_digit 0 (c.red / 16) (record { red = 0; green = 0; blue = 0 })))))))
      ≡ (true, dealt c)
unfolding color_digits add_digit
digits-dealt c h = grind (arith, h.red_byte, h.green_byte, h.blue_byte)

str_to_color-color_text : (c : Color) → IsColor c → str_to_color (color_text c) ≡ (true, dealt c)
unfolding str_to_color color_text
str_to_color-color_text c h =
    color_digits-digit _ _ _ 0 _ (hex_high (c.red) (h.red_byte))
    ∙ color_digits-digit _ _ _ 1 _ (from_hex-to_hex_low (c.red))
    ∙ color_digits-digit _ _ _ 2 _ (hex_high (c.green) (h.green_byte))
    ∙ color_digits-digit _ _ _ 0 _ (from_hex-to_hex_low (c.green))
    ∙ color_digits-digit _ _ _ 1 _ (hex_high (c.blue) (h.blue_byte))
    ∙ color_digits-digit _ _ _ 2 _ (from_hex-to_hex_low (c.blue))
    ∙ digits-dealt c h

copy_terminated-color_text : (c : Color) → copy_terminated 256 (color_text c) ≡ color_text c
unfolding copy_terminated color_text
copy_terminated-color_text c = refl

-- After `configSetColor` under a valid key of less than 32 bytes, in a set whose list is well formed,
-- `configGetColor` succeeds and returns for a colour of three bytes the one in which the six
-- hexadecimal digits are dealt out to red, green and blue in turn: red from the high digits of
-- red and the low digit of green, green from the low digit of red and the high digit of blue, blue
-- from the high digit of green and the low digit of blue.
pub get_color-set_color :
    (s : ConfigSet) (key : Str) (c old : Color)
    → IsLinked s
    → key_validate key ≡ true
    → length key < key_name_len
    → IsColor c
    → config_get_color ((config_set_color s key c).1) key old ≡ (true, dealt c)
unfolding config_get_color config_set_color
get_color-set_color s key c old v kv lt h =
    let g = get-set s key (color_text c) key v kv lt kv lt in
    let e = str_eq_refl key in
    let q : config_get_str ((config_set_str s key (color_text c)).1) key
        ≡ some (copy_terminated 256 (color_text c)) =
      g ∙ rw e refl in
    ap
      (λ (o : Option Str). elim o as (λ _. Bool × Color) [
        | some val ↦ (true, (str_to_color val).1)
        | none ↦ (false, old)
      ])
      q
    ∙ ap (λ (r : Bool × Color). (true, r.1))
        (ap str_to_color (copy_terminated-color_text c) ∙ str_to_color-color_text c h)
