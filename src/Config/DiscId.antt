-- ===== src/Config/DiscId.antt =====
-- The disc identifier of a game, `configGetDiscIDBinary` of src/config.c.
use opl_future_beta.Base.{
  ℕ, zero, suc, ◌+◌, ◌*◌, ◌/◌, ◌%◌, ◌<◌, ◌≡◌, ◌∙◌, ap, refl, sym, Bool, true, false, ◌&&◌, ◌||◌,
  leb, ◌-◌, List, [], ◌∷◌, Option, none, some, ltb, if◌then◌else◌, Each, arith, inl, inr,
  Option-cases,
}
use opl_future_beta.Text.{Str, from_hex, to_hex, from_hex-to_hex, from_hex-to_hex_low}
use opl_future_beta.Config.{ConfigSet, config_get_str}

-- `CONFIG_ITEM_DNAS`
abbrev pub config_item_dnas : Str
config_item_dnas = 36 ∷ 68 ∷ 78 ∷ 65 ∷ 83 ∷ []

-- `*cdst = *cdst * 16 + dv` on a `char`, with `cdst` at digit `p`.
abbrev pub add_nibble : (dst : List ℕ) (p dv : ℕ) → List ℕ
add_nibble [] p dv = []
add_nibble (b ∷ dst) zero dv = (b * 16 + dv) % 256 ∷ dst
add_nibble (b ∷ dst) (suc zero) dv = (b * 16 + dv) % 256 ∷ dst
add_nibble (b ∷ dst) (suc (suc p)) dv = b ∷ add_nibble dst p dv

abbrev pub use_digit : (Option ℕ) → (skip stop : List ℕ) → (ℕ → List ℕ) → Bool → List ℕ
use_digit none skip stop go b = skip
use_digit (some dv) skip stop go b = if b then go dv else stop

-- The loops over the text, with `p` digits read: characters that are no digits are skipped.
unfoldable pub disc_id_from : Str → (p : ℕ) → (dst : List ℕ) → List ℕ
disc_id_from [] p dst = dst
disc_id_from (c ∷ gid) p dst =
    use_digit (from_hex c) (disc_id_from gid p dst) dst
      (λ dv. disc_id_from gid (p + 1) (add_nibble dst p dv)) (ltb p 10)

unfoldable pub config_get_disc_id : ConfigSet → List ℕ
unfolding disc_id_from
config_get_disc_id s = elim (config_get_str s config_item_dnas) [
  | none ↦ 0 ∷ 0 ∷ 0 ∷ 0 ∷ 0 ∷ []
  | some gid ↦ disc_id_from gid 0 (0 ∷ 0 ∷ 0 ∷ 0 ∷ 0 ∷ [])
]

-- `0` to `9`, `A` to `F` and `a` to `f`.
abbrev pub is_hex : ℕ → Bool
is_hex c = (leb 48 c && leb c 57) || (leb 65 c && leb c 70) || (leb 97 c && leb c 102)

abbrev pub upper : ℕ → ℕ
upper c = if leb 97 c then c - 32 else c

-- The hexadecimal digits of a text, in upper case.
abbrev pub hex_only : Str → Str
hex_only [] = []
hex_only (c ∷ s) = let rest = hex_only s in if is_hex c then upper c ∷ rest else rest

from_hex-none : (c : ℕ) → from_hex c ≡ none → is_hex c ≡ false
unfolding from_hex
from_hex-none c h = ground (arith, h)

from_hex-some : (c v : ℕ) → from_hex c ≡ some v → is_hex c ≡ true
unfolding from_hex
from_hex-some c v h = ground (arith, h)

from_hex-upper : (c : ℕ) → is_hex c ≡ true → from_hex (upper c) ≡ from_hex c
unfolding from_hex
from_hex-upper c h = ground (arith, h)

abbrev keep : (c : ℕ) → Bool → Str → Str
keep c b s = if b then upper c ∷ s else s

-- Two digits for each byte.
abbrev pub hex_text : List ℕ → Str
hex_text [] = []
hex_text (b ∷ bs) = to_hex (b / 16) ∷ to_hex b ∷ hex_text bs

disc_id-hex_only :
    (s : Str) (p : ℕ) (dst : List ℕ) → disc_id_from s p dst ≡ disc_id_from (hex_only s) p dst
unfolding disc_id_from
disc_id-hex_only [] p dst = refl
disc_id-hex_only (c ∷ s) p dst = elim (Option-cases (from_hex c)) [
  | inl e ↦
      ap
        (λ o.
          use_digit o (disc_id_from s p dst) dst
            (λ dv. disc_id_from s (p + 1) (add_nibble dst p dv)) (ltb p 10))
        e
      ∙ disc_id-hex_only s p dst
      ∙ ap (λ b. disc_id_from (keep c b (hex_only s)) p dst) (sym (from_hex-none c e))
  | inr (v, e) ↦
      ap
        (λ o.
          use_digit o (disc_id_from s p dst) dst
            (λ dv. disc_id_from s (p + 1) (add_nibble dst p dv)) (ltb p 10))
        e
      ∙ ap (λ r. if ltb p 10 then r else dst) (disc_id-hex_only s (p + 1) (add_nibble dst p v))
      ∙ ap
          (λ o.
            use_digit o (disc_id_from (hex_only s) p dst) dst
              (λ dv. disc_id_from (hex_only s) (p + 1) (add_nibble dst p dv)) (ltb p 10))
          (sym (from_hex-upper c (from_hex-some c v e) ∙ e))
      ∙ ap (λ b. disc_id_from (keep c b (hex_only s)) p dst) (sym (from_hex-some c v e))
]

-- One digit.
disc_id-digit :
    (c v p : ℕ) (s : Str) (dst : List ℕ)
    → from_hex c ≡ some v
    → ltb p 10 ≡ true
    → disc_id_from (c ∷ s) p dst ≡ disc_id_from s (p + 1) (add_nibble dst p v)
unfolding disc_id_from
disc_id-digit c v p s dst e h =
    ap
      (λ o.
        use_digit o (disc_id_from s p dst) dst (λ dv. disc_id_from s (p + 1) (add_nibble dst p dv))
          (ltb p 10))
      e
    ∙ ap (λ b. if b then disc_id_from s (p + 1) (add_nibble dst p v) else dst) h

-- The two digits of a byte, the first of them an even one.
disc_id-byte :
    (x p : ℕ) (s : Str) (dst : List ℕ)
    → x < 256
    → ltb p 10 ≡ true
    → ltb (p + 1) 10 ≡ true
    → disc_id_from (to_hex (x / 16) ∷ to_hex x ∷ s) p dst
      ≡ disc_id_from s (p + 1 + 1) (add_nibble (add_nibble dst p (x / 16)) (p + 1) (x % 16))
disc_id-byte x p s dst h k l =
    disc_id-digit (to_hex (x / 16)) (x / 16) p (to_hex x ∷ s) dst
      (from_hex-to_hex (x / 16) (omega (arith, h))) k
    ∙ disc_id-digit (to_hex x) (x % 16) (p + 1) s (add_nibble dst p (x / 16))
        (from_hex-to_hex_low x) l

abbrev nibbles : ℕ → ℕ
nibbles x = ((0 * 16 + x / 16) % 256 * 16 + x % 16) % 256

nibbles_byte : (x : ℕ) → x < 256 → nibbles x ≡ x
nibbles_byte x h = omega (arith, h)

disc_id-end : (dst : List ℕ) → disc_id_from [] 10 dst ≡ dst
unfolding disc_id_from
disc_id-end dst = refl

disc_id-bytes :
    (a b c d e : ℕ)
    → Each (λ x. x < 256) (a ∷ b ∷ c ∷ d ∷ e ∷ [])
    → disc_id_from (hex_text (a ∷ b ∷ c ∷ d ∷ e ∷ [])) 0 (0 ∷ 0 ∷ 0 ∷ 0 ∷ 0 ∷ [])
      ≡ a ∷ b ∷ c ∷ d ∷ e ∷ []
disc_id-bytes a b c d e h =
    disc_id-byte a 0 (hex_text (b ∷ c ∷ d ∷ e ∷ [])) (0 ∷ 0 ∷ 0 ∷ 0 ∷ 0 ∷ []) (h.0) refl refl
    ∙ disc_id-byte b 2 (hex_text (c ∷ d ∷ e ∷ [])) (nibbles a ∷ 0 ∷ 0 ∷ 0 ∷ 0 ∷ []) (h.1.0) refl
        refl
    ∙ disc_id-byte c 4 (hex_text (d ∷ e ∷ [])) (nibbles a ∷ nibbles b ∷ 0 ∷ 0 ∷ 0 ∷ []) (h.1.1.0)
        refl refl
    ∙ disc_id-byte d 6 (hex_text (e ∷ [])) (nibbles a ∷ nibbles b ∷ nibbles c ∷ 0 ∷ 0 ∷ [])
        (h.1.1.1.0) refl refl
    ∙ disc_id-byte e 8 [] (nibbles a ∷ nibbles b ∷ nibbles c ∷ nibbles d ∷ 0 ∷ []) (h.1.1.1.1.0)
        refl refl
    ∙ disc_id-end (nibbles a ∷ nibbles b ∷ nibbles c ∷ nibbles d ∷ nibbles e ∷ [])
    ∙ ap (λ l. nibbles a ∷ nibbles b ∷ nibbles c ∷ nibbles d ∷ l ∷ [])
        (nibbles_byte e (h.1.1.1.1.0))
    ∙ ap (λ l. nibbles a ∷ nibbles b ∷ nibbles c ∷ l ∷ e ∷ []) (nibbles_byte d (h.1.1.1.0))
    ∙ ap (λ l. nibbles a ∷ nibbles b ∷ l ∷ d ∷ e ∷ []) (nibbles_byte c (h.1.1.0))
    ∙ ap (λ l. nibbles a ∷ l ∷ c ∷ d ∷ e ∷ []) (nibbles_byte b (h.1.0))
    ∙ ap (λ l. l ∷ b ∷ c ∷ d ∷ e ∷ []) (nibbles_byte a (h.0))

-- A set whose identifier has the hexadecimal digits of five bytes, each digit in upper or lower case, with any other
-- characters before, between and behind the digits: `configGetDiscIDBinary` gives the five bytes.
pub get_disc_id-hex :
    (s : ConfigSet) (gid : Str) (a b c d e : ℕ)
    → config_get_str s config_item_dnas ≡ some gid
    → Each (λ x. x < 256) (a ∷ b ∷ c ∷ d ∷ e ∷ [])
    → hex_only gid ≡ hex_text (a ∷ b ∷ c ∷ d ∷ e ∷ [])
    → config_get_disc_id s ≡ a ∷ b ∷ c ∷ d ∷ e ∷ []
unfolding config_get_disc_id
get_disc_id-hex s gid a b c d e g h q =
    ap
      (λ o. elim o [
        | none ↦ 0 ∷ 0 ∷ 0 ∷ 0 ∷ 0 ∷ []
        | some gid ↦ disc_id_from gid 0 (0 ∷ 0 ∷ 0 ∷ 0 ∷ 0 ∷ [])
      ])
      g
    ∙ disc_id-hex_only gid 0 (0 ∷ 0 ∷ 0 ∷ 0 ∷ 0 ∷ [])
    ∙ ap (λ t. disc_id_from t 0 (0 ∷ 0 ∷ 0 ∷ 0 ∷ 0 ∷ [])) q
    ∙ disc_id-bytes a b c d e h
