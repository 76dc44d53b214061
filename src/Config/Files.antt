-- ===== src/Config/Files.antt =====
-- Configuration files: `configRead`, `configReadBuffer` and `configWrite` of src/config.c with the file buffers of
-- src/util.c that they use.
use opl_future_beta.Base.{
  ℕ, ◌+◌, ◌≤◌, ◌≡◌, ◌≢◌, ◌∙◌, ap, refl, sym, Bool, true, false, List, [], ◌∷◌, ◌++◌, Option, none,
  some, ◌==◌, ◌&&◌, if◌then◌else◌, length, length-append, append-nil, append_assoc, arith,
}
use opl_future_beta.Text.{Str, strchr, first_char, unlines}
use opl_future_beta.Config.{Item, ConfigSet, config_merge}
use opl_future_beta.Config.Linked.{All, IsItem, IsLinked}
use opl_future_beta.Config.Lines.{config_read_lines, config_write}
use opl_future_beta.Config.Roundtrip.{line_of, lines_of, IsKey, with_ends, read-write}
use opl_future_beta.FileBuffer.{
  open_writer, write_all, open_reader, open_memory, read_all, skip_bom, Calls, returned, moved_null,
  open_ended, cut_cr, more,
}
use opl_future_beta.FileBuffer.Writing.{closed, concat, write_all-closed}
use opl_future_beta.FileBuffer.Rounds.{shown}
use opl_future_beta.FileBuffer.Scanning.{NoLf, InSize, read_all-file, read_all-memory}

-- `configWrite` on a file that opens or not: the file it leaves, if it writes one without a write outside the
-- buffer. `memory` is the buffer.
unfoldable pub config_write_file : (memory : Str) → ConfigSet → (opened : Bool) → Option Str
config_write_file memory s opened = elim ((config_write s opened).0) [
  | none ↦ none
  | some lines ↦ closed (write_all lines (open_writer memory))
]

abbrev pub with_result : Option ConfigSet → Option (Bool × ConfigSet)
with_result none = none
with_result (some s) = some (true, s)

-- `configReadFileBuffer` on the lines of a buffer; `none` for an access outside the memory.
abbrev pub read_calls : ConfigSet → Calls → Option (Bool × ConfigSet)
read_calls s (returned lines) = with_result (config_read_lines s lines)
read_calls s moved_null = none
read_calls s open_ended = none

-- `configRead`, by the file that opens.
unfoldable pub config_read_file : Option Str → ConfigSet → Option (Bool × ConfigSet)
config_read_file none s = some (false, record s { modified = false })
config_read_file (some file) s = read_calls s (read_all (length file + 2) (open_reader 4096 file))

-- `configReadBuffer`
unfoldable pub config_read_buffer : Str → ConfigSet → Option (Bool × ConfigSet)
config_read_buffer text s = read_calls s (read_all (length text + 2) (open_memory text))

-- What a file needs of an item: no line feed, and no byte order mark in front.
pub record IsPlain (i : Item) : Type 0 where
  pub key_lf : strchr (i.key) 10 ≡ none
  pub val_lf : strchr (i.val) 10 ≡ none
  pub key_mark : first_char (i.key) ≢ 239

strchr-both : (a b : Str) (c : ℕ) → strchr a c ≡ none → strchr b c ≡ none → strchr (a ++ b) c ≡ none
unfolding strchr
strchr-both [] b c h k = k
strchr-both (x ∷ a) b c h k = ground (arith, strchr-both a b c, h, k)

-- The lines with their CR.
abbrev cr_lines : List Item → List Str
cr_lines [] = []
cr_lines (i ∷ is) = (line_of i ++ 13 ∷ []) ∷ cr_lines is

with_ends-unlines : (is : List Item) → concat (with_ends (lines_of is)) ≡ unlines (cr_lines is)
with_ends-unlines [] = refl
with_ends-unlines (i ∷ is) =
    append_assoc (line_of i) (13 ∷ 10 ∷ []) (concat (with_ends (lines_of is)))
    ∙ ap (λ l. line_of i ++ 13 ∷ 10 ∷ l) (with_ends-unlines is)
    ∙ sym (append_assoc (line_of i) (13 ∷ []) (10 ∷ unlines (cr_lines is)))

cut_cr-line : (s : Str) → cut_cr (s ++ 13 ∷ []) ≡ s
cut_cr-line [] = refl
cut_cr-line (c ∷ []) = refl
cut_cr-line (c ∷ d ∷ s) = ap (λ l. c ∷ l) (cut_cr-line (d ∷ s))

first_char-append : (a b : Str) → first_char a ≢ 0 → first_char (a ++ b) ≡ first_char a
first_char-append [] b h = absurd (h refl)
first_char-append (x ∷ a) b h = refl

line_of-first :
    (i : Item) (t : Str) → IsKey (i.key) → first_char (line_of i ++ t) ≡ first_char (i.key)
unfolding line_of
line_of-first i t k =
    ap first_char (append_assoc (i.key) (61 ∷ i.val) t)
    ∙ first_char-append (i.key) (61 ∷ (i.val ++ t)) (k.nonempty)

shown-cr_lines :
    (is : List Item)
    → All (λ (i : Item). IsKey (i.key)) is
    → shown (cr_lines is) [] ≡ returned (lines_of is)
shown-cr_lines [] k = refl
shown-cr_lines (i ∷ is) k =
    let first = ap first_char (sym (append-nil (line_of i))) ∙ line_of-first i [] (k.0) in
    let b : (first_char (line_of i) == 35) ≡ false = ground (arith, first, k.0.visible) in
    ap (λ l. if first_char l == 35 then shown (cr_lines is) [] else more l (shown (cr_lines is) []))
      (cut_cr-line (line_of i))
    ∙ ap (λ b. if b then shown (cr_lines is) [] else more (line_of i) (shown (cr_lines is) [])) b
    ∙ ap (more (line_of i)) (shown-cr_lines is (k.1))

cr_lines-NoLf : (is : List Item) → All IsPlain is → NoLf (cr_lines is)
unfolding line_of strchr
cr_lines-NoLf [] p = tt
cr_lines-NoLf (i ∷ is) p = (
  strchr-both (line_of i) (13 ∷ []) 10
      (strchr-both (i.key) (61 ∷ i.val) 10 (p.0.key_lf) (ground (arith, p.0.val_lf))) refl,
  cr_lines-NoLf is (p.1),
)

cr_lines-InSize : (n : ℕ) (is : List Item) → All (IsItem n) is → InSize 4096 (cr_lines is)
unfolding line_of
cr_lines-InSize n [] f = tt
cr_lines-InSize n (i ∷ is) f = (
  omega (
    arith,
    length-append {0} (line_of i) (13 ∷ []),
    length-append {0} (i.key) (61 ∷ i.val),
    f.0.short_key,
    f.0.short_val,
  ),
  cr_lines-InSize n is (f.1),
)

-- The file does not begin with a byte order mark.
skip_bom-cr_lines :
    (is : List Item)
    → All (λ (i : Item). IsKey (i.key)) is
    → All IsPlain is
    → skip_bom (unlines (cr_lines is)) ≡ unlines (cr_lines is)
skip_bom-cr_lines [] k p = refl
skip_bom-cr_lines (i ∷ is) k p = skip_bom-other (unlines (cr_lines (i ∷ is))) (λ e. p.0.key_mark (
    sym (line_of-first i (13 ∷ 10 ∷ unlines (cr_lines is)) (k.0))
    ∙ ap first_char (sym (append_assoc (line_of i) (13 ∷ []) (10 ∷ unlines (cr_lines is))))
    ∙ e))
  where
    skip_bom-other : (s : Str) → first_char s ≢ 239 → skip_bom s ≡ s
    skip_bom-other [] h = refl
    skip_bom-other (a ∷ []) h = refl
    skip_bom-other (a ∷ b ∷ []) h = refl
    skip_bom-other (a ∷ b ∷ c ∷ s) h =
        let e : (a == 239) ≡ false = ground (arith, h) in
        ap (λ t. if t && b == 187 && c == 191 then s else a ∷ b ∷ c ∷ s) e

lines-length : (is : List Item) → length (cr_lines is) ≤ length (unlines (cr_lines is))
lines-length [] = omega arith
lines-length (i ∷ is) =
    omega (
      arith,
      lines-length is,
      length-append {0} (line_of i ++ 13 ∷ []) (10 ∷ unlines (cr_lines is)),
    )

lf_nil : strchr [] 10 ≡ none
unfolding strchr
lf_nil = refl

-- From a set to a file and back, through the buffers that the program uses: for a set with a well formed list,
-- marked as modified, in which no key or value has a line feed, no key has a `=`, is empty or begins with a space,
-- a tab, `#` or the byte 239, and a buffer of any size: `configWrite` leaves a file, without a write outside the
-- buffer, and `configRead` of that file, and `configReadBuffer` of its bytes, into any set is `configMerge` of the written set
-- into it, with `modified` cleared.
pub read-write_file :
    (memory : Str) (s d : ConfigSet)
    → IsLinked s
    → s.modified ≡ true
    → All (λ (i : Item). IsKey (i.key)) (s.items)
    → All IsPlain (s.items)
    → (file : Str) × (config_write_file memory s true ≡ some file)
      × (config_read_file (some file) d
          ≡ some (true, record (config_merge d s) { modified = false }))
      × (config_read_buffer file d ≡ some (true, record (config_merge d s) { modified = false }))
unfolding config_write_file config_read_file config_read_buffer
read-write_file memory s d v m k p =
    let file = unlines (cr_lines (s.items)) in
    let rw_lines = read-write s d v m k in
    let n = lines-length (s.items) in
    (
      file,
      ap
            (λ r. elim (r.0) [
              | none ↦ none
              | some lines ↦ closed (write_all lines (open_writer memory))
            ])
            (rw_lines.0)
          ∙ write_all-closed memory (with_ends (lines_of (s.items)))
          ∙ ap some (with_ends-unlines (s.items)),
      ap (read_calls d) (
            read_all-file 4096 file (cr_lines (s.items)) [] (length file + 2)
              (skip_bom-cr_lines (s.items) k p ∙ sym (append-nil file)) (cr_lines-NoLf (s.items) p)
              lf_nil (cr_lines-InSize (s.next_id) (s.items) (v.fits)) (omega arith)
              (omega (arith, n))
            ∙ shown-cr_lines (s.items) k)
          ∙ ap with_result (rw_lines.1),
      ap (λ t. read_calls d (read_all (length file + 2) (open_memory t))) (sym (append-nil file))
          ∙ ap (read_calls d) (
              read_all-memory (cr_lines (s.items)) [] (length file + 2) (cr_lines-NoLf (s.items) p)
                lf_nil (omega (arith, n))
              ∙ shown-cr_lines (s.items) k)
          ∙ ap with_result (rw_lines.1),
    )
