-- ===== src/FileBuffer.antt =====
-- The file buffers of src/util.c: `file_buffer_t` opened for writing, and for reading lines.
pub mod Writing
pub mod Reading
pub mod Finding
pub mod Rounds
pub mod Scanning
mod Tests
use opl_future_beta.Base.{
  ℕ, zero, suc, ◌+◌, ◌-◌, Bool, true, false, not, ◌&&◌, List, [], ◌∷◌, ◌++◌, Option, none, some,
  ltb, leb, ◌==◌, if◌then◌else◌, length, take, drop,
}
use opl_future_beta.Text.{Str, strchr, first_char}

-- A buffer opened for writing: `memory` is the `size` bytes of `buffer`, `last_ptr` an offset in it, and
-- `file` what `write` has been given.
pub record Writer : Type 0 where
  pub size : ℕ
  pub available : ℕ
  pub memory : Str
  pub last_ptr : ℕ
  pub file : Str

-- `openFileBuffer` with another mode than `O_RDONLY`, where the file opens: `memory` is what `malloc` gives.
unfoldable pub open_writer : (memory : Str) → Writer
open_writer memory = record {
  size = length memory;
  available = 0;
  memory = memory;
  last_ptr = 0;
  file = [];
}

-- `memcpy` to an offset; `none` if it writes behind the end.
unfoldable pub store_bytes : (memory : Str) (at : ℕ) → Str → Option Str
store_bytes memory at bytes =
    if leb (at + length bytes) (length memory)
    then some (take at memory ++ (bytes ++ drop (at + length bytes) memory))
    else none

abbrev pub flush : Writer → Writer
flush w = record w { file = w.file ++ take (w.available) (w.memory); last_ptr = 0; available = 0 }

abbrev pub stored : Writer → ℕ → Option Str → Option Writer
stored w n none = none
stored w n (some memory) =
    some (record w { memory = memory; last_ptr = w.last_ptr + n; available = w.available + n })

-- The copy of `writeFileBuffer` behind its flush.
unfoldable pub put_bytes : Str → Writer → Option Writer
unfolding store_bytes
put_bytes bytes w =
    if ltb (w.size) (length bytes)
    then some (record w { file = w.file ++ bytes })
    else stored w (length bytes) (store_bytes (w.memory) (w.last_ptr) bytes)

-- `writeFileBuffer`; `none` for a write outside the buffer.
unfoldable pub write_file_buffer : Str → Writer → Option Writer
unfolding put_bytes
write_file_buffer bytes w =
    put_bytes bytes
      (if ltb 0 (w.available) && ltb (w.size) (w.available + length bytes) then flush w else w)

unfoldable pub write_all : List Str → Writer → Option Writer
unfolding write_file_buffer
write_all [] w = some w
write_all (bytes ∷ more) w = elim (write_file_buffer bytes w) [
  | none ↦ none
  | some w' ↦ write_all more w'
]

-- `closeFileBuffer` of a buffer for writing: the file it leaves.
unfoldable pub close_writer : Writer → Str
close_writer w = if ltb 0 (w.available) then w.file ++ take (w.available) (w.memory) else w.file

-- A buffer opened for reading. The program reads `buffer` only from `lastPtr` on: `last` is the offset of
-- `lastPtr` and the bytes from there to the NUL, none for NULL. `fd` is what is left of the file, none for
-- -1. The bytes hold no NUL.
pub record Reader : Type 0 where
  pub size : ℕ
  pub available : ℕ
  pub last : Option (ℕ × Str)
  pub fd : Option Str

-- What `readFileBuffer` does: it returns a line, or 0, or moves memory from NULL. `unfinished` is for a
-- loop that has run out of fuel.
pub data Scan : Type 0 where
  line_read : Str → Reader → Scan
  at_end : Reader → Scan
  null_move : Scan
  unfinished : Scan

-- The three bytes of a byte order mark are skipped, other bytes are read again.
abbrev pub skip_bom : Str → Str
skip_bom (a ∷ b ∷ c ∷ rest) = if a == 239 && b == 187 && c == 191 then rest else a ∷ b ∷ c ∷ rest
skip_bom s = s

-- `openFileBuffer` with `O_RDONLY`, on a file that opens: a byte order mark is skipped.
unfoldable pub open_reader : (size : ℕ) (file : Str) → Reader
open_reader size file = record {
  size = size;
  available = 0;
  last = none;
  fd = some (skip_bom file);
}

-- `openFileBufferBuffer`
unfoldable pub open_memory : Str → Reader
open_memory text = record {
  size = length text;
  available = length text;
  last = some (0, text);
  fd = none;
}

-- The buffer within a round of `readFileBuffer`: `lastPtr` is at `offset` and points to `text`, with
-- `lineSize` and the offset of `posLF` from `lastPtr`.
pub record Found : Type 0 where
  pub reader : Reader
  pub offset : ℕ
  pub text : Str
  pub line_size : ℕ
  pub pos_lf : Option ℕ

abbrev pub shift_lf : ℕ → Option ℕ → Option ℕ
shift_lf n none = none
shift_lf n (some k) = some (n + k)

-- The refill of a round, with the `line_size` bytes that have been moved to the start.
unfoldable pub refill : Reader → Str → (line_size : ℕ) → Option Str → Found
refill r kept line_size none = record {
  reader = record r { available = line_size };
  offset = 0;
  text = kept;
  line_size = line_size;
  pos_lf = none;
}
refill r kept line_size (some rest) =
    let n = r.size - line_size - 1 in
    let got = take n rest in
    let total = line_size + length got in
    record {
      reader = record r {
        available = total;
        fd = if r.size == total + 1 then some (drop n rest) else none;
      };
      offset = 0;
      text = kept ++ got;
      line_size = total;
      pos_lf = shift_lf line_size (strchr got 10);
    }

-- A round that starts with `lastPtr` set, by the offset of the next line feed.
abbrev pub locate : Reader → (offset : ℕ) → Str → Option ℕ → Found
locate r offset text (some k) = record {
  reader = r;
  offset = offset;
  text = text;
  line_size = r.available - offset;
  pos_lf = some k;
}
locate r offset text none =
    refill r (take (r.available - offset) text) (r.available - offset) (r.fd)

-- The round up to the line in the buffer, with the `line_size` of the round before; none for a move from NULL.
unfoldable pub find_line : Reader → (line_size : ℕ) → Option (ℕ × Str) → Option Found
unfolding refill
find_line r line_size none = if line_size == 0 then some (refill r [] 0 (r.fd)) else none
find_line r line_size (some (offset, text)) = some (locate r offset text (strchr text 10))

-- The line without its CR: `*(lastPtr + lineSize - 1) == '\r'`.
abbrev pub cut_cr : Str → Str
cut_cr [] = []
cut_cr (c ∷ []) = if c == 13 then [] else c ∷ []
cut_cr (c ∷ d ∷ s) = c ∷ cut_cr (d ∷ s)

abbrev pub line_text : Found → Str
line_text f =
    cut_cr (elim (f.pos_lf) [ some k ↦ take k (f.text) | none ↦ take (f.line_size) (f.text) ])

-- `lastPtr` behind the line, NULL if there is no line feed.
abbrev pub next_last : Found → Option (ℕ × Str)
next_last f = elim (f.pos_lf) [
  | some k ↦ some (f.offset + k + 1, drop (k + 1) (f.text))
  | none ↦ none
]

abbrev pub is_nil : {A : Type 0} → Option A → Bool
is_nil none = true
is_nil (some a) = false

-- The rest of a round, which returns or goes on with the next one.
unfoldable pub use_line : (ℕ → Reader → Scan) → Option Found → Scan
use_line again none = null_move
use_line again (some f) =
    let line = line_text f in
    let next = record f.reader { last = next_last f } in
    if length line == 0 && (f.reader.available == 0 && is_nil (f.reader.fd))
    then at_end (record f.reader { last = some (f.offset, f.text) })
    else if first_char line == 35
    then again (length line) next
    else line_read line next

-- `readFileBuffer`, with the `lineSize` that a round leaves to the next one.
unfoldable pub scan_line : (fuel line_size : ℕ) → Reader → Scan
unfolding find_line use_line
scan_line zero line_size r = unfinished
scan_line (suc fuel) line_size r = use_line (scan_line fuel) (find_line r line_size (r.last))

-- The bytes that the reader has not returned.
abbrev pub left : Reader → ℕ
left r =
    elim (r.last) [ none ↦ 0 | some (offset, text) ↦ length text ]
    + elim (r.fd) [ none ↦ 0 | some rest ↦ length rest ]

-- One call of `readFileBuffer`. Each round but the last one takes a line feed from the text.
unfoldable pub read_file_buffer : Reader → Scan
unfolding scan_line
read_file_buffer r = scan_line (suc (left r)) 0 r

-- How the calls end: with the lines up to the call that returns 0, in a move from NULL, or not yet.
pub data Calls : Type 0 where
  returned : List Str → Calls
  moved_null : Calls
  open_ended : Calls

abbrev pub more : Str → Calls → Calls
more line (returned lines) = returned (line ∷ lines)
more line moved_null = moved_null
more line open_ended = open_ended

-- The lines that the calls return until one returns 0, with at most `calls` further calls.
unfoldable pub read_all : (calls : ℕ) → Reader → Calls
unfolding read_file_buffer
read_all zero r = open_ended
read_all (suc calls) r = elim (read_file_buffer r) [
  | line_read line next ↦ more line (read_all calls next)
  | at_end next ↦ returned []
  | null_move ↦ moved_null
  | unfinished ↦ open_ended
]
