-- ===== src/Stream/Reader.antt =====
-- The side that drains the buffer: `ReadSectors` and `ReadSectorsEE` of
-- modules/iopcore/cdvdman/streaming.c. A `maxcount` is a non-negative `int`.
use opl_future_beta.Base.{ℕ, ◌+◌, ◌-◌, ◌^◌, List, ◌++◌, ◌&&◌, ltb, leb, take, drop, if◌then◌else◌}
use opl_future_beta.Stream.State.{u16, Stream, Drive}
use opl_future_beta.Stream.Fill.{Wake, wakes}

-- `if (SectorsToCopy > maxcount) SectorsToCopy = maxcount;` on an `unsigned short`.
unfoldable pub clamp : ℕ → ℕ → ℕ
clamp sectors maxcount = if ltb maxcount sectors then u16 maxcount else sectors

-- A copy of `count` sectors, which steps the read pointer round the buffer.
unfoldable pub next_ptr : ℕ → ℕ → ℕ → ℕ
next_ptr cap ptr count = if leb cap (u16 (ptr + count)) then 0 else u16 (ptr + count)

abbrev pub slice : List ℕ → ℕ → ℕ → List ℕ
slice buf i n = take n (drop i buf)

-- The sectors to copy while the stored part goes round the end of the buffer; 0 for none.
unfoldable pub upper_count : Stream → ℕ → ℕ
unfolding clamp
upper_count s maxcount =
    if leb (s.write_ptr) (s.read_ptr) && ltb 0 (s.streamed)
    then clamp (u16 (s.buf_max + 2 ^ 16 - s.read_ptr)) maxcount
    else 0

-- The sectors to copy after that, from `rdptr`, with `done` sectors copied.
unfoldable pub lower_count : Stream → ℕ → ℕ → ℕ → ℕ
unfolding clamp
lower_count s rdptr done maxcount =
    if ltb done maxcount && ltb rdptr (s.write_ptr)
    then clamp (u16 (s.write_ptr + 2 ^ 16 - rdptr)) (maxcount - done)
    else 0

-- `StReadPtr` moves on and `StStreamed` falls by the sectors copied.
unfoldable pub drain : ℕ → Stream → Stream
unfolding next_ptr
drain count s =
    if ltb 0 count
    then record s {
      read_ptr = next_ptr (s.buf_max) (s.read_ptr) count;
      streamed = u16 (s.streamed + 2 ^ 16 - count);
    }
    else s

-- `ReadSectors`: what is copied out, and the stream after it.
unfoldable pub read_sectors : ℕ → Stream → List ℕ × Stream
read_sectors maxcount s =
    let n = upper_count s maxcount in
    let s' = drain n s in
    let m = lower_count s' (s'.read_ptr) n maxcount in
    (slice (s.buf) (s.read_ptr) n ++ slice (s'.buf) (s'.read_ptr) m, drain m s')

-- The transfers that `ReadSectorsEE` has prepared when it enables interrupts: `first` sectors at
-- `first_ptr`, then `second` sectors at `second_ptr`, and the read pointer to be stored.
pub record Plan : Type 0 where
  pub first_ptr : ℕ
  pub first : ℕ
  pub second_ptr : ℕ
  pub second : ℕ
  pub rdptr : ℕ

-- `rdptr` after a copy of `count` sectors.
unfoldable pub step_ptr : ℕ → ℕ → ℕ → ℕ
unfolding next_ptr
step_ptr cap ptr count = if ltb 0 count then next_ptr cap ptr count else ptr

unfoldable pub plan : ℕ → Stream → Plan
plan maxcount s =
    let n = upper_count s maxcount in
    let mid = step_ptr (s.buf_max) (s.read_ptr) n in
    let m = lower_count s mid n maxcount in
    record {
      first_ptr = s.read_ptr;
      first = n;
      second_ptr = mid;
      second = m;
      rdptr = step_ptr (s.buf_max) mid m;
    }

-- What the DMA transfers of a plan read from the buffer.
unfoldable pub transfer : Plan → Stream → List ℕ
transfer p s = slice (s.buf) (p.first_ptr) (p.first) ++ slice (s.buf) (p.second_ptr) (p.second)

-- "Finally, update variables."
unfoldable pub commit : Plan → Stream → Stream
commit p s =
    if ltb 0 (p.first + p.second)
    then record s {
      read_ptr = p.rdptr;
      streamed = u16 (s.streamed + 2 ^ 16 - (p.first + p.second));
    }
    else s

-- `ReadSectorsEE`, with what happens between the plan and the transfer, and between the transfer and
-- the update.
unfoldable pub read_sectors_ee : (ℕ → ℕ) → List Wake → List Wake → ℕ → Drive → List ℕ × Drive
read_sectors_ee disc before after maxcount d =
    let p = plan maxcount (d.stm) in
    let d1 = wakes disc before d in
    let d2 = wakes disc after d1 in (transfer p (d1.stm), record d2 { stm = commit p (d2.stm) })
