-- ===== src/Stream/Invariant.antt =====
-- The representation invariant of a stream and of the drive that fills it.
use opl_future_beta.Base.{
  ℕ, ◌+◌, ◌-◌, ◌%◌, ◌^◌, ◌≤◌, ◌<◌, ◌≡◌, ◌⊎◌, true, false, ltb, get_or, length, if◌then◌else◌,
}
use opl_future_beta.Stream.State.{u32, Stream, Drive, ring, game}

-- An index of the buffer, for one that has gone round it at most once.
abbrev pub ring_index : ℕ → ℕ → ℕ
ring_index cap k = if ltb k cap then k else k - cap

-- The counters of a stream: the stored sectors start at the read pointer, reach the write pointer,
-- and the write pointer stands at the start of a bank.
pub record IsRing (s : Stream) : Type 0 where
  pub banks : 0 < s.bank_size
  pub small : s.buf_max < 2 ^ 16
  pub room : s.buf_max ≤ length (s.buf)
  pub whole : s.buf_max % s.bank_size ≡ 0
  pub aligned : s.write_ptr % s.bank_size ≡ 0
  pub read_in : s.read_ptr < s.buf_max
  pub write_in : s.write_ptr < s.buf_max
  pub stored : s.streamed ≤ s.buf_max
  pub linked : s.write_ptr ≡ ring_index (s.buf_max) (s.read_ptr + s.streamed)

-- The stored sectors are those of the disc from `pos` on, and the next bank to be read is the one
-- after them.
pub record Holds (disc : ℕ → ℕ) (pos : ℕ) (s : Stream) : Type 0 where
  pub shape : IsRing s
  pub next_lsn : s.lsn ≡ u32 (pos + s.streamed)
  pub held :
      (i : ℕ)
      → i < s.streamed
      → get_or (s.buf) (ring_index (s.buf_max) (s.read_ptr + i)) 0 ≡ disc (u32 (pos + i))

-- The free bank at the write pointer holds the sectors that come next.
pub record IsLanded (disc : ℕ → ℕ) (pos : ℕ) (s : Stream) : Type 0 where
  pub free : s.streamed + s.bank_size ≤ s.buf_max
  pub bank :
      (j : ℕ)
      → j < s.bank_size
      → get_or (s.buf) (s.write_ptr + j) 0 ≡ disc (u32 (pos + (s.streamed + j)))

-- The read in progress fills the free bank at the write pointer.
pub record IsFilling (d : Drive) : Type 0 where
  pub locked : d.sync_flag ≡ true
  pub into : d.cdread_buf ≡ ring (d.stm.write_ptr)
  pub from : d.cdread_lba ≡ d.stm.lsn
  pub count : d.cdread_sectors ≡ d.stm.bank_size
  pub free : d.stm.streamed + d.stm.bank_size ≤ d.stm.buf_max

-- Every read gives all its sectors, and no read of the game ends within `StFillStreamBuffer`.
pub record IsCalm (d : Drive) : Type 0 where
  pub all_given : (lba n : ℕ) → d.given lba n ≡ n
  pub apart : d.preempted ≡ false

-- A drive whose stream holds the sectors from `pos` on. While `is_reading` is set, the next bank is
-- being read or has been read; a read in progress goes to that bank or to the game. Only a stream
-- that has been started reads, is called back or is rescheduled.
pub record IsStreaming (disc : ℕ → ℕ) (pos : ℕ) (d : Drive) : Type 0 where
  pub stream : Holds disc pos (d.stm)
  pub filling : d.stm.is_reading ≡ true → IsFilling d ⊎ IsLanded disc pos (d.stm)
  pub busy : d.sync_flag ≡ true → (d.cdread_buf ≡ game) ⊎ (IsFilling d × (d.stm.is_reading ≡ true))
  pub reads_on : d.stm.is_reading ≡ true → d.stm.stat ≡ true
  pub called_on : d.callback ≡ true → d.stm.stat ≡ true
  pub armed_on : d.alarm ≡ true → d.stm.stat ≡ true
  pub calm : IsCalm d
