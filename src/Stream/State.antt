-- ===== src/Stream/State.antt =====
-- `struct SteamingData` and the part of `cdvdman_status_t` that streaming uses
-- (modules/iopcore/cdvdman/internal.h), with the read request that the reading thread serves.
use opl_future_beta.Base.{ℕ, zero, suc, ◌+◌, ◌%◌, ◌^◌, Bool, List, set}

abbrev pub u16 : ℕ → ℕ
u16 n = n % 2 ^ 16

abbrev pub u32 : ℕ → ℕ
u32 n = n % 2 ^ 32

-- `struct SteamingData`. `buf` is the memory at `StIOP_bufaddr`, one element for each sector of 2048
-- bytes, so that the address `StIOP_bufaddr + i * 2048` is the index `i`.
pub record Stream : Type 0 where
  pub buf_max : ℕ
  pub bank_max : ℕ
  pub bank_size : ℕ
  pub write_ptr : ℕ
  pub read_ptr : ℕ
  pub streamed : ℕ
  pub stat : Bool
  pub is_reading : Bool
  pub lsn : ℕ
  pub buf : List ℕ

pub data CdErr : Type 0 where
  err_no : CdErr
  err_code : ℕ → CdErr

pub data CdStatus : Type 0 where
  stat_pause : CdStatus
  stat_code : ℕ → CdStatus

-- Where a read puts its sectors: at an index of the streaming buffer, or in memory of the game.
pub data Target : Type 0 where
  ring : ℕ → Target
  game : Target

-- `cdvdman_stat`, `sync_flag`, the registered `Stm0Callback` and the alarm of `StmScheduleCb`. What does not depend on
-- the code: `given` is how many of the sectors of a read reach its buffer, fewer than are asked for at the end of the
-- media and after an error of the device; and `preempted` is whether the reading thread, where it has a read of the
-- game to end, runs within `StFillStreamBuffer`, once that has enabled interrupts again.
pub record Drive : Type 0 where
  pub err : CdErr
  pub status : CdStatus
  pub stm : Stream
  pub sync_flag : Bool
  pub cdread_lba : ℕ
  pub cdread_sectors : ℕ
  pub cdread_buf : Target
  pub callback : Bool
  pub alarm : Bool
  pub given : (lba sectors : ℕ) → ℕ
  pub preempted : Bool

-- The result of `StFillStreamBuffer`: 0, a positive number, a negative number.
pub data FillResult : Type 0 where
  fill_ok fill_full fill_failed : FillResult

-- `n` sectors of the disc from `lba` on, written to the buffer from index `i` on.
unfoldable pub write_run : (ℕ → ℕ) → List ℕ → ℕ → ℕ → ℕ → List ℕ
write_run disc buf i lba zero = buf
write_run disc buf i lba (suc n) = write_run disc (set buf i (disc (u32 lba))) (i + 1) (lba + 1) n
