-- ===== src/Stream/Fill.antt =====
-- The side that fills the buffer: `AllocBank`, `StFillStreamBuffer`, `StmCallback` and the alarm of
-- modules/iopcore/cdvdman/streaming.c, with `cdvdman_AsyncRead` and the reading thread of
-- modules/iopcore/cdvdman/cdvdman.c.
use opl_future_beta.Base.{
  ℕ, ◌+◌, Bool, true, false, not, ◌&&◌, List, [], ◌∷◌, Option, none, some, leb, if◌then◌else◌,
}
use opl_future_beta.Stream.State.{
  u16, u32, Stream, Drive, Target, ring, game, FillResult, fill_ok, fill_full, fill_failed,
  write_run,
}

-- `cdvdman_common_lock` and `cdvdman_AsyncRead`: refused while another read holds `sync_flag`.
unfoldable pub async_read : ℕ → ℕ → Target → Drive → Bool × Drive
async_read lsn sectors target d = if d.sync_flag then (false, d) else (
  true,
  record d { sync_flag = true; cdread_lba = lsn; cdread_sectors = sectors; cdread_buf = target },
)

-- The test is that of the source with its subtraction moved to the other side, where no `int` of it
-- is negative.
unfoldable pub alloc_bank : Stream → Option ℕ
alloc_bank s = if leb (s.bank_size + s.streamed) s.buf_max then some s.write_ptr else none

abbrev pub set_reading : Bool → Drive → Drive
set_reading b d = record d { stm = record (d.stm) { is_reading = b } }

-- The end of `StFillStreamBuffer`, by what `cdvdman_AsyncRead` returned.
unfoldable pub read_started : Bool × Drive → FillResult × Drive
read_started (true, d) = (fill_ok, d)
read_started (false, d) = (fill_failed, set_reading false d)

-- `StFillStreamBuffer` after `AllocBank`.
unfoldable pub fill_bank : Option ℕ → Drive → FillResult × Drive
unfolding read_started async_read
fill_bank (some ptr) d = read_started (async_read (d.stm.lsn) (d.stm.bank_size) (ring ptr) d)
fill_bank none d = (fill_full, set_reading false d)

-- `StFillStreamBuffer` where nothing runs within it: the reading thread itself calls it, or an interrupt.
unfoldable pub st_fill_stream_buffer : Drive → FillResult × Drive
unfolding fill_bank alloc_bank
st_fill_stream_buffer d =
    if d.stm.is_reading
    then (fill_ok, d)
    else fill_bank (alloc_bank (d.stm)) (set_reading true (record d { alarm = false }))

-- The alarm is set again exactly if the read could not be started.
unfoldable pub reschedule : FillResult × Drive → Drive
reschedule (fill_failed, d) = record d { alarm = true }
reschedule (fill_ok, d) = d
reschedule (fill_full, d) = d

unfoldable pub st_start_fill_stream_buffer : Drive → Drive
st_start_fill_stream_buffer d = reschedule (st_fill_stream_buffer d)

-- The value of `StmScheduleCb` is the alarm's next period, 0 for none.
unfoldable pub alarm_result : FillResult × Drive → Drive
alarm_result (fill_failed, d) = record d { alarm = true }
alarm_result (fill_ok, d) = record d { alarm = false }
alarm_result (fill_full, d) = record d { alarm = false }

unfoldable pub stm_schedule_cb : Drive → Drive
stm_schedule_cb d = if d.alarm then alarm_result (st_fill_stream_buffer d) else d

-- The bank that has been read becomes part of the stream.
unfoldable pub advance : Stream → Stream
advance s = record s {
  lsn = u32 (s.lsn + s.bank_size);
  streamed = u16 (s.streamed + s.bank_size);
  write_ptr =
      if leb (s.buf_max) (u16 (s.write_ptr + s.bank_size))
      then 0
      else u16 (s.write_ptr + s.bank_size);
  is_reading = false;
}

unfoldable pub stm_callback : Drive → Drive
stm_callback d =
    st_start_fill_stream_buffer (if d.stm.is_reading then record d { stm = advance (d.stm) } else d)

abbrev pub for_game : Target → Bool
for_game (ring i) = false
for_game game = true

-- The reading thread ends a read of the game.
unfoldable pub end_game_read : Drive → Drive
end_game_read d = let e = record d { sync_flag = false } in if d.callback then stm_callback e else e

-- `StStartFillStreamBuffer` where a thread of the game calls it. With interrupts enabled again and `StIsReading` set,
-- the reading thread may end a read of the game before `cdvdman_AsyncRead` is called. A read of the stream is in
-- progress only while `StIsReading` is set already, or is waited for, so it does not end there.
unfoldable pub start_fill_from_game : Drive → Drive
start_fill_from_game d =
    if d.sync_flag && (d.preempted && (for_game (d.cdread_buf) && not (d.stm.is_reading)))
    then reschedule (
        fill_bank (alloc_bank (d.stm))
          (end_game_read (set_reading true (record d { alarm = false }))))
    else st_start_fill_stream_buffer d

-- What `cdvdman_read` leaves in the streaming buffer. `disc` gives the sector at each address.
unfoldable pub deliver : (ℕ → ℕ) → Target → ℕ → ℕ → Stream → Stream
unfolding write_run
deliver disc (ring i) lba n s = record s { buf = write_run disc (s.buf) i lba n }
deliver disc game lba n s = s

-- The reading thread up to `cdvdman_signal_read_end`, which it also signals after an error.
unfoldable pub finish_read : (ℕ → ℕ) → Drive → Drive
unfolding deliver
finish_read disc d = record d {
  stm =
      deliver disc (d.cdread_buf) (d.cdread_lba) (d.given (d.cdread_lba) (d.cdread_sectors))
        (d.stm);
  sync_flag = false;
}

-- One round of `cdvdman_cdread_Thread`: it sleeps while no read is requested.
unfoldable pub cdread_thread : (ℕ → ℕ) → Drive → Drive
cdread_thread disc d =
    if d.sync_flag
    then (if d.callback then stm_callback (finish_read disc d) else finish_read disc d)
    else d

-- What may happen while interrupts are enabled: the reading thread runs, the alarm rings, or the game
-- asks for a read of its own (`sceCdRead`).
pub data Wake : Type 0 where
  thread_runs : Wake
  alarm_rings : Wake
  game_reads : ℕ → ℕ → Wake

unfoldable pub wake : (ℕ → ℕ) → Wake → Drive → Drive
wake disc thread_runs d = cdread_thread disc d
wake disc alarm_rings d = stm_schedule_cb d
wake disc (game_reads lsn sectors) d = (async_read lsn sectors game d).1

unfoldable pub wakes : (ℕ → ℕ) → List Wake → Drive → Drive
wakes disc [] d = d
wakes disc (w ∷ ws) d = wakes disc ws (wake disc w d)
