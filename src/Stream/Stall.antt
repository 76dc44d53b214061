-- ===== src/Stream/Stall.antt =====
-- When a stream comes to rest: a read that waits then waits for ever, and a read while paused lets the
-- stream come to rest behind `sceCdStResume`.
use opl_future_beta.Base.{
  ℕ, ◌+◌, ◌-◌, ◌≤◌, ◌<◌, ◌≡◌, ◌∙◌, ap, refl, sym, subst, true, false, none, arith, List, [], ◌∷◌,
  length, ◌==◌, min,
}
use opl_future_beta.Stream.State.{Drive, err_no}
use opl_future_beta.Stream.Fill.{
  set_reading, Wake, cdread_thread, finish_read, deliver, st_fill_stream_buffer, reschedule,
  start_fill_from_game, st_start_fill_stream_buffer,
}
use opl_future_beta.Stream.Control.{
  iop, copy_sectors, read_rounds, fill_after, st_read_blocking, st_read_nonblocking, pausing,
  sce_cd_sync, sce_cd_st_pause, sce_cd_st_resume,
}
use opl_future_beta.Stream.Reader.{read_sectors}
use opl_future_beta.Stream.Memory.{length-sectors}
use opl_future_beta.Stream.Invariant.{Holds}
use opl_future_beta.Stream.Drain.{Drained-Holds}
use opl_future_beta.Stream.Reading.{read_sectors_lem}
use opl_future_beta.Stream.Blocking.{IsQuiet, AllWait, wakes-IsQuiet}

module _ (disc : ℕ → ℕ) where
  rounds_stall :
      (schedule : List (List Wake)) {pos : ℕ} (left : ℕ) (out : List ℕ) (d : Drive)
      → AllWait schedule
      → Holds disc pos (d.stm)
      → IsQuiet d
      → d.stm.streamed < left
      → read_rounds disc iop schedule left out d ≡ none
  unfolding read_rounds copy_sectors
  rounds_stall [] left out d w h q lt = let t : (left == 0) ≡ false = ground arith in rw t
  rounds_stall (ws ∷ schedule) {pos} left out d w h q lt =
      let t : (left == 0) ≡ false = ground arith in
      let r = read_sectors_lem disc (d.stm) left h in
      let e : length ((read_sectors left (d.stm)).0) ≡ min left (d.stm.streamed) =
        ap length (r.0) ∙ length-sectors disc pos _ in
      simp (t, wakes-IsQuiet disc ws d (w.0) q)
        (rounds_stall schedule (left - length ((read_sectors left (d.stm)).0)) _ _ (w.1)
          (Drained-Holds (r.1) disc h) (record { idle = q.idle; unarmed = q.unarmed })
          (omega (arith, e, r.1.left)))

  -- A blocking read through `ReadSectors`, on a ring that holds its stream and with `StStat` set, that
  -- waits for more sectors than are stored, while no read of the disc is in progress and
  -- the alarm is not set, never returns, however often the reading thread and the alarm get their
  -- chance: nothing in its loop asks for the next bank.
  pub st_read_blocking_stalls :
      (schedule : List (List Wake)) {pos : ℕ} (n : ℕ) (d : Drive)
      → AllWait schedule
      → Holds disc pos (d.stm)
      → d.stm.stat ≡ true
      → IsQuiet d
      → d.stm.streamed < n
      → st_read_blocking disc iop schedule n d ≡ none
  unfolding st_read_blocking fill_after
  st_read_blocking_stalls schedule n d w h on q lt = simp (
    on,
    rounds_stall schedule n [] (record d { err = err_no }) w h
        (record { idle = q.idle; unarmed = q.unarmed }) lt,
  )

  -- A read of the next bank has been started, and nobody will be called back.
  record IsUnheard (d : Drive) : Type 0 where
    busy : d.sync_flag ≡ true
    reading : d.stm.is_reading ≡ true
    unarmed : d.alarm ≡ false
    uncalled : d.callback ≡ false
    on : d.stm.stat ≡ true

  fill-IsUnheard :
      (d : Drive)
      → d.sync_flag ≡ false
      → d.stm.is_reading ≡ false
      → d.callback ≡ false
      → d.stm.stat ≡ true
      → d.stm.streamed + d.stm.bank_size ≤ d.stm.buf_max
      → IsUnheard (start_fill_from_game d)
  unfolding start_fill_from_game st_start_fill_stream_buffer st_fill_stream_buffer reschedule
  fill-IsUnheard d idle still off on free = ground arith

  read-IsUnheard :
      {pos : ℕ} (n : ℕ) (d : Drive)
      → Holds disc pos (d.stm)
      → d.sync_flag ≡ false
      → d.stm.is_reading ≡ false
      → d.callback ≡ false
      → d.stm.stat ≡ true
      → 0 < n
      → d.stm.streamed + d.stm.bank_size ≤ d.stm.buf_max
      → IsUnheard ((st_read_nonblocking disc iop n d).1)
  unfolding st_read_nonblocking copy_sectors
  read-IsUnheard n d h idle still off on p free =
      let t : (n == 0) ≡ false = ground arith in
      let c = (read_sectors_lem disc (d.stm) n h).1 in
      simp (on, t)
        (fill-IsUnheard _ idle (c.same_reading ∙ still) off (c.same_stat ∙ on)
          (omega (arith, c.left, c.same_bank, c.same_max)))

  -- The bank has landed, and the callback has not been made.
  pub record IsStuck (d : Drive) : Type 0 where
    pub quiet : IsQuiet d
    pub reading : d.stm.is_reading ≡ true
    pub on : d.stm.stat ≡ true

  thread-IsStuck : (d : Drive) → IsUnheard d → IsStuck (cdread_thread disc d)
  unfolding cdread_thread finish_read deliver
  thread-IsStuck d u = ground (arith, u.busy, u.reading, u.unarmed, u.uncalled, u.on)

  resume-IsStuck : (d : Drive) → IsStuck d → IsStuck ((sce_cd_st_resume d).1)
  unfolding sce_cd_st_resume pausing start_fill_from_game st_start_fill_stream_buffer
      st_fill_stream_buffer reschedule
  resume-IsStuck d u = ground (arith, u.reading, u.on, u.quiet)

  halted : Drive → Drive
  halted d = set_reading false (record (pausing d) { alarm = false; callback = false })

  halted-Holds : {pos : ℕ} (d : Drive) → Holds disc pos (d.stm) → Holds disc pos ((halted d).stm)
  unfolding halted pausing
  halted-Holds d h = ground (arith, h)

  pause_idle :
      (d : Drive) → d.sync_flag ≡ false → d.stm.stat ≡ true → (sce_cd_st_pause disc d).1 ≡ halted d
  unfolding sce_cd_st_pause sce_cd_sync cdread_thread halted pausing
  pause_idle d idle on = simp (on, idle)

  -- A ring that holds its stream, with `StStat` set, has room for a bank and no read is in progress, and
  -- the game pauses it, reads at least one sector through `ReadSectors`, and resumes it after the read that this started is over: then no read is in progress, the alarm is
  -- not set and `StIsReading` is set, so that no call of `StFillStreamBuffer` starts a read.
  pub pause_read_resume-IsStuck :
      {pos : ℕ} (n : ℕ) (d : Drive)
      → Holds disc pos (d.stm)
      → d.sync_flag ≡ false
      → d.stm.stat ≡ true
      → 0 < n
      → d.stm.streamed + d.stm.bank_size ≤ d.stm.buf_max
      → let paused = (sce_cd_st_pause disc d).1 in
        let read = (st_read_nonblocking disc iop n paused).1 in
        IsStuck ((sce_cd_st_resume (cdread_thread disc read)).1)
  unfolding halted pausing
  pause_read_resume-IsStuck n d h idle on p free = resume-IsStuck _ (
      thread-IsStuck _ (
        subst (λ (e : Drive). IsUnheard ((st_read_nonblocking disc iop n e).1))
          (sym (pause_idle d idle on))
          (read-IsUnheard n (halted d) (halted-Holds d h) idle refl refl on p free)))
