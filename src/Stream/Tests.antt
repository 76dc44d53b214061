-- ===== src/Stream/Tests.antt =====
-- A small stream: two banks of two sectors, over a disc that holds its own addresses.
use opl_future_beta.Base.{ℕ, ◌≡◌, refl, false, true, none, some, List, [], ◌∷◌, arith}
use opl_future_beta.Stream.State.{u32, Drive, game, err_no, stat_pause}
use opl_future_beta.Stream.Fill.{
  thread_runs, alarm_rings, game_reads, st_start_fill_stream_buffer, start_fill_from_game,
  fill_bank, end_game_read, alloc_bank, read_started, wakes, wake, cdread_thread, stm_callback,
  st_fill_stream_buffer, advance, finish_read, deliver, reschedule, alarm_result, stm_schedule_cb,
  async_read,
}
use opl_future_beta.Stream.Reader.{
  read_sectors, read_sectors_ee, upper_count, lower_count, drain, step_ptr, plan, transfer, commit,
}
use opl_future_beta.Stream.Control.{
  iop, ee, sce_cd_st_init, sce_cd_st_start, st_read_blocking, st_read_nonblocking, sce_cd_st_pause,
  sce_cd_st_resume, copy_sectors, st_reset, sce_cd_st_stop, start_stream, pausing, sce_cd_sync,
}
use opl_future_beta.Stream.Memory.{sectors}
use opl_future_beta.Stream.Invariant.{IsStreaming}
use opl_future_beta.Stream.Steps.{wakes-IsStreaming}
use opl_future_beta.Stream.Delivery.{pause-IsStreaming}
use opl_future_beta.Stream.Session.{
  Call, happens, pauses, resumes, reads, call, play, start-IsStreaming, init-IsStreaming,
}
use opl_future_beta.Stream.Blocking.{st_read_blocking_returns}
use opl_future_beta.Stream.Stall.{st_read_blocking_stalls, IsStuck, pause_read_resume-IsStuck}

abbrev addresses : ℕ → ℕ
addresses lsn = lsn

abbrev boot : Drive
boot = record {
  err = err_no;
  status = stat_pause;
  stm = record {
    buf_max = 0;
    bank_max = 0;
    bank_size = 0;
    write_ptr = 0;
    read_ptr = 0;
    streamed = 0;
    stat = false;
    is_reading = false;
    lsn = 0;
    buf = [];
  };
  sync_flag = false;
  cdread_lba = 0;
  cdread_sectors = 0;
  cdread_buf = game;
  callback = false;
  alarm = false;
  given = λ lba n. n;
  preempted = false;
}

abbrev zeros : List ℕ
zeros = 0 ∷ 0 ∷ 0 ∷ 0 ∷ 0 ∷ []

abbrev ready : Drive
ready = sce_cd_st_init 5 2 zeros boot

abbrev started : Drive
started = sce_cd_st_start addresses 70 ready

abbrev script : List Call
script =
    happens thread_runs
    ∷ reads iop 1
    ∷ happens thread_runs
    ∷ pauses
    ∷ reads (ee (thread_runs ∷ []) (game_reads 9 1 ∷ [])) 3
    ∷ happens thread_runs
    ∷ resumes
    ∷ happens thread_runs
    ∷ happens alarm_rings
    ∷ reads iop 9
    ∷ []

ready-IsStreaming : IsStreaming addresses 0 ready
ready-IsStreaming =
    init-IsStreaming addresses 5 2 zeros boot (omega arith) (omega arith) (omega arith)
      (omega arith) (omega arith) (λ e. refl) refl
      (record { all_given = λ lba n. refl; apart = refl })

start-IsStreaming_example : IsStreaming addresses (u32 70) started
start-IsStreaming_example = start-IsStreaming addresses 70 ready ready-IsStreaming

-- For the tests: every function of the stream.
stream_code : Unit {0}
unfolding play call wakes wake cdread_thread stm_callback st_start_fill_stream_buffer
    start_fill_from_game fill_bank end_game_read alloc_bank read_started st_fill_stream_buffer
    advance finish_read deliver reschedule alarm_result stm_schedule_cb async_read read_sectors
    read_sectors_ee upper_count lower_count drain step_ptr plan transfer commit sce_cd_st_init
    sce_cd_st_start st_read_nonblocking sce_cd_st_pause sce_cd_st_resume copy_sectors st_reset
    sce_cd_st_stop start_stream pausing sce_cd_sync
stream_code = tt

-- The reads of the script hand over one, three and two sectors.
play_test : (play addresses script started).0 ≡ 70 ∷ 71 ∷ 72 ∷ 73 ∷ 74 ∷ 75 ∷ []
unfolding stream_code
play_test = refl

-- The buffer after both banks have been read.
abbrev full : Drive
full = wakes addresses (thread_runs ∷ thread_runs ∷ []) started

full-IsStreaming : IsStreaming addresses (u32 70) full
full-IsStreaming =
    wakes-IsStreaming addresses (u32 70) (thread_runs ∷ thread_runs ∷ []) started
      start-IsStreaming_example

st_read_blocking_returns_example :
    st_read_blocking addresses iop ((thread_runs ∷ []) ∷ []) 3 full
    ≡ some (
      sectors addresses (u32 70) 3,
      start_fill_from_game (
          (copy_sectors addresses iop 3
            (wakes addresses (thread_runs ∷ []) (record full { err = err_no }))).1),
    )
unfolding stream_code
st_read_blocking_returns_example =
    st_read_blocking_returns addresses iop (u32 70) (thread_runs ∷ []) [] 3 full full-IsStreaming
      refl (omega arith) (omega arith)

-- A read of five sectors from a full buffer of four.
st_read_blocking_stalls_example :
    st_read_blocking addresses iop ((thread_runs ∷ []) ∷ (alarm_rings ∷ []) ∷ []) 5 full ≡ none
unfolding stream_code
st_read_blocking_stalls_example =
    st_read_blocking_stalls addresses ((thread_runs ∷ []) ∷ (alarm_rings ∷ []) ∷ []) 5 full
      (tt, (tt, tt)) (full-IsStreaming.stream) refl (record { idle = refl; unarmed = refl })
      (omega arith)

-- A stream that has been paused with nothing stored.
abbrev rested : Drive
rested = (sce_cd_st_pause addresses started).1

pause_read_resume-IsStuck_example : IsStuck addresses (
    (sce_cd_st_resume (
      cdread_thread addresses
        ((st_read_nonblocking addresses iop 2 ((sce_cd_st_pause addresses rested).1)).1))).1)
unfolding stream_code
pause_read_resume-IsStuck_example =
    pause_read_resume-IsStuck addresses 2 rested
      ((pause-IsStreaming addresses started start-IsStreaming_example).stream) refl refl
      (omega arith) (omega arith)

-- A read of the game ends within `StFillStreamBuffer`: the bank counts as read, and nothing has been.
abbrev raced : Drive
raced = start_fill_from_game (record ready {
  sync_flag = true;
  callback = true;
  preempted = true;
  stm = record (ready.stm) { stat = true };
})

raced_test : (raced.stm.streamed ≡ 2) × (raced.stm.buf ≡ zeros) × (raced.stm.lsn ≡ 2)
unfolding stream_code
raced_test = (refl, refl, refl)
