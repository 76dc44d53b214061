-- ===== src/Stream/Steps.antt =====
-- Each step of the filling side keeps the invariant of the drive.
use opl_future_beta.Base.{
  ℕ, List, [], ◌∷◌, ◌≡◌, ◌∙◌, refl, sym, subst, subst₂, subst₃, ◌⊎◌, inl, inr, true, false, not,
  ◌&&◌, arith, if-elim,
}
use opl_future_beta.Stream.State.{Stream, Drive, game}
use opl_future_beta.Stream.Fill.{
  async_read, start_fill_from_game, for_game, reschedule, alarm_result, st_fill_stream_buffer,
  advance, st_start_fill_stream_buffer, stm_schedule_cb, stm_callback, deliver, finish_read,
  cdread_thread, Wake, thread_runs, alarm_rings, game_reads, wake, wakes,
}
use opl_future_beta.Stream.Keep.{deliver-Holds, deliver-IsLanded, advance-Holds}
use opl_future_beta.Stream.Invariant.{Holds, IsLanded, IsFilling, IsCalm, IsStreaming}

is_reading-advance : (s : Stream) → (advance s).is_reading ≡ false
unfolding advance
is_reading-advance s = refl

stat-advance : (s : Stream) → (advance s).stat ≡ s.stat
unfolding advance
stat-advance s = refl

module _ (disc : ℕ → ℕ) (pos : ℕ) where
  -- A read that the game asks for.
  pub async_read-IsStreaming :
      (lba n : ℕ) (d : Drive)
      → IsStreaming disc pos d
      → IsStreaming disc pos (async_read lba n game d).1
  unfolding async_read
  async_read-IsStreaming lba n d v =
      ground (arith, v.stream, v.filling, v.busy, v.reads_on, v.called_on, v.armed_on, v.calm)

  pub st_start_fill-IsStreaming :
      (d : Drive)
      → IsStreaming disc pos d
      → d.stm.stat ≡ true
      → IsStreaming disc pos (st_start_fill_stream_buffer d)
  unfolding st_start_fill_stream_buffer st_fill_stream_buffer reschedule
  st_start_fill-IsStreaming d v on =
      ground (arith, v.stream, v.filling, v.busy, v.reads_on, v.called_on, v.armed_on, v.calm)

  pub start_fill_from_game-IsStreaming :
      (d : Drive)
      → IsStreaming disc pos d
      → d.stm.stat ≡ true
      → IsStreaming disc pos (start_fill_from_game d)
  unfolding start_fill_from_game
  start_fill_from_game-IsStreaming d v on =
      if-elim (IsStreaming disc pos)
        (d.sync_flag && (d.preempted && (for_game (d.cdread_buf) && not (d.stm.is_reading))))
        (λ t. absurd (ground (arith, t, v.calm.apart))) (λ _. st_start_fill-IsStreaming d v on)

  pub stm_schedule_cb-IsStreaming :
      (d : Drive) → IsStreaming disc pos d → IsStreaming disc pos (stm_schedule_cb d)
  unfolding stm_schedule_cb st_fill_stream_buffer alarm_result
  stm_schedule_cb-IsStreaming d v =
      ground (arith, v.stream, v.filling, v.busy, v.reads_on, v.called_on, v.armed_on, v.calm)

  -- What the reading thread delivers, to the free bank or to the game, keeps what is stored.
  pub finish-Holds :
      (d : Drive)
      → IsCalm d
      → Holds disc pos (d.stm)
      → (d.cdread_buf ≡ game) ⊎ IsFilling d
      → Holds disc pos ((finish_read disc d).stm)
  unfolding finish_read deliver
  finish-Holds d c h (inl e) =
      subst
        (λ t.
          Holds disc pos
            (deliver disc t (d.cdread_lba) (d.given (d.cdread_lba) (d.cdread_sectors)) (d.stm)))
        (sym e) h
  finish-Holds d c h (inr f) =
      subst₂ (λ t n. Holds disc pos (deliver disc t (d.cdread_lba) n (d.stm))) (sym (f.into))
        (sym (c.all_given (d.cdread_lba) (d.cdread_sectors) ∙ f.count))
        (deliver-Holds disc pos (d.stm) (d.cdread_lba) h (f.free))

  finish-IsLanded :
      (d : Drive)
      → IsStreaming disc pos d
      → d.stm.is_reading ≡ true
      → (d.cdread_buf ≡ game) ⊎ (IsFilling d × (d.stm.is_reading ≡ true))
      → IsLanded disc pos ((finish_read disc d).stm)
  unfolding finish_read deliver
  finish-IsLanded d v r (inr (f, _)) =
      subst₃ (λ t a n. IsLanded disc pos (deliver disc t a n (d.stm))) (sym (f.into)) (sym (f.from))
        (sym (v.calm.all_given (d.cdread_lba) (d.cdread_sectors) ∙ f.count))
        (deliver-IsLanded disc pos (d.stm) (v.stream) (f.free))
  finish-IsLanded d v r (inl e) = elim (v.filling r) [
    | inl f ↦ cc (e, f.into)
    | inr l ↦
        subst
          (λ t.
            IsLanded disc pos
              (deliver disc t (d.cdread_lba) (d.given (d.cdread_lba) (d.cdread_sectors)) (d.stm)))
          (sym e) l
  ]

  is_reading-finish : (d : Drive) → (finish_read disc d).stm.is_reading ≡ d.stm.is_reading
  unfolding finish_read deliver
  is_reading-finish d = ground arith

  stat-finish : (d : Drive) → (finish_read disc d).stm.stat ≡ d.stm.stat
  unfolding finish_read deliver
  stat-finish d = ground arith

  callback-finish : (d : Drive) → (finish_read disc d).callback ≡ d.callback
  unfolding finish_read
  callback-finish d = refl

  alarm-finish : (d : Drive) → (finish_read disc d).alarm ≡ d.alarm
  unfolding finish_read
  alarm-finish d = refl

  IsCalm-finish : (d : Drive) → IsCalm d → IsCalm (finish_read disc d)
  unfolding finish_read
  IsCalm-finish d c = record { all_given = c.all_given; apart = c.apart }

  pub sync_flag-finish : (d : Drive) → (finish_read disc d).sync_flag ≡ false
  unfolding finish_read
  sync_flag-finish d = refl

  pub finish-IsStreaming :
      (d : Drive)
      → IsStreaming disc pos d
      → d.sync_flag ≡ true
      → IsStreaming disc pos (finish_read disc d)
  finish-IsStreaming d v s = record {
    stream = finish-Holds d (v.calm) (v.stream) (ground (arith, v.busy s));
    filling = λ r. inr (finish-IsLanded d v (sym (is_reading-finish d) ∙ r) (v.busy s));
    busy = λ r. cc (r, sync_flag-finish d);
    reads_on = λ r. stat-finish d ∙ v.reads_on (sym (is_reading-finish d) ∙ r);
    called_on = λ r. stat-finish d ∙ v.called_on (sym (callback-finish d) ∙ r);
    armed_on = λ r. stat-finish d ∙ v.armed_on (sym (alarm-finish d) ∙ r);
    calm = IsCalm-finish d (v.calm);
  }

  advance-IsStreaming :
      (d : Drive)
      → IsStreaming disc pos d
      → d.sync_flag ≡ false
      → d.stm.is_reading ≡ true
      → IsStreaming disc pos (record d { stm = advance (d.stm) })
  advance-IsStreaming d v idle r = record {
    stream = elim (v.filling r) [
      | inl f ↦ cc (idle, f.locked)
      | inr l ↦ advance-Holds disc pos (d.stm) (v.stream) l
    ];
    filling = λ q. cc (q, is_reading-advance (d.stm));
    busy = λ q. cc (q, idle);
    reads_on = λ q. cc (q, is_reading-advance (d.stm));
    called_on = λ q. stat-advance (d.stm) ∙ v.called_on q;
    armed_on = λ q. stat-advance (d.stm) ∙ v.armed_on q;
    calm = record { all_given = v.calm.all_given; apart = v.calm.apart };
  }

  stm_callback-IsStreaming :
      (d : Drive)
      → IsStreaming disc pos d
      → d.sync_flag ≡ false
      → d.stm.stat ≡ true
      → IsStreaming disc pos (stm_callback d)
  unfolding stm_callback
  stm_callback-IsStreaming d v idle on =
      st_start_fill-IsStreaming _
        (if-elim (IsStreaming disc pos) (d.stm.is_reading) (advance-IsStreaming d v idle) (λ _. v))
        (if-elim (λ (e : Drive). e.stm.stat ≡ true) (d.stm.is_reading)
          (λ _. stat-advance (d.stm) ∙ on) (λ _. on))

  pub cdread_thread-IsStreaming :
      (d : Drive) → IsStreaming disc pos d → IsStreaming disc pos (cdread_thread disc d)
  unfolding cdread_thread
  cdread_thread-IsStreaming d v =
      if-elim (IsStreaming disc pos) (d.sync_flag)
        (λ s.
          if-elim (IsStreaming disc pos) (d.callback)
            (λ c.
              stm_callback-IsStreaming (finish_read disc d) (finish-IsStreaming d v s)
                (sync_flag-finish d) (stat-finish d ∙ v.called_on c))
            (λ _. finish-IsStreaming d v s))
        (λ _. v)

  pub wake-IsStreaming :
      (w : Wake) (d : Drive) → IsStreaming disc pos d → IsStreaming disc pos (wake disc w d)
  unfolding wake
  wake-IsStreaming thread_runs d v = cdread_thread-IsStreaming d v
  wake-IsStreaming alarm_rings d v = stm_schedule_cb-IsStreaming d v
  wake-IsStreaming (game_reads lba n) d v = async_read-IsStreaming lba n d v

  pub wakes-IsStreaming :
      (ws : List Wake) (d : Drive) → IsStreaming disc pos d → IsStreaming disc pos (wakes disc ws d)
  unfolding wakes
  wakes-IsStreaming [] d v = v
  wakes-IsStreaming (w ∷ ws) d v = wakes-IsStreaming ws (wake disc w d) (wake-IsStreaming w d v)

  -- `sceCdSync` on a stream that neither reads nor is called back.
  pub settle-IsStreaming :
      (d : Drive)
      → Holds disc pos (d.stm)
      → (d.sync_flag ≡ true → Holds disc pos ((finish_read disc d).stm))
      → d.stm.is_reading ≡ false
      → d.callback ≡ false
      → d.alarm ≡ false
      → IsCalm d
      → IsStreaming disc pos (cdread_thread disc d)
  unfolding cdread_thread
  settle-IsStreaming d h after idle off quiet calm =
      if-elim (IsStreaming disc pos) (d.sync_flag)
        (λ s.
          if-elim (IsStreaming disc pos) (d.callback) (λ on. cc (on, off))
            (λ _. record {
              stream = after s;
              filling = λ r. cc (r, is_reading-finish d, idle);
              busy = λ b. cc (b, sync_flag-finish d);
              reads_on = λ r. cc (r, is_reading-finish d, idle);
              called_on = λ r. cc (r, callback-finish d, off);
              armed_on = λ r. cc (r, alarm-finish d, quiet);
              calm = IsCalm-finish d calm;
            }))
        (λ s. record {
          stream = h;
          filling = λ r. cc (r, idle);
          busy = λ b. cc (b, s);
          reads_on = λ r. cc (r, idle);
          called_on = λ r. cc (r, off);
          armed_on = λ r. cc (r, quiet);
          calm = calm;
        })

  pub stat-settle : (d : Drive) → d.callback ≡ false → (cdread_thread disc d).stm.stat ≡ d.stm.stat
  unfolding cdread_thread
  stat-settle d off =
      if-elim (λ (e : Drive). e.stm.stat ≡ d.stm.stat) (d.sync_flag)
        (λ s.
          if-elim (λ (e : Drive). e.stm.stat ≡ d.stm.stat) (d.callback) (λ on. cc (on, off))
            (λ _. stat-finish d))
        (λ _. refl)
