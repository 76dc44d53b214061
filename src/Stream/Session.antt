-- ===== src/Stream/Session.antt =====
-- From `sceCdStInit` through `sceCdStStart` to a play of calls and events in any order.
use opl_future_beta.Base.{
  ℕ, ◌*◌, ◌/◌, ◌%◌, ◌^◌, ◌≤◌, ◌<◌, ◌≡◌, ◌∙◌, ap₂, refl, true, false, if-elim, arith, List, [], ◌∷◌,
  ◌++◌, length, inl, inr,
}
use opl_future_beta.Stream.State.{u16, u32, Stream, Drive, Target, game, ring}
use opl_future_beta.Stream.Fill.{finish_read, deliver, Wake, wake}
use opl_future_beta.Stream.Control.{
  Copy, st_read_nonblocking, pausing, st_reset, sce_cd_st_init, sce_cd_sync, sce_cd_st_stop,
  start_stream, sce_cd_st_start, sce_cd_st_pause, sce_cd_st_resume,
}
use opl_future_beta.Stream.Memory.{length-write_run}
use opl_future_beta.Stream.Bank.{banks_pos, banks_fit, banks_whole, product_pos, banks_words}
use opl_future_beta.Stream.Invariant.{Holds, IsCalm, IsStreaming}
use opl_future_beta.Stream.Steps.{start_fill_from_game-IsStreaming, settle-IsStreaming, stat-settle}
use opl_future_beta.Stream.Delivery.{IsStreaming-pausing}

-- What the game and the drive do while a stream plays.
pub data Call : Type 0 where
  happens : Wake → Call
  pauses : Call
  resumes : Call
  reads : Copy → ℕ → Call

unfoldable pub call : (ℕ → ℕ) → Call → Drive → List ℕ × Drive
call disc (happens w) d = ([], wake disc w d)
call disc pauses d = ([], (sce_cd_st_pause disc d).1)
call disc resumes d = ([], (sce_cd_st_resume d).1)
call disc (reads c n) d = st_read_nonblocking disc c n d

-- All that the reads hand over, in order.
unfoldable pub play : (ℕ → ℕ) → List Call → Drive → List ℕ × Drive
play disc [] d = ([], d)
play disc (c ∷ cs) d =
    let (out, d') = call disc c d in let (rest, d'') = play disc cs d' in (out ++ rest, d'')

-- The part of the invariant that a reset does not establish by itself.
record IsBuffer (s : Stream) : Type 0 where
  banks : 0 < s.bank_size
  small : s.buf_max < 2 ^ 16
  some_room : 0 < s.buf_max
  room : s.buf_max ≤ length (s.buf)
  whole : s.buf_max % s.bank_size ≡ 0

streamed-st_reset : (s : Stream) → (st_reset s).streamed ≡ 0
unfolding st_reset
streamed-st_reset s = refl

is_reading-st_reset : (s : Stream) → (st_reset s).is_reading ≡ false
unfolding st_reset
is_reading-st_reset s = refl

stat-st_reset : (s : Stream) → (st_reset s).stat ≡ s.stat
unfolding st_reset
stat-st_reset s = refl

module _ (disc : ℕ → ℕ) where
  -- A stream with nothing in it keeps what it holds whatever a late read puts into its buffer.
  empty-Holds :
      (s : Stream) (pos : ℕ) (t : Target) (lba n : ℕ)
      → s.streamed ≡ 0
      → Holds disc pos s
      → Holds disc pos (deliver disc t lba n s)
  unfolding deliver
  empty-Holds s pos game lba n z h = h
  empty-Holds s pos (ring i) lba n z h = record {
    shape = ground (arith, h.shape, length-write_run disc (s.buf) i lba n);
    next_lsn = h.next_lsn;
    held = λ j lt. absurd (omega arith);
  }

  -- A stream whose counters have been reset holds nothing, and goes on at its `lsn`.
  st_reset-Holds : (s : Stream) → IsBuffer s → s.lsn < 2 ^ 32 → Holds disc (s.lsn) (st_reset s)
  unfolding st_reset
  st_reset-Holds s b lt = record {
    shape = ground (arith, b.banks);
    next_lsn = omega arith;
    held = λ j l. absurd (omega arith);
  }

  lsn-lt : (s : Stream) {pos : ℕ} → Holds disc pos s → s.lsn < 2 ^ 32
  lsn-lt s h = omega (arith, h.next_lsn)

  stop-IsStreaming :
      {pos : ℕ} (d : Drive)
      → IsStreaming disc pos d
      → (q : ℕ) × IsStreaming disc q (sce_cd_st_stop disc d)
        × ((sce_cd_st_stop disc d).stm.stat ≡ false)
  unfolding sce_cd_st_stop sce_cd_sync pausing finish_read deliver
  stop-IsStreaming {pos} d v =
      if-elim (λ (e : Drive). (q : ℕ) × IsStreaming disc q e × (e.stm.stat ≡ false)) (d.stm.stat)
        (λ _. (
          d.stm.lsn,
          settle-IsStreaming disc _ halted halted-Holds
              (λ _. empty-Holds (halted.stm) _ _ _ _ (streamed-st_reset _) halted-Holds)
              (is_reading-st_reset _) refl refl
              (record { all_given = v.calm.all_given; apart = v.calm.apart }),
          stat-settle disc pos halted refl ∙ stat-st_reset _,
        ))
        (λ off. (pos, IsStreaming-pausing disc d v, off))
    where
      halted : Drive
      halted = record (pausing d) {
        alarm = false;
        callback = false;
        stm = st_reset (record (d.stm) { streamed = 0; stat = false });
      }

      halted-Holds : Holds disc (d.stm.lsn) (halted.stm)
      halted-Holds =
          st_reset-Holds (record (d.stm) { streamed = 0; stat = false })
            (ground (arith, v.stream.shape)) (lsn-lt (d.stm) (v.stream))

  start_stream-IsStreaming :
      {pos : ℕ} (lsn : ℕ) (d : Drive)
      → IsStreaming disc pos d
      → d.stm.stat ≡ false
      → IsStreaming disc (u32 lsn) (start_stream lsn d)
  unfolding start_stream pausing st_reset
  start_stream-IsStreaming lsn d v off =
      start_fill_from_game-IsStreaming disc _ _
        (record {
          stream =
              st_reset-Holds (record (d.stm) { lsn = u32 lsn; stat = true })
                (ground (arith, v.stream.shape)) (omega arith);
          filling = λ r. cc r;
          busy = λ b. elim (v.busy b) [ inl e ↦ inl e | inr (f, r) ↦ cc (v.reads_on r, off) ];
          reads_on = λ _. refl;
          called_on = λ _. refl;
          armed_on = λ _. refl;
          calm = record { all_given = v.calm.all_given; apart = v.calm.apart };
        })
        refl

  -- `sceCdStStart` on a drive that streams or has been initialised (`IsStreaming`), with a read of the
  -- stream or of the game in progress or none, where reads give all their sectors and the reading thread
  -- ends no read of the game within `StFillStreamBuffer`: the stream then holds the sectors from the
  -- requested address on.
  pub start-IsStreaming :
      {pos : ℕ} (lsn : ℕ) (d : Drive)
      → IsStreaming disc pos d
      → IsStreaming disc (u32 lsn) (sce_cd_st_start disc lsn d)
  unfolding sce_cd_st_start
  start-IsStreaming lsn d v =
      let (q, w, off) = stop-IsStreaming d v in start_stream-IsStreaming lsn _ w off

  -- `sceCdStInit` with at least one bank and one sector to a bank, a buffer of fewer than 65536 sectors
  -- that lies in the given memory, no read into the old buffer in progress and no callback registered,
  -- `lsn` a word of 32 bits, and reads as for `start-IsStreaming`: the stream is empty and stands at its
  -- `lsn`.
  pub init-IsStreaming :
      (bufmax bankmax : ℕ) (memory : List ℕ) (d : Drive)
      → 0 < bankmax
      → bankmax ≤ bufmax
      → bufmax < 2 ^ 16
      → bufmax ≤ length memory
      → d.stm.lsn < 2 ^ 32
      → (d.sync_flag ≡ true → d.cdread_buf ≡ game)
      → d.callback ≡ false
      → IsCalm d
      → IsStreaming disc (d.stm.lsn) (sce_cd_st_init bufmax bankmax memory d)
  unfolding sce_cd_st_init st_reset
  init-IsStreaming bufmax bankmax memory d p le small room lt elsewhere off calm =
      let (a, b, c) = banks_words bufmax bankmax small le in
      record {
        stream =
            st_reset-Holds
              (record (d.stm) {
                bank_max = u16 bankmax;
                bank_size = u16 (bufmax / bankmax);
                buf_max = u16 (u16 (bufmax / bankmax) * u16 bankmax);
                buf = memory;
              })
              (record {
                banks = omega (arith, a, banks_pos bufmax bankmax p le);
                small = omega arith;
                some_room = omega (
                  arith,
                  c,
                  product_pos (bufmax / bankmax) bankmax (banks_pos bufmax bankmax p le) p,
                );
                room = omega (arith, c, banks_fit bufmax bankmax);
                whole = ap₂ ◌%◌ c a ∙ banks_whole (bufmax / bankmax) bankmax;
              })
              lt;
        filling = λ r. cc r;
        busy = λ s. inl (elsewhere s);
        reads_on = λ r. cc r;
        called_on = λ r. cc (r, off);
        armed_on = λ r. cc r;
        calm = record { all_given = calm.all_given; apart = calm.apart };
      }
