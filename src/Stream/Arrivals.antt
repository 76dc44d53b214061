-- ===== src/Stream/Arrivals.antt =====
-- `ReadSectorsEE`: banks may arrive between its plan, its transfers and its update of the counters.
use opl_future_beta.Base.{
  ℕ, ◌+◌, ◌≤◌, ◌≡◌, ◌∙◌, ap, ap₂, refl, sym, false, inl, inr, [], ◌∷◌, if-elim, arith, List, ◌++◌,
}
use opl_future_beta.Stream.State.{Stream, Drive, game}
use opl_future_beta.Stream.Fill.{
  st_start_fill_stream_buffer, st_fill_stream_buffer, reschedule, advance, stm_callback, deliver,
  finish_read, cdread_thread, alarm_result, stm_schedule_cb, async_read, Wake, thread_runs,
  alarm_rings, game_reads, wake, wakes,
}
use opl_future_beta.Stream.Reader.{
  slice, upper_count, lower_count, drain, Plan, step_ptr, plan, transfer, commit,
}
use opl_future_beta.Stream.Memory.{sectors}
use opl_future_beta.Stream.Invariant.{ring_index, IsRing, Holds, IsLanded, IsStreaming}
use opl_future_beta.Stream.Drain.{Drained, Drained-trans, Drained-IsStreaming}
use opl_future_beta.Stream.Reading.{IsTwoCopies, two_copies, copied}
use opl_future_beta.Stream.Steps.{wake-IsStreaming, finish-IsStreaming, sync_flag-finish}

-- The reading thread only adds sectors.
pub record Grown (s t : Stream) : Type 0 where
  pub more : s.streamed ≤ t.streamed
  pub same_ptr : t.read_ptr ≡ s.read_ptr
  pub same_max : t.buf_max ≡ s.buf_max
  pub same_stat : t.stat ≡ s.stat

Grown-refl : (s : Stream) → Grown s s
Grown-refl s = record { more = omega arith; same_ptr = refl; same_max = refl; same_stat = refl }

pub Grown-trans : {s t u : Stream} → Grown s t → Grown t u → Grown s u
Grown-trans a b = record {
  more = omega (arith, a.more, b.more);
  same_ptr = b.same_ptr ∙ a.same_ptr;
  same_max = b.same_max ∙ a.same_max;
  same_stat = b.same_stat ∙ a.same_stat;
}

st_start_fill-Grown : (d : Drive) → Grown (d.stm) ((st_start_fill_stream_buffer d).stm)
unfolding st_start_fill_stream_buffer st_fill_stream_buffer reschedule
st_start_fill-Grown d = ground arith

stm_schedule_cb-Grown : (d : Drive) → Grown (d.stm) ((stm_schedule_cb d).stm)
unfolding stm_schedule_cb st_fill_stream_buffer alarm_result
stm_schedule_cb-Grown d = ground arith

async_read-Grown : (lba n : ℕ) (d : Drive) → Grown (d.stm) ((async_read lba n game d).1.stm)
unfolding async_read
async_read-Grown lba n d = ground arith

finish-Grown : (disc : ℕ → ℕ) (d : Drive) → Grown (d.stm) ((finish_read disc d).stm)
unfolding finish_read deliver
finish-Grown disc d = ground arith

module _ (disc : ℕ → ℕ) {pos : ℕ} where
  advance-Grown : (s : Stream) → Holds disc pos s → IsLanded disc pos s → Grown s (advance s)
  unfolding advance
  advance-Grown s h l = ground (arith, h.shape, l.free)

  stm_callback-Grown :
      (d : Drive)
      → IsStreaming disc pos d
      → d.sync_flag ≡ false
      → Grown (d.stm) ((stm_callback d).stm)
  unfolding stm_callback
  stm_callback-Grown d v idle =
      Grown-trans
        (if-elim (λ (e : Drive). Grown (d.stm) (e.stm)) (d.stm.is_reading)
          (λ r. elim (v.filling r) [
            | inl f ↦ cc (idle, f.locked)
            | inr l ↦ advance-Grown (d.stm) (v.stream) l
          ])
          (λ _. Grown-refl (d.stm)))
        (st_start_fill-Grown _)

  cdread_thread-Grown :
      (d : Drive) → IsStreaming disc pos d → Grown (d.stm) ((cdread_thread disc d).stm)
  unfolding cdread_thread
  cdread_thread-Grown d v =
      if-elim (λ (e : Drive). Grown (d.stm) (e.stm)) (d.sync_flag)
        (λ s.
          if-elim (λ (e : Drive). Grown (d.stm) (e.stm)) (d.callback)
            (λ _. Grown-trans (finish-Grown disc d) (
              stm_callback-Grown (finish_read disc d) (finish-IsStreaming disc pos d v s)
                (sync_flag-finish disc pos d)))
            (λ _. finish-Grown disc d))
        (λ _. Grown-refl (d.stm))

  wake-Grown : (w : Wake) (d : Drive) → IsStreaming disc pos d → Grown (d.stm) ((wake disc w d).stm)
  unfolding wake
  wake-Grown thread_runs d v = cdread_thread-Grown d v
  wake-Grown alarm_rings d v = stm_schedule_cb-Grown d
  wake-Grown (game_reads lba n) d v = async_read-Grown lba n d

  pub wakes-Grown :
      (ws : List Wake) (d : Drive) → IsStreaming disc pos d → Grown (d.stm) ((wakes disc ws d).stm)
  unfolding wakes
  wakes-Grown [] d v = Grown-refl (d.stm)
  wakes-Grown (w ∷ ws) d v =
      Grown-trans (wake-Grown w d v)
        (wakes-Grown ws (wake disc w d) (wake-IsStreaming disc pos w d v))

-- The pointers of a plan are those that `ReadSectors` would step through.
step_ptr-drain : (s : Stream) (n : ℕ) → step_ptr (s.buf_max) (s.read_ptr) n ≡ (drain n s).read_ptr
unfolding step_ptr drain
step_ptr-drain s n = ground arith

read_ptr-drain : {s t : Stream} (n : ℕ) → Grown s t → (drain n s).read_ptr ≡ (drain n t).read_ptr
unfolding drain
read_ptr-drain n g = ground arith

-- What a plan says, in terms of the copies of `ReadSectors`.
pub record IsPlanned (s : Stream) (maxcount : ℕ) (p : Plan) : Type 0 where
  pub copies : IsTwoCopies s maxcount (p.first) (p.second)
  from_first : p.first_ptr ≡ s.read_ptr
  from_second : p.second_ptr ≡ (drain (p.first) s).read_ptr
  upto : p.rdptr ≡ ring_index (s.buf_max) (s.read_ptr + (p.first + p.second))

pub plan-IsPlanned : (s : Stream) (maxcount : ℕ) → IsRing s → IsPlanned s maxcount (plan maxcount s)
unfolding plan
plan-IsPlanned s maxcount v =
    let n = upper_count s maxcount in
    let e = step_ptr-drain s n in
    let c = two_copies s maxcount v in
    rw e (record {
      copies = c;
      from_first = refl;
      from_second = refl;
      upto =
          ap
            (λ k.
              step_ptr k ((drain n s).read_ptr) (lower_count s ((drain n s).read_ptr) n maxcount))
            (sym (c.first.same_max))
          ∙ step_ptr-drain (drain n s) (lower_count s ((drain n s).read_ptr) n maxcount)
          ∙ (Drained-trans v (c.first) (c.second)).ptr;
    })

pub stat-commit : (p : Plan) (s : Stream) → (commit p s).stat ≡ s.stat
unfolding commit
stat-commit p s = ground arith

commit-Drained :
    (s t : Stream) (maxcount : ℕ) (p : Plan)
    → IsPlanned s maxcount p
    → Grown s t
    → IsRing t
    → Drained (p.first + p.second) t (commit p t)
unfolding commit
commit-Drained s t maxcount p a g v =
    ground (arith, a.copies.total, a.upto, g.more, g.same_ptr, g.same_max)

module _ (disc : ℕ → ℕ) {pos : ℕ} where
  pub transfer-eq-sectors :
      (s t : Stream) (maxcount : ℕ) (p : Plan)
      → IsPlanned s maxcount p
      → Grown s t
      → Holds disc pos t
      → transfer p t ≡ sectors disc pos (p.first + p.second)
  unfolding transfer
  transfer-eq-sectors s t maxcount p a g h =
      ap₂ (λ i j. slice (t.buf) i (p.first) ++ slice (t.buf) j (p.second))
        (a.from_first ∙ sym (g.same_ptr)) (a.from_second ∙ read_ptr-drain (p.first) g)
      ∙ copied disc t (p.first) (p.second) h (omega (arith, a.copies.total, g.more))
          (omega (arith, a.copies.fits, g.same_ptr, g.same_max))
          (omega (arith, a.copies.total, g.more))
          (omega (
            arith,
            a.copies.fits',
            a.copies.first.same_max,
            g.same_max,
            read_ptr-drain (p.first) g,
          ))

  -- The counters after `ReadSectorsEE`.
  pub commit-IsStreaming :
      (s : Stream) (d : Drive) (maxcount : ℕ) (p : Plan)
      → IsPlanned s maxcount p
      → Grown s (d.stm)
      → IsStreaming disc pos d
      → IsStreaming disc (pos + (p.first + p.second)) (record d { stm = commit p (d.stm) })
  commit-IsStreaming s d maxcount p a g v =
      Drained-IsStreaming disc d _ v (commit-Drained s (d.stm) maxcount p a g (v.stream.shape))
