-- ===== src/Stream/Reading.antt =====
-- What `ReadSectors` and `ReadSectorsEE` hand over, also when banks arrive in between.
use opl_future_beta.Base.{
  ℕ, ◌+◌, ◌≤◌, ◌<◌, ◌≡◌, ◌∙◌, ap, ap₂, refl, sym, subst, get_or, arith, ◌++◌, min,
}
use opl_future_beta.Stream.State.{Stream}
use opl_future_beta.Stream.Reader.{slice, upper_count, lower_count, drain, read_sectors}
use opl_future_beta.Stream.Memory.{sectors, slice-eq-sectors, sectors-append}
use opl_future_beta.Stream.Invariant.{ring_index, IsRing, Holds}
use opl_future_beta.Stream.Drain.{
  Drained, Drained-IsRing, drain-Drained, Drained-trans, Drained-Holds, upper_count_bounds,
  lower_count_bounds,
}

-- `lower_count` depends on the stream by its write pointer alone.
pub lower_count-Drained :
    {n : ℕ} {s t : Stream} (rdptr done maxcount : ℕ)
    → Drained n s t
    → lower_count t rdptr done maxcount ≡ lower_count s rdptr done maxcount
unfolding lower_count
lower_count-Drained rdptr done maxcount c = ground (arith, c.same_write)

module _ (disc : ℕ → ℕ) {pos : ℕ} where
  -- A copy that does not go round the end gives the next sectors.
  slice_held :
      (s : Stream) (n : ℕ)
      → Holds disc pos s
      → n ≤ s.streamed
      → s.read_ptr + n ≤ s.buf_max
      → slice (s.buf) (s.read_ptr) n ≡ sectors disc pos n
  slice_held s n h le fits =
      slice-eq-sectors disc (s.buf) (s.read_ptr) n pos (omega (arith, h.shape.room))
        (λ j lt. at_start s n j h fits lt ∙ h.held j (omega arith))
    where
      at_start :
          (s : Stream) (n j : ℕ)
          → Holds disc pos s
          → s.read_ptr + n ≤ s.buf_max
          → j < n
          → get_or (s.buf) (s.read_ptr + j) 0
            ≡ get_or (s.buf) (ring_index (s.buf_max) (s.read_ptr + j)) 0
      at_start s n j h fits lt = ap (λ k. get_or (s.buf) k 0) (ground arith)

-- Two copies, the second from where the first one has stopped.
pub record IsTwoCopies (s : Stream) (maxcount n m : ℕ) : Type 0 where
  pub first : Drained n s (drain n s)
  pub second : Drained m (drain n s) (drain m (drain n s))
  pub fits : s.read_ptr + n ≤ s.buf_max
  pub fits' : (drain n s).read_ptr + m ≤ (drain n s).buf_max
  pub total : n + m ≡ min maxcount (s.streamed)

pub two_copies :
    (s : Stream) (maxcount : ℕ)
    → IsRing s
    → IsTwoCopies s maxcount (upper_count s maxcount) (
        lower_count s
          ((drain (upper_count s maxcount) s).read_ptr)
          (upper_count s maxcount)
          maxcount)
two_copies s maxcount v =
    let n = upper_count s maxcount in
    let (le, fits, _) = upper_count_bounds s maxcount v in
    let c = drain-Drained s n v le fits in
    let m = lower_count s ((drain n s).read_ptr) n maxcount in
    let b = lower_count_bounds s n m maxcount ((drain n s).read_ptr) v refl (c.ptr) refl in
    record {
      first = c;
      second =
          drain-Drained (drain n s) m (Drained-IsRing c v) (omega (arith, b.1, c.left))
            (omega (arith, b.0, c.same_max));
      fits = fits;
      fits' = omega (arith, b, c.same_max);
      total = b.1;
    }

module _ (disc : ℕ → ℕ) {pos : ℕ} where
  -- What two copies take from a stream that holds at least these sectors.
  pub copied :
      (s : Stream) (n m : ℕ)
      → Holds disc pos s
      → n ≤ s.streamed
      → s.read_ptr + n ≤ s.buf_max
      → n + m ≤ s.streamed
      → (drain n s).read_ptr + m ≤ s.buf_max
      → slice (s.buf) (s.read_ptr) n ++ slice (s.buf) ((drain n s).read_ptr) m
        ≡ sectors disc pos (n + m)
  copied s n m h le fits le' fits' =
      let c = drain-Drained s n (h.shape) le fits in
      ap₂ ◌++◌ (slice_held disc s n h le fits) (
        ap (λ b. slice b ((drain n s).read_ptr) m) (sym (c.same_buf))
        ∙ slice_held disc (drain n s) m (Drained-Holds c disc h) (omega (arith, c.left))
            (omega (arith, c.same_max)))
      ∙ sectors-append disc pos n m

  -- `ReadSectors` hands over the next sectors of the disc, as many as are stored and wanted.
  pub read_sectors_lem :
      (s : Stream) (maxcount : ℕ)
      → Holds disc pos s
      → ((read_sectors maxcount s).0 ≡ sectors disc pos (min maxcount (s.streamed)))
        × Drained (min maxcount (s.streamed)) s ((read_sectors maxcount s).1)
  unfolding read_sectors
  read_sectors_lem s maxcount h =
      let n = upper_count s maxcount in
      let c = two_copies s maxcount (h.shape) in
      let m = lower_count s ((drain n s).read_ptr) n maxcount in
      let e = lower_count-Drained ((drain n s).read_ptr) n maxcount (c.first) in
      rw e (
        ap (λ b. slice (s.buf) (s.read_ptr) n ++ slice b ((drain n s).read_ptr) m)
              (c.first.same_buf)
            ∙ copied s n m h (c.first.enough) (c.fits) (omega (arith, c.total))
                (omega (arith, c.fits', c.first.same_max))
            ∙ ap (sectors disc pos) (c.total),
        subst (λ k. Drained k s (drain m (drain n s))) (c.total)
            (Drained-trans (h.shape) (c.first) (c.second)),
      )
