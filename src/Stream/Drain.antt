-- ===== src/Stream/Drain.antt =====
-- `ReadSectors` and `ReadSectorsEE` copy out the stored sectors in order, and keep the invariant.
use opl_future_beta.Base.{
  ℕ, ◌+◌, ◌-◌, ◌≤◌, ◌<◌, ◌≡◌, ◌∙◌, ap, ap₂, sym, inl, inr, ltb, leb, get_or, if◌then◌else◌, arith,
  ◌&&◌, min,
}
use opl_future_beta.Stream.State.{u32, Stream, Drive}
use opl_future_beta.Stream.Reader.{upper_count, lower_count, drain}
use opl_future_beta.Stream.Invariant.{ring_index, IsRing, Holds, IsLanded, IsFilling, IsStreaming}

-- `n` of the stored sectors have been taken, and nothing else has changed.
pub record Drained (n : ℕ) (s t : Stream) : Type 0 where
  pub enough : n ≤ s.streamed
  pub left : t.streamed + n ≡ s.streamed
  pub ptr : t.read_ptr ≡ ring_index (s.buf_max) (s.read_ptr + n)
  pub same_buf : t.buf ≡ s.buf
  pub same_max : t.buf_max ≡ s.buf_max
  pub same_bank : t.bank_size ≡ s.bank_size
  pub same_write : t.write_ptr ≡ s.write_ptr
  pub same_lsn : t.lsn ≡ s.lsn
  pub same_reading : t.is_reading ≡ s.is_reading
  pub same_stat : t.stat ≡ s.stat

pub Drained-IsRing : {n : ℕ} {s t : Stream} → Drained n s t → IsRing s → IsRing t
Drained-IsRing c v = ground arith

pub drain-Drained :
    (s : Stream) (n : ℕ)
    → IsRing s
    → n ≤ s.streamed
    → s.read_ptr + n ≤ s.buf_max
    → Drained n s (drain n s)
unfolding drain
drain-Drained s n v le fits = ground arith

pub Drained-trans :
    {n m : ℕ} {s t u : Stream} → IsRing s → Drained n s t → Drained m t u → Drained (n + m) s u
Drained-trans v c c' = ground arith

module _ {n : ℕ} {s t : Stream} (c : Drained n s t) where
  -- The index of a sector that is still stored, before and after.
  index_after :
      (i : ℕ)
      → IsRing s
      → i < t.streamed
      → ring_index (t.buf_max) (t.read_ptr + i) ≡ ring_index (s.buf_max) (s.read_ptr + (n + i))
  index_after i v lt = ground arith

  pub Drained-Holds : (disc : ℕ → ℕ) {pos : ℕ} → Holds disc pos s → Holds disc (pos + n) t
  Drained-Holds disc h = record {
    shape = Drained-IsRing c (h.shape);
    next_lsn = omega (arith, h.next_lsn, c.same_lsn, c.left);
    held = λ i lt.
        ap₂ (λ b k. get_or b k 0) (c.same_buf) (index_after i (h.shape) lt)
        ∙ h.held (n + i) (omega (arith, c.left))
        ∙ ap (λ k. disc (u32 k)) (omega arith);
  }

  pub Drained-IsLanded : (disc : ℕ → ℕ) {pos : ℕ} → IsLanded disc pos s → IsLanded disc (pos + n) t
  Drained-IsLanded disc l = record {
    free = omega (arith, c.left, c.same_bank, c.same_max, l.free);
    bank = λ j lt.
        ap₂ (λ b k. get_or b (k + j) 0) (c.same_buf) (c.same_write)
        ∙ l.bank j (omega (arith, c.same_bank))
        ∙ ap (λ k. disc (u32 k)) (omega (arith, c.left));
  }

-- A read in progress, or a bank that has arrived, is not touched when sectors are taken.
pub Drained-IsStreaming :
    (disc : ℕ → ℕ) {pos n : ℕ} (d : Drive) (t : Stream)
    → IsStreaming disc pos d
    → Drained n (d.stm) t
    → IsStreaming disc (pos + n) (record d { stm = t })
Drained-IsStreaming disc d t v c = record {
  stream = Drained-Holds c disc (v.stream);
  filling = λ r. elim (v.filling (sym (c.same_reading) ∙ r)) [
    | inl f ↦ inl (still f)
    | inr l ↦ inr (Drained-IsLanded c disc l)
  ];
  busy = λ b. elim (v.busy b) [ inl e ↦ inl e | inr (f, r) ↦ inr (still f, c.same_reading ∙ r) ];
  reads_on = λ r. c.same_stat ∙ v.reads_on (sym (c.same_reading) ∙ r);
  called_on = λ r. c.same_stat ∙ v.called_on r;
  armed_on = λ r. c.same_stat ∙ v.armed_on r;
  calm = record { all_given = v.calm.all_given; apart = v.calm.apart };
}
  where
    still : IsFilling d → IsFilling (record d { stm = t })
    still f = ground (arith, c.left)

-- What `SectorsToCopy` comes to, with no word wrapping.
upper_count_lem :
    (s : Stream) (maxcount : ℕ)
    → IsRing s
    → upper_count s maxcount ≡ (
        if leb (s.write_ptr) (s.read_ptr) && ltb 0 (s.streamed)
        then min maxcount (s.buf_max - s.read_ptr)
        else 0)
unfolding upper_count
upper_count_lem s maxcount v = ground arith

lower_count_lem :
    (s : Stream) (rdptr done maxcount : ℕ)
    → IsRing s
    → lower_count s rdptr done maxcount ≡ (
        if ltb done maxcount && ltb rdptr (s.write_ptr)
        then min (maxcount - done) (s.write_ptr - rdptr)
        else 0)
unfolding lower_count
lower_count_lem s rdptr done maxcount v = ground arith

pub upper_count_bounds :
    (s : Stream) (maxcount : ℕ)
    → IsRing s
    → (upper_count s maxcount ≤ s.streamed)
      × (s.read_ptr + upper_count s maxcount ≤ s.buf_max)
      × (upper_count s maxcount ≤ maxcount)
upper_count_bounds s maxcount v = ground (arith, upper_count_lem s maxcount v)

-- The second copy takes all that the first one has left, up to what is wanted.
pub lower_count_bounds :
    (s : Stream) (n m maxcount rdptr : ℕ)
    → IsRing s
    → n ≡ upper_count s maxcount
    → rdptr ≡ ring_index (s.buf_max) (s.read_ptr + n)
    → m ≡ lower_count s rdptr n maxcount
    → (rdptr + m ≤ s.buf_max) × (n + m ≡ min maxcount (s.streamed))
lower_count_bounds s n m maxcount rdptr v a b c =
    ground (arith, upper_count_lem s maxcount v, lower_count_lem s rdptr n maxcount v)
