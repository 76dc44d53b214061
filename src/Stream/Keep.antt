-- ===== src/Stream/Keep.antt =====
-- A bank that has been read extends what the stream holds.
use opl_future_beta.Base.{ℕ, ◌+◌, ◌-◌, ◌≤◌, ◌<◌, ◌∙◌, ap, refl, ◌⊎◌, get_or, arith, dec_lt}
use opl_future_beta.Stream.State.{u32, Stream, ring}
use opl_future_beta.Stream.Fill.{advance, deliver}
use opl_future_beta.Stream.Memory.{length-write_run, get_or-write_run_in, get_or-write_run_out}
use opl_future_beta.Stream.Bank.{bank_fits, bank_next}
use opl_future_beta.Stream.Invariant.{ring_index, IsRing, Holds, IsLanded}

-- A stored sector does not lie in the free bank.
stored_apart :
    (s : Stream)
    → IsRing s
    → s.streamed + s.bank_size ≤ s.buf_max
    → (i : ℕ) → i < s.streamed
    → (ring_index (s.buf_max) (s.read_ptr + i) < s.write_ptr)
      ⊎ (s.write_ptr + s.bank_size ≤ ring_index (s.buf_max) (s.read_ptr + i))
stored_apart s v free i lt = ground (arith, bank_fits (s.bank_size) (s.write_ptr) (s.buf_max))

-- The counters after a bank has been read.
advance-IsRing : (s : Stream) → IsRing s → s.streamed + s.bank_size ≤ s.buf_max → IsRing (advance s)
unfolding advance
advance-IsRing s v free = ground (
  arith,
  bank_fits (s.bank_size) (s.write_ptr) (s.buf_max),
  bank_next (s.bank_size) (s.write_ptr),
)

module _ (disc : ℕ → ℕ) (pos : ℕ) where
  -- A bank written to the free bank leaves what is stored alone.
  pub deliver-Holds :
      (s : Stream) (lba : ℕ)
      → Holds disc pos s
      → s.streamed + s.bank_size ≤ s.buf_max
      → Holds disc pos (deliver disc (ring (s.write_ptr)) lba (s.bank_size) s)
  unfolding deliver
  deliver-Holds s lba h free = record {
    shape = ground (arith, h.shape, length-write_run disc (s.buf) (s.write_ptr) lba (s.bank_size));
    next_lsn = h.next_lsn;
    held = λ i lt.
        get_or-write_run_out disc (s.buf) (s.write_ptr) lba (s.bank_size) _
          (stored_apart s (h.shape) free i lt)
        ∙ h.held i lt;
  }

  -- The next bank stands in the free bank once it has been read.
  pub deliver-IsLanded :
      (s : Stream)
      → Holds disc pos s
      → s.streamed + s.bank_size ≤ s.buf_max
      → IsLanded disc pos (deliver disc (ring (s.write_ptr)) (s.lsn) (s.bank_size) s)
  unfolding deliver
  deliver-IsLanded s h free = record {
    free = free;
    bank = λ j lt.
        get_or-write_run_in disc (s.buf) (s.write_ptr) (s.lsn) (s.bank_size) j _ lt refl
          (ground (arith, h.shape, bank_fits (s.bank_size) (s.write_ptr) (s.buf_max)))
        ∙ ap disc (omega (arith, h.next_lsn));
  }

  -- A bank that has landed becomes part of the stream.
  pub advance-Holds :
      (s : Stream) → Holds disc pos s → IsLanded disc pos s → Holds disc pos (advance s)
  unfolding advance
  advance-Holds s h l = record {
    shape = advance-IsRing s (h.shape) (l.free);
    next_lsn = ground (arith, h.shape, h.next_lsn, l.free);
    held = λ i lt. elim (dec_lt i (s.streamed)) [
      | yes old ↦ h.held i old
      | no new ↦
          ap (λ k. get_or (s.buf) k 0) {x = ring_index (s.buf_max) (s.read_ptr + i)}
            {y = s.write_ptr + (i - s.streamed)}
            (ground (arith, l.free, bank_fits (s.bank_size) (s.write_ptr) (s.buf_max)))
          ∙ l.bank (i - s.streamed) (omega arith)
          ∙ ap (λ k. disc (u32 (pos + k))) {x = s.streamed + (i - s.streamed)} {y = i} (omega arith)
    ];
  }
