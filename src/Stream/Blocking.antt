-- ===== src/Stream/Blocking.antt =====
-- `sceCdStRead` in the mode that waits until all sectors have been read: when it returns, and when
-- it cannot.
use opl_future_beta.Base.{
  ℕ, ◌+◌, ◌-◌, ◌≤◌, ◌<◌, ◌≡◌, ◌∙◌, ap, refl, true, false, Option, none, some, arith, List, [], ◌∷◌,
  length, ◌==◌, min,
}
use opl_future_beta.Stream.State.{Drive, err_no}
use opl_future_beta.Stream.Fill.{
  Wake, thread_runs, alarm_rings, game_reads, wake, wakes, cdread_thread, stm_schedule_cb,
  start_fill_from_game,
}
use opl_future_beta.Stream.Control.{Copy, copy_sectors, read_rounds, fill_after, st_read_blocking}
use opl_future_beta.Stream.Memory.{sectors, length-sectors}
use opl_future_beta.Stream.Invariant.{IsStreaming}
use opl_future_beta.Stream.Arrivals.{wakes-Grown}
use opl_future_beta.Stream.Delivery.{copy_sectors_count, err_no-IsStreaming}
use opl_future_beta.Stream.Steps.{wakes-IsStreaming}

-- A read that returns has read exactly `n` sectors from `pos` on.
abbrev Complete : (ℕ → ℕ) → ℕ → ℕ → Option (List ℕ × Drive) → Type 0
Complete disc pos n none = Unit
Complete disc pos n (some (out, d)) =
    (out ≡ sectors disc pos n) × IsStreaming disc (pos + n) d × (d.stm.stat ≡ true)

module _ (disc : ℕ → ℕ) (c : Copy) (pos : ℕ) where
  read_rounds_zero :
      (schedule : List (List Wake)) (out : List ℕ) (d : Drive)
      → read_rounds disc c schedule 0 out d ≡ some (out, d)
  unfolding read_rounds
  read_rounds_zero [] out d = refl
  read_rounds_zero (ws ∷ schedule) out d = refl

  -- On a well formed drive with `StStat` set, a blocking read of at least one sector, and of no more than
  -- are stored, is done after one round: it returns these sectors, and asks for the next bank,
  -- whatever happens before that round.
  pub st_read_blocking_returns :
      (ws : List Wake) (schedule : List (List Wake)) (n : ℕ) (d : Drive)
      → IsStreaming disc pos d
      → d.stm.stat ≡ true
      → 0 < n
      → n ≤ d.stm.streamed
      → st_read_blocking disc c (ws ∷ schedule) n d
        ≡ some (
          sectors disc pos n,
          start_fill_from_game
              ((copy_sectors disc c n (wakes disc ws (record d { err = err_no }))).1),
        )
  unfolding st_read_blocking read_rounds fill_after
  st_read_blocking_returns ws schedule n d v on p le =
      let d' = wakes disc ws (record d { err = err_no }) in
      let g = wakes-Grown disc ws (record d { err = err_no }) (err_no-IsStreaming disc d v) in
      let r =
        copy_sectors_count disc c n d'
          (wakes-IsStreaming disc _ ws _ (err_no-IsStreaming disc d v)) in
      let k : min n (d'.stm.streamed) ≡ n = omega (arith, g.more) in
      let e : (copy_sectors disc c n d').0 ≡ sectors disc pos n = r.0 ∙ ap (sectors disc pos) k in
      let z : n - length (sectors disc pos n) ≡ 0 = omega (arith, length-sectors disc pos n) in
      let t : (n == 0) ≡ false = ground arith in simp (on, t, z, read_rounds_zero, e)

-- Nothing will happen by itself: no read is in progress and the alarm is not set.
pub record IsQuiet (d : Drive) : Type 0 where
  pub idle : d.sync_flag ≡ false
  pub unarmed : d.alarm ≡ false

-- The game asks for no read of its own.
abbrev pub Waits : List Wake → Type 0
Waits [] = Unit
Waits (game_reads lba n ∷ ws) = ⊥
Waits (w ∷ ws) = Waits ws

abbrev pub AllWait : List (List Wake) → Type 0
AllWait [] = Unit
AllWait (ws ∷ schedule) = Waits ws × AllWait schedule

pub wakes-IsQuiet :
    (disc : ℕ → ℕ) (ws : List Wake) (d : Drive) → Waits ws → IsQuiet d → wakes disc ws d ≡ d
unfolding wakes wake cdread_thread stm_schedule_cb
wakes-IsQuiet disc [] d h q = refl
wakes-IsQuiet disc (thread_runs ∷ ws) d h q = simp (q.idle) (wakes-IsQuiet disc ws d h q)
wakes-IsQuiet disc (alarm_rings ∷ ws) d h q = simp (q.unarmed) (wakes-IsQuiet disc ws d h q)
wakes-IsQuiet disc (game_reads lba n ∷ ws) d h q = elim h [ ]
