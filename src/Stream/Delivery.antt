-- ===== src/Stream/Delivery.antt =====
-- Every way of copying sectors out, and a play of calls and events in any order.
use opl_future_beta.Base.{
  ℕ, ◌+◌, ◌≡◌, ◌∙◌, ap, refl, sym, subst, Bool, true, false, if-elim, arith, List, [], min, ◌==◌,
  length, ◌⊎◌, inl, inr,
}
use opl_future_beta.Stream.State.{Drive, game, err_no}
use opl_future_beta.Stream.Fill.{set_reading}
use opl_future_beta.Stream.Reader.{plan, read_sectors_ee}
use opl_future_beta.Stream.Control.{
  Copy, iop, ee, copy_sectors, st_read_nonblocking, pausing, sce_cd_sync, sce_cd_st_pause,
  sce_cd_st_resume,
}
use opl_future_beta.Stream.Memory.{sectors, length-sectors}
use opl_future_beta.Stream.Invariant.{Holds, IsFilling, IsCalm, IsStreaming}
use opl_future_beta.Stream.Drain.{Drained-IsStreaming}
use opl_future_beta.Stream.Reading.{read_sectors_lem}
use opl_future_beta.Stream.Arrivals.{
  Grown-trans, wakes-Grown, plan-IsPlanned, stat-commit, transfer-eq-sectors, commit-IsStreaming,
}
use opl_future_beta.Stream.Steps.{
  start_fill_from_game-IsStreaming, finish-Holds, wakes-IsStreaming, settle-IsStreaming,
}

-- `out` is the next part of the disc, and the stream goes on behind it.
pub record Delivers (disc : ℕ → ℕ) (pos : ℕ) (r : List ℕ × Drive) : Type 0 where
  pub in_order : r.0 ≡ sectors disc pos (length (r.0))
  pub goes_on : IsStreaming disc (pos + length (r.0)) (r.1)

module _ (disc : ℕ → ℕ) {pos : ℕ} where
  Delivers-of :
      (out : List ℕ) (d : Drive) (n : ℕ)
      → out ≡ sectors disc pos n
      → IsStreaming disc (pos + n) d
      → Delivers disc pos (out, d)
  Delivers-of out d n e v =
      let k : n ≡ length out = sym (ap length e ∙ length-sectors disc pos n) in
      record {
        in_order = e ∙ ap (sectors disc pos) k;
        goes_on = subst (λ j. IsStreaming disc (pos + j) d) k v;
      }

  pub nothing : (d : Drive) → IsStreaming disc pos d → Delivers disc pos ([], d)
  unfolding sectors
  nothing d v = Delivers-of [] d 0 refl (subst (λ k. IsStreaming disc k d) (omega arith) v)

  -- The number of sectors that a round copies.
  pub copy_sectors_count :
      (c : Copy) (maxcount : ℕ) (d : Drive)
      → IsStreaming disc pos d
      → ((copy_sectors disc c maxcount d).0 ≡ sectors disc pos (min maxcount (d.stm.streamed)))
        × IsStreaming disc
            (pos + min maxcount (d.stm.streamed))
            ((copy_sectors disc c maxcount d).1)
        × ((copy_sectors disc c maxcount d).1.stm.stat ≡ d.stm.stat)
  unfolding copy_sectors read_sectors_ee
  copy_sectors_count iop maxcount d v =
      let r = read_sectors_lem disc (d.stm) maxcount (v.stream) in
      (r.0, Drained-IsStreaming disc d _ v (r.1), r.1.same_stat)
  copy_sectors_count (ee before after) maxcount d v =
      let p = plan-IsPlanned (d.stm) maxcount (v.stream.shape) in
      let v1 = wakes-IsStreaming disc pos before d v in
      let g1 = wakes-Grown disc before d v in
      let v2 = wakes-IsStreaming disc pos after _ v1 in
      let g2 = Grown-trans g1 (wakes-Grown disc after _ v1) in
      let n = p.copies.total in
      (
        transfer-eq-sectors disc (d.stm) _ maxcount (plan maxcount (d.stm)) p g1 (v1.stream)
            ∙ ap (sectors disc pos) n,
        subst (λ k. IsStreaming disc (pos + k) ((read_sectors_ee disc before after maxcount d).1)) n
            (commit-IsStreaming disc (d.stm) _ maxcount (plan maxcount (d.stm)) p g2 v2),
        stat-commit (plan maxcount (d.stm)) _ ∙ g2.same_stat,
      )

  pub copy_sectors-Delivers :
      (c : Copy) (maxcount : ℕ) (d : Drive)
      → IsStreaming disc pos d
      → Delivers disc pos (copy_sectors disc c maxcount d)
  copy_sectors-Delivers c maxcount d v =
      let r = copy_sectors_count c maxcount d v in Delivers-of _ _ _ (r.0) (r.1)

  -- A change of `err` and `status` alone.
  pub IsStreaming-pausing : (d : Drive) → IsStreaming disc pos d → IsStreaming disc pos (pausing d)
  unfolding pausing
  IsStreaming-pausing d v =
      ground (arith, v.stream, v.filling, v.busy, v.reads_on, v.called_on, v.armed_on, v.calm)

  pub err_no-IsStreaming :
      (d : Drive) → IsStreaming disc pos d → IsStreaming disc pos (record d { err = err_no })
  err_no-IsStreaming d v =
      ground (arith, v.stream, v.filling, v.busy, v.reads_on, v.called_on, v.armed_on, v.calm)

  pub pause-IsStreaming :
      (d : Drive) → IsStreaming disc pos d → IsStreaming disc pos ((sce_cd_st_pause disc d).1)
  unfolding sce_cd_st_pause sce_cd_sync pausing
  pause-IsStreaming d v =
      if-elim (λ (r : Bool × Drive). IsStreaming disc pos (r.1)) (d.stm.stat)
        (λ _.
          settle-IsStreaming disc pos halted halted-Holds
            (λ b. finish-Holds disc pos halted halted-IsCalm halted-Holds (halted_busy b)) refl refl
            refl halted-IsCalm)
        (λ _. IsStreaming-pausing d v)
    where
      halted : Drive
      halted = set_reading false (record (pausing d) { alarm = false; callback = false })

      halted-Holds : Holds disc pos (halted.stm)
      halted-Holds = ground (arith, v.stream)

      halted-IsCalm : IsCalm halted
      halted-IsCalm = record { all_given = v.calm.all_given; apart = v.calm.apart }

      halted_busy : d.sync_flag ≡ true → (d.cdread_buf ≡ game) ⊎ IsFilling halted
      halted_busy b = elim (v.busy b) [ inl e ↦ inl e | inr (f, _) ↦ inr (ground (arith, f)) ]

  pub resume-IsStreaming :
      (d : Drive) → IsStreaming disc pos d → IsStreaming disc pos ((sce_cd_st_resume d).1)
  unfolding sce_cd_st_resume pausing
  resume-IsStreaming d v =
      if-elim (λ (r : Bool × Drive). IsStreaming disc pos (r.1)) (d.stm.stat)
        (λ on. start_fill_from_game-IsStreaming disc pos _ (resumed on) on)
        (λ _. IsStreaming-pausing d v)
    where
      resumed : d.stm.stat ≡ true → IsStreaming disc pos (record (pausing d) { callback = true })
      resumed on =
          ground (arith, v.stream, v.filling, v.busy, v.reads_on, v.called_on, v.armed_on, v.calm)

  pub st_read_nonblocking-Delivers :
      (c : Copy) (n : ℕ) (d : Drive)
      → IsStreaming disc pos d
      → Delivers disc pos (st_read_nonblocking disc c n d)
  unfolding st_read_nonblocking
  st_read_nonblocking-Delivers c n d v =
      if-elim (Delivers disc pos) (d.stm.stat)
        (λ on.
          if-elim (Delivers disc pos) (n == 0)
            (λ _.
              nothing _ (start_fill_from_game-IsStreaming disc pos _ (err_no-IsStreaming d v) on))
            (λ _.
              let r = copy_sectors_count c n (record d { err = err_no }) (err_no-IsStreaming d v) in
              Delivers-of _ _ _ (r.0) (start_fill_from_game-IsStreaming disc _ _ (r.1) (r.2 ∙ on))))
        (λ _. nothing _ (err_no-IsStreaming d v))
