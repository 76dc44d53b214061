-- ===== src/IoQueue/Stuck.antt =====
-- `ioRegisterHandler` of src/ioman.c when it fails.
use opl_future_beta.Base.{
  ℕ, ◌≡◌, ◌≢◌, ap, ap₂, refl, sym, subst, subst₃, Each, Bool, true, false, List, [], ◌∷◌, ◌++◌,
  Option, none, some, leb, length, if◌then◌else◌, if-elim,
}
use opl_future_beta.IoQueue.{
  asleep, can_take, Io, IoResult, io_ok, has_handler, register_locked, io_register_handler, enqueue,
  io_put_request, io_remove_requests, io_block_ops, worker_step, worker_exit, Event, registers,
  puts, removes, blocks, ends, works, io_step, io_run,
}

-- `gProcSemaId` is taken, the worker is asleep, and `ioEnd` has not been called.
pub record IsStuck (s : Io) : Type 0 where
  pub taken : s.proc_free ≡ false
  pub at_rest : s.worker ≡ asleep
  pub alive : s.terminate ≡ false

-- Anything but `ioEnd`.
abbrev pub GoesOn : Event → Type 0
GoesOn (registers type handler) = Unit
GoesOn (puts type arg) = Unit
GoesOn (removes type) = Unit
GoesOn (blocks b) = Unit
GoesOn ends = ⊥
GoesOn works = Unit

abbrev Quiet : List (ℕ × ℕ) × Io → Type 0
Quiet r = (r.0 ≡ []) × IsStuck (r.1)

put-IsStuck : (type arg : ℕ) (s : Io) → IsStuck s → IsStuck ((io_put_request type arg s).1)
unfolding io_put_request enqueue
put-IsStuck type arg s v =
    if-elim (λ (r : IoResult × Io). IsStuck (r.1)) (s.blocked) (λ _. v)
      (λ _.
        if-elim (λ (r : IoResult × Io). IsStuck (r.1)) (has_handler type (s.handlers))
          (λ _. record { taken = v.taken; at_rest = v.at_rest; alive = v.alive }) (λ _. v))

stuck_at :
    (e : Event) (s : Io)
    → GoesOn e
    → Quiet (io_step e (record s { worker = asleep; proc_free = false; terminate = false }))
unfolding io_step io_register_handler io_remove_requests io_block_ops worker_step worker_exit
stuck_at (registers type handler) s k =
    (refl, record { taken = refl; at_rest = refl; alive = refl })
stuck_at (puts type arg) s k =
    (refl, put-IsStuck type arg _ (record { taken = refl; at_rest = refl; alive = refl }))
stuck_at (removes type) s k = (refl, record { taken = refl; at_rest = refl; alive = refl })
stuck_at (blocks b) s k = (refl, record { taken = refl; at_rest = refl; alive = refl })
stuck_at ends s k = absurd k
stuck_at works s k = (refl, record { taken = refl; at_rest = refl; alive = refl })

step-Quiet : (e : Event) (s : Io) → GoesOn e → IsStuck s → Quiet (io_step e s)
step-Quiet e s k v =
    subst₃ (λ w p t. Quiet (io_step e (record s { worker = w; proc_free = p; terminate = t })))
      (sym (v.at_rest)) (sym (v.taken)) (sym (v.alive)) (stuck_at e s k)

run-Quiet : (es : List Event) (s : Io) → Each GoesOn es → IsStuck s → Quiet (io_run es s)
unfolding io_run
run-Quiet [] s k v = (refl, v)
run-Quiet (e ∷ es) s (k, ks) v =
    let a = step-Quiet e s k v in
    let b = run-Quiet es ((io_step e s).1) ks (a.1) in (ap₂ ◌++◌ (a.0) (b.0), b.1)

-- An error keeps the semaphore.
abbrev Leaks : IoResult × Io → Type 0
Leaks r = r.0 ≢ io_ok → IsStuck (r.1)

register_locked-Leaks :
    (type : ℕ) (handler : Option ℕ) (s : Io)
    → s.worker ≡ asleep
    → s.terminate ≡ false
    → Leaks (register_locked type handler (record s { proc_free = false }))
unfolding register_locked
register_locked-Leaks type none s v t = λ n. record { taken = refl; at_rest = v; alive = t }
register_locked-Leaks type (some h) s v t =
    if-elim Leaks (leb 64 (length (s.handlers)))
      (λ _ _. record { taken = refl; at_rest = v; alive = t })
      (λ _.
        if-elim Leaks (has_handler type (s.handlers))
          (λ _ _. record { taken = refl; at_rest = v; alive = t }) (λ _ n. absurd (n refl)))

returned :
    (p : Bool) (x : IoResult × Io) (r : IoResult) (s' : Io)
    → (if p then some x else none) ≡ some (r, s')
    → x ≡ (r, s')
returned true x r s' e =
    ap (λ (o : Option (IoResult × Io)). elim o as (λ _. IoResult × Io) [ some y ↦ y | none ↦ x ]) e
returned false x r s' e = cc

-- When `ioRegisterHandler` returns an error while the worker is asleep and `ioEnd` has not been called, it keeps
-- `gProcSemaId`: whatever happens afterwards until `ioEnd` is called, no handler is ever called again, the worker
-- stays asleep and the semaphore stays taken.
pub register_fails-IsStuck :
    (type : ℕ) (handler : Option ℕ) (s s' : Io) (r : IoResult) (es : List Event)
    → s.worker ≡ asleep
    → s.terminate ≡ false
    → Each GoesOn es
    → io_register_handler type handler s ≡ some (r, s')
    → r ≢ io_ok
    → ((io_run es s').0 ≡ []) × IsStuck ((io_run es s').1)
unfolding io_register_handler
register_fails-IsStuck type handler s s' r es v t k e n = run-Quiet es s' k (
    subst Leaks (returned (can_take (s.proc_free) (s.worker)) _ r s' e)
      (register_locked-Leaks type handler s v t) n)
