-- ===== src/IoQueue/Order.antt =====
-- The order in which the worker thread of src/ioman.c calls the handlers.
use opl_future_beta.Base.{
  ℕ, ◌+◌, ◌≡◌, ◌∙◌, ap, refl, sym, subst, Bool, true, false, List, [], ◌∷◌, ◌++◌, Option, none,
  some, leb, length, append_assoc, append-nil, Each, Each-append, Each-mono, last_addr, Apart,
  last_addr-append, arith, if◌then◌else◌, ◌==◌, if-elim,
}
use opl_future_beta.IoQueue.{
  Request, Worker, asleep, working, serving, gone, Io, IoResult, io_ok, io_blocked,
  io_invalid_handler, io_get_handler, has_handler, push_handler, queue, serve, register_locked,
  io_register_handler, enqueue, io_put_request, io_block_ops, worker_sleep, pop, worker_step, after,
  Event, registers, puts, removes, blocks, ends, works, io_step, io_run, io_init,
}
use opl_future_beta.IoQueue.Invariant.{
  addr, IsAt, IsRequest, IsQueue, pending, calls_of, due, calls_of-append, calls_of-push,
  get_handler-push, queue-append, Apart-append, IsAt-append, pending-append,
}

-- The call that an accepted request asks for; nothing for another event, or a request turned down.
abbrev pub accepted : Event → Io → List (ℕ × ℕ)
accepted (puts type arg) s =
    if s.blocked
    then []
    else elim (io_get_handler type (s.handlers)) [ none ↦ [] | some h ↦ (h, arg) ∷ [] ]
accepted (registers type handler) s = []
accepted (removes type) s = []
accepted (blocks b) s = []
accepted ends s = []
accepted works s = []

abbrev pub all_accepted : List Event → Io → List (ℕ × ℕ)
all_accepted [] s = []
all_accepted (e ∷ es) s = accepted e s ++ all_accepted es ((io_step e s).1)

-- Neither `ioRemoveRequests` nor `ioEnd`.
abbrev pub Keeps : Event → Type 0
Keeps (registers type handler) = Unit
Keeps (puts type arg) = Unit
Keeps (removes type) = ⊥
Keeps (blocks b) = Unit
Keeps ends = ⊥
Keeps works = Unit

-- What a step from `s` has to give.
pub record Ordered (s : Io) (new : List (ℕ × ℕ)) (r : List (ℕ × ℕ) × Io) : Type 0 where
  pub next : IsQueue (r.1)
  pub order : r.0 ++ due (r.1) ≡ due s ++ new

stays-Ordered : (s : Io) → IsQueue s → Ordered s [] ([], s)
stays-Ordered s v = record { next = v; order = sym (append-nil (due s)) }

enqueue-Ordered :
    (type arg h : ℕ) (s : Io)
    → IsQueue s
    → io_get_handler type (s.handlers) ≡ some h
    → Ordered s ((h, arg) ∷ []) ([], enqueue type arg s)
unfolding enqueue
enqueue-Ordered type arg h s v e =
    let new : Request = record { id = s.next_id; type = type; arg = arg } in
    let q : queue (s.end) new (s.reqs) ≡ s.reqs ++ new ∷ [] =
      queue-append (s.end) new (s.reqs) (v.ends_at) (v.apart) in
    record {
      next = record {
        ends_at = sym (ap (last_addr addr none) q ∙ last_addr-append addr none (s.reqs) new);
        apart =
            subst (Apart addr) (sym q)
              (Apart-append (s.next_id) (s.handlers) (s.reqs) new (v.fits) refl (v.apart));
        fits = subst (Each (IsRequest (s.next_id + 1) (s.handlers))) (sym q) (
            Each-append (IsRequest (s.next_id + 1) (s.handlers)) (s.reqs) new
              (Each-mono (s.reqs)
                (λ r f. record { given = omega (arith, f.given); known = f.known }) (v.fits))
              (record { given = omega arith; known = ground (arith, e) }));
        at =
            subst (λ l. IsAt (s.worker) l (s.proc_free)) (sym q)
              (IsAt-append (s.worker) (s.reqs) (s.proc_free) new (v.at));
        alive = v.alive;
      };
      order =
          ap (λ l. calls_of (s.handlers) (pending (s.worker) l)) q
          ∙ ap (calls_of (s.handlers)) (pending-append (s.worker) (s.reqs) (s.proc_free) new (v.at))
          ∙ calls_of-append (s.handlers) (pending (s.worker) (s.reqs)) new
          ∙ ap (λ o. due s ++ serve new o) e;
    }

-- A new handler, while the worker does not hold `gProcSemaId`.
register-Ordered :
    (type handler : ℕ) (p : Bool) (w : Worker) (s : Io)
    → IsQueue (record s { worker = w; proc_free = true })
    → Ordered
        (record s { worker = w; proc_free = true })
        []
        (
          [],
          record s { worker = w; handlers = push_handler type handler (s.handlers); proc_free = p },
        )
register-Ordered type handler p working s v = absurd (let h = v.at in cc)
register-Ordered type handler p (serving id) s v = absurd (held (s.reqs) (v.at))
  where
    held : (rs : List Request) → IsAt (serving id) rs true → ⊥
    held [] a = a
    held (r ∷ rs) a = let h = a.1 in cc
register-Ordered type handler p gone s v = absurd (v.at)
register-Ordered type handler p asleep s v = record {
  next = record {
    ends_at = v.ends_at;
    apart = v.apart;
    fits =
        Each-mono (s.reqs)
          (λ r f. record {
            given = f.given;
            known =
                ground
                  (arith, f.known, get_handler-push type handler (r.type) (s.handlers) (f.known));
          })
          (v.fits);
    at = tt;
    alive = v.alive;
  };
  order =
      calls_of-push (s.next_id) type handler (s.handlers) (s.reqs) (v.fits)
      ∙ sym (append-nil (calls_of (s.handlers) (s.reqs)));
}

-- `gProcSemaId` is taken and not given back.
leak-Ordered :
    (w : Worker) (s : Io)
    → IsQueue (record s { worker = w; proc_free = true })
    → Ordered
        (record s { worker = w; proc_free = true })
        []
        ([], record s { worker = w; proc_free = false })
leak-Ordered working s v = absurd (let h = v.at in cc)
leak-Ordered (serving id) s v = absurd (held (s.reqs) (v.at))
  where
    held : (rs : List Request) → IsAt (serving id) rs true → ⊥
    held [] a = a
    held (r ∷ rs) a = let h = a.1 in cc
leak-Ordered gone s v = absurd (v.at)
leak-Ordered asleep s v = record {
  next = record { ends_at = v.ends_at; apart = v.apart; fits = v.fits; at = tt; alive = v.alive };
  order = sym (append-nil (due (record s { worker = asleep })));
}

-- The list once its head has been taken off.
popped-Ordered :
    (id : ℕ) (r : Request) (rs : List Request) (p : Bool) (s : Io)
    → IsQueue (record s { worker = serving id; reqs = r ∷ rs; proc_free = p; terminate = false })
    → Ordered
        (record s { worker = serving id; reqs = r ∷ rs; proc_free = p; terminate = false })
        []
        (
          [],
          record s {
            worker = working;
            reqs = rs;
            proc_free = p;
            terminate = false;
            end = elim rs [ [] ↦ none | q ∷ qs ↦ s.end ];
          },
        )
popped-Ordered id r [] p s v = record {
  next = record { ends_at = refl; apart = tt; fits = tt; at = v.at.1; alive = refl };
  order = refl;
}
popped-Ordered id r (q ∷ qs) p s v = record {
  next = record {
    ends_at = v.ends_at;
    apart = v.apart.1;
    fits = v.fits.1;
    at = v.at.1;
    alive = refl;
  };
  order = sym (append-nil (calls_of (s.handlers) (q ∷ qs)));
}

pop-Ordered :
    (id : ℕ) (r : Request) (rs : List Request) (p : Bool) (s : Io)
    → IsQueue (record s { worker = serving id; reqs = r ∷ rs; proc_free = p; terminate = false })
    → Ordered
        (record s { worker = serving id; reqs = r ∷ rs; proc_free = p; terminate = false })
        []
        (
          [],
          pop id
              (record s { worker = serving id; reqs = r ∷ rs; proc_free = p; terminate = false }),
        )
unfolding pop
pop-Ordered id r rs p s v =
    let head : after id (r ∷ rs) ≡ rs =
      (let k : (r.id == id) ≡ true = ground (arith, v.at.0) in rw k refl) in
    subst
      (λ (l : List Request).
        Ordered (record s { worker = serving id; reqs = r ∷ rs; proc_free = p; terminate = false })
          []
          (
            [],
            record s {
              worker = working;
              reqs = l;
              proc_free = p;
              terminate = false;
              end = elim l [ [] ↦ none | q ∷ qs ↦ s.end ];
            },
          ))
      (sym head) (popped-Ordered id r rs p s v)

-- The worker's step in a state given by its parts.
work_at :
    (w : Worker) (rs : List Request) (p t : Bool) (s : Io)
    → IsQueue (record s { worker = w; reqs = rs; proc_free = p; terminate = t })
    → Ordered
        (record s { worker = w; reqs = rs; proc_free = p; terminate = t })
        []
        (io_step works (record s { worker = w; reqs = rs; proc_free = p; terminate = t }))
unfolding io_step worker_step worker_sleep pop
work_at w rs p true s v = absurd (let h = v.alive in cc)
work_at asleep rs true false s v = record {
  next = record { ends_at = v.ends_at; apart = v.apart; fits = v.fits; at = refl; alive = refl };
  order = sym (append-nil (calls_of (s.handlers) rs));
}
work_at asleep rs false false s v = stays-Ordered _ v
work_at working [] p false s v = record {
  next = record { ends_at = v.ends_at; apart = tt; fits = tt; at = tt; alive = refl };
  order = refl;
}
work_at working (r ∷ rs) p false s v = record {
  next = record {
    ends_at = v.ends_at;
    apart = v.apart;
    fits = v.fits;
    at = (refl, v.at);
    alive = refl;
  };
  order = sym (append-nil (calls_of (s.handlers) (r ∷ rs)));
}
work_at (serving id) [] p false s v = absurd (v.at)
work_at (serving id) (r ∷ rs) p false s v = pop-Ordered id r rs p s v
work_at gone rs p false s v = absurd (v.at)

register_at :
    (type : ℕ) (handler : Option ℕ) (w : Worker) (p : Bool) (s : Io)
    → IsQueue (record s { worker = w; proc_free = p })
    → Ordered
        (record s { worker = w; proc_free = p })
        []
        (io_step (registers type handler) (record s { worker = w; proc_free = p }))
unfolding io_step io_register_handler register_locked
register_at type handler asleep false s v = stays-Ordered _ v
register_at type handler working false s v = stays-Ordered _ v
register_at type handler (serving id) false s v = stays-Ordered _ v
register_at type handler gone false s v = absurd (v.at)
register_at type none w true s v = leak-Ordered w s v
register_at type (some h) w true s v =
    if-elim
      (λ (r : IoResult × Io). Ordered (record s { worker = w; proc_free = true }) [] ([], r.1))
      (leb 64 (length (s.handlers))) (λ _. leak-Ordered w s v)
      (λ _.
        if-elim
          (λ (r : IoResult × Io). Ordered (record s { worker = w; proc_free = true }) [] ([], r.1))
          (has_handler type (s.handlers)) (λ _. leak-Ordered w s v)
          (λ _. register-Ordered type h true w s v))

put_by :
    (type arg : ℕ) (s : Io)
    → IsQueue s
    → (b : Bool) (o : Option ℕ) → io_get_handler type (s.handlers) ≡ o
    → Ordered s (if b then [] else elim o [ none ↦ [] | some h ↦ (h, arg) ∷ [] ]) (
      [],
      (if◌then◌else◌ {A = IoResult × Io} b
          (io_blocked, s)
          (if elim o [ none ↦ false | some h ↦ true ]
            then (io_ok, enqueue type arg s)
            else (io_invalid_handler, s))).1,
    )
put_by type arg s v true o e = stays-Ordered s v
put_by type arg s v false none e = stays-Ordered s v
put_by type arg s v false (some h) e = enqueue-Ordered type arg h s v e

put-Ordered :
    (type arg : ℕ) (s : Io)
    → IsQueue s
    → Ordered s (accepted (puts type arg) s) (io_step (puts type arg) s)
unfolding io_step io_put_request
put-Ordered type arg s v = put_by type arg s v (s.blocked) (io_get_handler type (s.handlers)) refl

step-Ordered : (e : Event) (s : Io) → Keeps e → IsQueue s → Ordered s (accepted e s) (io_step e s)
unfolding io_step io_block_ops
step-Ordered (registers type handler) s k v = register_at type handler (s.worker) (s.proc_free) s v
step-Ordered (puts type arg) s k v = put-Ordered type arg s v
step-Ordered (removes type) s k v = absurd k
step-Ordered (blocks b) s k v = record {
  next = record { ends_at = v.ends_at; apart = v.apart; fits = v.fits; at = v.at; alive = v.alive };
  order = sym (append-nil (due s));
}
step-Ordered ends s k v = absurd k
step-Ordered works s k v = work_at (s.worker) (s.reqs) (s.proc_free) (s.terminate) s v

run-Ordered :
    (es : List Event) (s : Io)
    → Each Keeps es
    → IsQueue s
    → Ordered s (all_accepted es s) (io_run es s)
unfolding io_run
run-Ordered [] s k v = stays-Ordered s v
run-Ordered (e ∷ es) s k v =
    let a = step-Ordered e s (k.0) v in
    let s1 = (io_step e s).1 in
    let b = run-Ordered es s1 (k.1) (a.next) in
    record {
      next = b.next;
      order =
          append_assoc ((io_step e s).0) ((io_run es s1).0) (due ((io_run es s1).1))
          ∙ ap (λ l. (io_step e s).0 ++ l) (b.order)
          ∙ sym (append_assoc ((io_step e s).0) (due s1) (all_accepted es s1))
          ∙ ap (λ l. l ++ all_accepted es s1) (a.order)
          ∙ append_assoc (due s) (accepted e s) (all_accepted es s1);
    }

-- From `ioInit` on, whatever registrations, requests, blockings and steps of the worker follow, and in
-- whatever order, as long as no requests are removed and `ioEnd` is not called: the handlers called so
-- far, followed by those that the queue still asks for, are those of the accepted requests, each once and
-- in the order of their acceptance.
pub io_run-Fifo :
    (es : List Event) (type handler : ℕ) (blocked : Bool)
    → Each Keeps es
    → let s = io_init type handler blocked in
      (io_run es s).0 ++ due ((io_run es s).1) ≡ all_accepted es s
unfolding io_init
io_run-Fifo es type handler blocked k =
    (run-Ordered es (io_init type handler blocked) k
      (record { ends_at = refl; apart = tt; fits = tt; at = tt; alive = refl })).order
