-- ===== src/IoQueue.antt =====
-- The queue of background requests of src/ioman.c: its handlers, its semaphores `gProcSemaId` and
-- `gEndSemaId`, and the worker thread. A call or a part of the worker's loop between two waits is one
-- step. `gEndSemaId` is taken and given back within one step, so it is free between steps.
pub mod Invariant
pub mod Order
pub mod Stuck
pub mod Removal
mod Tests
use opl_future_beta.Base.{
  ℕ, zero, suc, ◌+◌, Bool, true, false, not, ◌&&◌, List, [], ◌∷◌, ◌++◌, Option, none, some, leb,
  ◌==◌, if◌then◌else◌, length, is_at, link_behind,
}

-- `struct io_request_t`. `id` stands for its address, `arg` is its field `data`.
pub record Request : Type 0 where
  pub id : ℕ
  pub type : ℕ
  pub arg : ℕ

-- Where the worker thread is: asleep in `SleepThread`, in its inner loop with `gProcSemaId` taken,
-- behind the call of a handler for the request at an address, or gone, with both semaphores deleted.
pub data Worker : Type 0 where
  asleep : Worker
  working : Worker
  serving : ℕ → Worker
  gone : Worker

-- The variables of the file. `reqs` is the list from `gReqList` on, `end` is `gReqEnd`, and `proc_free`
-- says whether `gProcSemaId` can be taken. A handler is a number.
pub record Io : Type 0 where
  pub terminate : Bool
  pub handlers : List (ℕ × ℕ)
  pub reqs : List Request
  pub end : Option ℕ
  pub proc_free : Bool
  pub blocked : Bool
  pub worker : Worker
  pub next_id : ℕ

-- `IO_OK` and the `IO_ERR` constants.
pub data IoResult : Type 0 where
  io_ok io_too_many_handlers io_duplicit_handler io_invalid_handler io_blocked : IoResult

-- `ioGetHandler`
unfoldable pub io_get_handler : ℕ → List (ℕ × ℕ) → Option ℕ
io_get_handler type [] = none
io_get_handler type ((t, handler) ∷ hs) =
    let rest = io_get_handler type hs in if t == type then some handler else rest

abbrev pub has_handler : ℕ → List (ℕ × ℕ) → Bool
has_handler type hs = elim (io_get_handler type hs) [ none ↦ false | some h ↦ true ]

abbrev pub push_handler : ℕ → ℕ → List (ℕ × ℕ) → List (ℕ × ℕ)
push_handler type handler [] = (type, handler) ∷ []
push_handler type handler (h ∷ hs) = h ∷ push_handler type handler hs

-- Whether `WaitSema(gProcSemaId)` returns: at once where the semaphore is free, and also once it is deleted.
abbrev pub can_take : (proc_free : Bool) → Worker → Bool
can_take true w = true
can_take false asleep = false
can_take false working = false
can_take false (serving id) = false
can_take false gone = true

-- `ioRegisterHandler` behind its `WaitSema`: only the last return gives the semaphore back.
unfoldable pub register_locked : ℕ → Option ℕ → Io → IoResult × Io
register_locked type none s = (io_invalid_handler, s)
register_locked type (some handler) s =
    if leb 64 (length (s.handlers))
    then (io_too_many_handlers, s)
    else if has_handler type (s.handlers)
    then (io_duplicit_handler, s)
    else (io_ok, record s { handlers = push_handler type handler (s.handlers); proc_free = true })

-- `ioRegisterHandler`; `none` while its `WaitSema` waits.
unfoldable pub io_register_handler : ℕ → Option ℕ → Io → Option (IoResult × Io)
io_register_handler type handler s =
    if can_take (s.proc_free) (s.worker)
    then some (register_locked type handler (record s { proc_free = false }))
    else none

-- The queue with a new request at its end: a new list if `gReqEnd` is NULL.
abbrev pub queue : Option ℕ → Request → List Request → List Request
queue none new reqs = new ∷ []
queue (some t) new reqs = link_behind (λ (r : Request). r.id) t new reqs

-- `ioPutRequest` between its semaphore calls.
unfoldable pub enqueue : ℕ → ℕ → Io → Io
enqueue type arg s = record s {
  reqs = queue (s.end) (record { id = s.next_id; type = type; arg = arg }) (s.reqs);
  end = some (s.next_id);
  next_id = s.next_id + 1;
}

-- `ioPutRequest`
unfoldable pub io_put_request : ℕ → ℕ → Io → IoResult × Io
io_put_request type arg s =
    if s.blocked
    then (io_blocked, s)
    else if has_handler type (s.handlers)
    then (io_ok, enqueue type arg s)
    else (io_invalid_handler, s)

-- The loop of `ioRemoveRequests`: the rest of the list, with the address of `last`, `gReqEnd` and the
-- count as they stand.
unfoldable pub remove_from :
    ℕ → List Request → (last end : Option ℕ) (count : ℕ) → List Request × Option ℕ × ℕ
remove_from type [] last end count = ([], end, count)
remove_from type (r ∷ rs) last end count =
    let cut = remove_from type rs last (if is_at (r.id) end then last else end) (count + 1) in
    let kept = remove_from type rs (some (r.id)) end count in
    if r.type == type then cut else (r ∷ kept.0, kept.1, kept.2)

-- `ioRemoveRequests`; `none` while its `WaitSema(gProcSemaId)` waits.
unfoldable pub io_remove_requests : ℕ → Io → Option (ℕ × Io)
unfolding remove_from
io_remove_requests type s =
    let (rs, e, n) = remove_from type (s.reqs) none (s.end) 0 in
    if can_take (s.proc_free) (s.worker) then some (n, record s { reqs = rs; end = e }) else none

-- `ioBlockOps` up to its loop, which waits while there are requests.
unfoldable pub io_block_ops : Bool → Io → Io
io_block_ops block s = record s { blocked = block }

-- `ioEnd`
unfoldable pub io_end : Io → Io
io_end s = record s { terminate = true }

-- The end of the worker thread, which deletes the pending requests and both semaphores and leaves `gReqEnd`: a
-- call that waits for `gProcSemaId` goes on.
unfoldable pub worker_exit : Io → Io
worker_exit s = record s { reqs = []; worker = gone }

-- The top of the outer loop of `ioWorkerThread`.
unfoldable pub worker_sleep : Io → Io
unfolding worker_exit
worker_sleep s = if s.terminate then worker_exit s else record s { worker = asleep }

-- `req->next` of the request at an address.
abbrev pub after : ℕ → List Request → List Request
after id [] = []
after id (r ∷ rs) = if r.id == id then rs else after id rs

-- `gReqList = req->next`, and `gReqEnd` follows an empty list.
unfoldable pub pop : ℕ → Io → Io
pop id s =
    let rs = after id (s.reqs) in
    record s { reqs = rs; end = elim rs [ [] ↦ none | r ∷ rs' ↦ s.end ]; worker = working }

-- A call of a handler: the handler and its argument.
abbrev pub serve : Request → Option ℕ → List (ℕ × ℕ)
serve r none = []
serve r (some handler) = (handler, r.arg) ∷ []

-- `ioWorkerThread` from one wait to the next, with the handlers called; `none` while it waits for
-- `gProcSemaId`, or is gone.
unfoldable pub worker_step : Io → Option (List (ℕ × ℕ) × Io)
unfolding worker_exit worker_sleep pop
worker_step s = elim (s.worker) [
  | asleep ↦
      if s.terminate
      then some ([], worker_exit s)
      else if s.proc_free
      then some ([], record s { worker = working; proc_free = false })
      else none
  | working ↦ elim (s.reqs) [
    | [] ↦ some ([], worker_sleep (record s { proc_free = true }))
    | r ∷ rs ↦
        if s.terminate
        then some ([], worker_sleep (record s { proc_free = true }))
        else some
            (serve r (io_get_handler (r.type) (s.handlers)), record s { worker = serving (r.id) })
  ]
  | serving id ↦ some ([], pop id s)
  | gone ↦ none
]

-- `ioInit` with its handler of `IO_CUSTOM_SIMPLEACTION`, given by its type and number.
unfoldable pub io_init : (type handler : ℕ) (blocked : Bool) → Io
io_init type handler blocked = record {
  terminate = false;
  handlers = (type, handler) ∷ [];
  reqs = [];
  end = none;
  proc_free = true;
  blocked = blocked;
  worker = asleep;
  next_id = 0;
}

-- What may happen next.
pub data Event : Type 0 where
  registers : ℕ → Option ℕ → Event
  puts : ℕ → ℕ → Event
  removes : ℕ → Event
  blocks : Bool → Event
  ends : Event
  works : Event

abbrev pub quietly : Io → List (ℕ × ℕ) × Io
quietly s = ([], s)

-- One step, with the handlers called. A call that waits changes nothing.
unfoldable pub io_step : Event → Io → List (ℕ × ℕ) × Io
io_step (registers type handler) s = elim (io_register_handler type handler s) [
  | some (r, s') ↦ quietly s'
  | none ↦ quietly s
]
io_step (puts type arg) s = quietly ((io_put_request type arg s).1)
io_step (removes type) s = elim (io_remove_requests type s) [
  | some (n, s') ↦ quietly s'
  | none ↦ quietly s
]
io_step (blocks b) s = quietly (io_block_ops b s)
io_step ends s = quietly (io_end s)
io_step works s = elim (worker_step s) [ some r ↦ r | none ↦ quietly s ]

unfoldable pub io_run : List Event → Io → List (ℕ × ℕ) × Io
unfolding io_step
io_run [] s = ([], s)
io_run (e ∷ es) s =
    let (calls, s1) = io_step e s in let (more, s2) = io_run es s1 in (calls ++ more, s2)
