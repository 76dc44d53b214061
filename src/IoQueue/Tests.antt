-- ===== src/IoQueue/Tests.antt =====
-- The theorems on src/ioman.c at concrete queues.
use opl_future_beta.Base.{
  ◌-◌, ◌≡◌, refl, false, List, [], ◌∷◌, ◌++◌, none, some, length, arith, Each,
}
use opl_future_beta.IoQueue.{
  Io, io_invalid_handler, io_init, io_run, io_step, io_get_handler, io_register_handler,
  register_locked, io_put_request, enqueue, io_remove_requests, remove_from, io_block_ops,
  worker_step, worker_sleep, pop, Event, registers, puts, works,
}
use opl_future_beta.IoQueue.Invariant.{IsQueue, due}
use opl_future_beta.IoQueue.Order.{Keeps, all_accepted, io_run-Fifo}
use opl_future_beta.IoQueue.Stuck.{IsStuck, GoesOn, register_fails-IsStuck}
use opl_future_beta.IoQueue.Removal.{others, removed, io_remove_requests-IsQueue}

-- A handler for type 2, three requests, and the worker's steps in between.
abbrev script : List Event
script =
    registers 2 (some 20)
    ∷ puts 2 5
    ∷ puts 1 6
    ∷ works
    ∷ works
    ∷ puts 2 7
    ∷ puts 9 8
    ∷ works
    ∷ works
    ∷ works
    ∷ []

abbrev fresh : Io
fresh = io_init 1 10 false

script-Keeps : Each Keeps script
script-Keeps = (tt, (tt, (tt, (tt, (tt, (tt, (tt, (tt, (tt, (tt, tt))))))))))

io_run-Fifo_example :
    (io_run script fresh).0 ++ due ((io_run script fresh).1) ≡ all_accepted script fresh
io_run-Fifo_example = io_run-Fifo script 1 10 false script-Keeps

-- For the tests: every function of the queue.
queue_code : Unit {0}
unfolding io_run io_step io_init io_register_handler register_locked io_get_handler io_put_request
    enqueue io_remove_requests remove_from io_block_ops worker_step worker_sleep pop
queue_code = tt

script_test :
    ((io_run script fresh).0 ≡ (20, 5) ∷ (10, 6) ∷ [])
    × (due ((io_run script fresh).1) ≡ (20, 7) ∷ [])
unfolding queue_code
script_test = (refl, refl)

-- What a registration without a handler leaves.
abbrev locked : Io
locked = record fresh { proc_free = false }

register_null : io_register_handler 2 none fresh ≡ some (io_invalid_handler, locked)
unfolding queue_code
register_null = refl

script-GoesOn : Each GoesOn script
script-GoesOn = (tt, (tt, (tt, (tt, (tt, (tt, (tt, (tt, (tt, (tt, tt))))))))))

register_fails-IsStuck_example :
    ((io_run script locked).0 ≡ []) × IsStuck ((io_run script locked).1)
unfolding queue_code
register_fails-IsStuck_example =
    register_fails-IsStuck 2 none fresh locked io_invalid_handler script refl refl script-GoesOn
      register_null (λ e. cc)

abbrev waiting : Io
waiting = record fresh {
  handlers = (1, 10) ∷ (2, 20) ∷ [];
  reqs =
      record { id = 0; type = 2; arg = 5 }
      ∷ record { id = 1; type = 1; arg = 6 }
      ∷ record { id = 2; type = 2; arg = 7 }
      ∷ [];
  end = some 2;
  next_id = 3;
}

waiting-IsQueue : IsQueue waiting
unfolding queue_code
waiting-IsQueue = record {
  ends_at = refl;
  apart = ((omega arith, (omega arith, tt)), ((omega arith, tt), (tt, tt)));
  fits = (
    record { given = omega arith; known = refl },
    (
      record { given = omega arith; known = refl },
      (record { given = omega arith; known = refl }, tt),
    ),
  );
  at = tt;
  alive = refl;
}

io_remove_requests-IsQueue_example :
    (io_remove_requests 2 waiting
      ≡ some (length (waiting.reqs) - length (others 2 (waiting.reqs)), removed 2 waiting))
    × IsQueue (removed 2 waiting)
unfolding io_init
io_remove_requests-IsQueue_example = io_remove_requests-IsQueue 2 waiting waiting-IsQueue refl
