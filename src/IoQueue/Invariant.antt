-- ===== src/IoQueue/Invariant.antt =====
-- The invariant of the request queue of src/ioman.c, and what it says of the list.
use opl_future_beta.Base.{
  ℕ, ◌<◌, ◌≡◌, ◌≢◌, ◌∙◌, ap, ap₂, refl, sym, Bool, true, false, List, [], ◌∷◌, ◌++◌, Option, none,
  some, append_assoc, append-nil, Each, Each-append, last_addr, Apart, link_behind-append,
  last_addr-some, arith,
}
use opl_future_beta.IoQueue.{
  Request, Worker, asleep, working, serving, gone, Io, io_get_handler, has_handler, push_handler,
  queue, serve,
}

abbrev pub addr : Request → ℕ
addr r = r.id

-- What the list and `gProcSemaId` are where the worker is.
abbrev pub IsAt : Worker → List Request → (proc_free : Bool) → Type 0
IsAt asleep reqs p = Unit
IsAt working reqs p = p ≡ false
IsAt (serving id) [] p = ⊥
IsAt (serving id) (r ∷ rs) p = (r.id ≡ id) × (p ≡ false)
IsAt gone reqs p = ⊥

-- A request in the list: its address has been given out, and its type has a handler.
pub record IsRequest (next_id : ℕ) (handlers : List (ℕ × ℕ)) (r : Request) : Type 0 where
  pub given : r.id < next_id
  pub known : has_handler (r.type) handlers ≡ true

pub record IsQueue (s : Io) : Type 0 where
  pub ends_at : s.end ≡ last_addr addr none (s.reqs)
  pub apart : Apart addr (s.reqs)
  pub fits : Each (IsRequest (s.next_id) (s.handlers)) (s.reqs)
  pub at : IsAt (s.worker) (s.reqs) (s.proc_free)
  pub alive : s.terminate ≡ false

-- The requests that no handler has been called for.
abbrev pub pending : Worker → List Request → List Request
pending (serving id) (r ∷ rs) = rs
pending (serving id) [] = []
pending asleep reqs = reqs
pending working reqs = reqs
pending gone reqs = reqs

-- The calls that requests ask for.
abbrev pub calls_of : List (ℕ × ℕ) → List Request → List (ℕ × ℕ)
calls_of hs [] = []
calls_of hs (r ∷ rs) = serve r (io_get_handler (r.type) hs) ++ calls_of hs rs

abbrev pub due : Io → List (ℕ × ℕ)
due s = calls_of (s.handlers) (pending (s.worker) (s.reqs))

pub calls_of-append :
    (hs : List (ℕ × ℕ)) (rs : List Request) (r : Request)
    → calls_of hs (rs ++ r ∷ []) ≡ calls_of hs rs ++ serve r (io_get_handler (r.type) hs)
calls_of-append hs [] r = append-nil (serve r (io_get_handler (r.type) hs))
calls_of-append hs (q ∷ rs) r =
    ap (λ l. serve q (io_get_handler (q.type) hs) ++ l) (calls_of-append hs rs r)
    ∙ sym (append_assoc (serve q (io_get_handler (q.type) hs)) (calls_of hs rs) _)

-- A new handler hides none.
pub get_handler-push :
    (type handler t : ℕ) (hs : List (ℕ × ℕ))
    → has_handler t hs ≡ true
    → io_get_handler t (push_handler type handler hs) ≡ io_get_handler t hs
unfolding io_get_handler
get_handler-push type handler t [] h = cc
get_handler-push type handler t ((u, g) ∷ hs) h = ground (arith, get_handler-push type handler t hs)

pub calls_of-push :
    (n type handler : ℕ) (hs : List (ℕ × ℕ)) (rs : List Request)
    → Each (IsRequest n hs) rs
    → calls_of (push_handler type handler hs) rs ≡ calls_of hs rs
calls_of-push n type handler hs [] f = refl
calls_of-push n type handler hs (r ∷ rs) f =
    ap₂ ◌++◌ (ap (serve r) (get_handler-push type handler (r.type) hs (f.0.known)))
      (calls_of-push n type handler hs rs (f.1))

pub queue-append :
    (t : Option ℕ) (new : Request) (rs : List Request)
    → t ≡ last_addr addr none rs
    → Apart addr rs
    → queue t new rs ≡ rs ++ new ∷ []
queue-append none new [] e d = refl
queue-append (some t) new [] e d = cc
queue-append none new (r ∷ rs) e d = absurd (last_addr-some addr (r.id) rs (sym e))
queue-append (some t) new (r ∷ rs) e d = link_behind-append addr t new r rs d (sym e)

pub Apart-append :
    (n : ℕ) (hs : List (ℕ × ℕ)) (rs : List Request) (new : Request)
    → Each (IsRequest n hs) rs
    → new.id ≡ n
    → Apart addr rs
    → Apart addr (rs ++ new ∷ [])
Apart-append n hs [] new f e d = (tt, tt)
Apart-append n hs (r ∷ rs) new f e d = (
  Each-append (λ (q : Request). q.id ≢ r.id) rs new (d.0) (omega (arith, f.0.given)),
  Apart-append n hs rs new (f.1) e (d.1),
)

pub IsAt-append :
    (w : Worker) (rs : List Request) (p : Bool) (new : Request)
    → IsAt w rs p
    → IsAt w (rs ++ new ∷ []) p
IsAt-append asleep rs p new a = tt
IsAt-append working rs p new a = a
IsAt-append (serving id) [] p new a = absurd a
IsAt-append (serving id) (r ∷ rs) p new a = a
IsAt-append gone rs p new a = absurd a

pub pending-append :
    (w : Worker) (rs : List Request) (p : Bool) (new : Request)
    → IsAt w rs p
    → pending w (rs ++ new ∷ []) ≡ pending w rs ++ new ∷ []
pending-append asleep rs p new a = refl
pending-append working rs p new a = refl
pending-append (serving id) [] p new a = absurd a
pending-append (serving id) (r ∷ rs) p new a = refl
pending-append gone rs p new a = absurd a
