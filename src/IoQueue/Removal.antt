-- ===== src/IoQueue/Removal.antt =====
-- `ioRemoveRequests` of src/ioman.c.
use opl_future_beta.Base.{
  ℕ, ◌+◌, ◌-◌, ◌≡◌, ◌≢◌, ◌∙◌, ap, ap₂, refl, sym, Bool, true, List, [], ◌∷◌, Option, none, some,
  length, Bool-cases, inl, inr, Each, is_at, last_addr, Apart, cut_last, arith, if◌then◌else◌,
  if-elim, ◌==◌,
}
use opl_future_beta.IoQueue.{
  can_take, Request, Worker, asleep, working, serving, gone, Io, remove_from, io_remove_requests,
}
use opl_future_beta.IoQueue.Invariant.{addr, IsAt, IsRequest, IsQueue}

-- The requests of every other type.
abbrev pub others : ℕ → List Request → List Request
others type [] = []
others type (r ∷ rs) = let rest = others type rs in if r.type == type then rest else r ∷ rest

Each-others :
    (P : Request → Type 0) (type : ℕ) (rs : List Request) → Each P rs → Each P (others type rs)
Each-others P type [] h = tt
Each-others P type (r ∷ rs) h =
    if-elim (Each P) (r.type == type) (λ _. Each-others P type rs (h.1))
      (λ _. (h.0, Each-others P type rs (h.1)))

Apart-others : (type : ℕ) (rs : List Request) → Apart addr rs → Apart addr (others type rs)
Apart-others type [] d = tt
Apart-others type (r ∷ rs) d =
    if-elim (Apart addr) (r.type == type) (λ _. Apart-others type rs (d.1))
      (λ _. (Each-others (λ (q : Request). q.id ≢ r.id) type rs (d.0), Apart-others type rs (d.1)))

abbrev Removed :
    (type : ℕ) (rs : List Request) (last : Option ℕ) (count : ℕ)
    → List Request × Option ℕ × ℕ
    → Type 0
Removed type rs last count (rs', e, n) =
    (rs' ≡ others type rs)
    × (e ≡ last_addr addr last (others type rs))
    × (n + length rs' ≡ count + length rs)

remove_from-Removed :
    (type : ℕ) (rs : List Request) (last end : Option ℕ) (count : ℕ)
    → Apart addr rs
    → end ≡ last_addr addr last rs
    → Removed type rs last count (remove_from type rs last end count)
unfolding remove_from
remove_from-Removed type [] last end count d e = (refl, e, refl)
remove_from-Removed type (r ∷ rs) last end count d e = elim (Bool-cases (r.type == type)) [
  | inl k ↦
      let h =
        remove_from-Removed type rs last (if is_at (r.id) end then last else end) (count + 1) (d.1)
          (cut_last addr r rs last end d e) in
      simp k (h.0, h.1, omega (arith, h.2))
  | inr k ↦
      let h = remove_from-Removed type rs (some (r.id)) end count (d.1) e in
      simp k (ap (λ l. r ∷ l) (h.0), h.1, omega (arith, h.2))
]

IsAt-others :
    (type : ℕ) (w : Worker) (rs : List Request) (p : Bool)
    → p ≡ true
    → IsAt w rs p
    → IsAt w (others type rs) p
IsAt-others type asleep rs p f a = tt
IsAt-others type working rs p f a = a
IsAt-others type (serving id) [] p f a = absurd a
IsAt-others type (serving id) (r ∷ rs) p f a = absurd (let h = a.1 in cc)
IsAt-others type gone rs p f a = absurd a

-- The state after the removal.
abbrev pub removed : ℕ → Io → Io
removed type s = record s {
  reqs = others type (s.reqs);
  end = last_addr addr none (others type (s.reqs));
}

-- In a well formed queue, when `gProcSemaId` is free, `ioRemoveRequests` returns the number of requests of
-- the type, leaves those of every other type in their order with `gReqEnd` at the last of them, and the
-- queue well formed.
pub io_remove_requests-IsQueue :
    (type : ℕ) (s : Io)
    → IsQueue s
    → s.proc_free ≡ true
    → (io_remove_requests type s
        ≡ some (length (s.reqs) - length (others type (s.reqs)), removed type s))
      × IsQueue (removed type s)
unfolding io_remove_requests
io_remove_requests-IsQueue type s v f =
    let h = remove_from-Removed type (s.reqs) none (s.end) 0 (v.apart) (v.ends_at) in
    let l = ap length (h.0) in
    let n : (remove_from type (s.reqs) none (s.end) 0).2
        ≡ length (s.reqs) - length (others type (s.reqs)) =
      omega (arith, h.2, l) in
    (
      if-elim
          (λ (o : Option (ℕ × Io)).
            o ≡ some (length (s.reqs) - length (others type (s.reqs)), removed type s))
          (can_take (s.proc_free) (s.worker))
          (λ _. ap some (ap₂ pair n (ap₂ ends_with (h.0) (h.1))))
          (λ g. absurd (let q = sym (ap (λ p. can_take p (s.worker)) f) ∙ g in cc)),
      record {
        ends_at = refl;
        apart = Apart-others type (s.reqs) (v.apart);
        fits = Each-others (IsRequest (s.next_id) (s.handlers)) type (s.reqs) (v.fits);
        at = IsAt-others type (s.worker) (s.reqs) (s.proc_free) f (v.at);
        alive = v.alive;
      },
    )
  where
    pair : ℕ → Io → ℕ × Io
    pair n t = (n, t)

    ends_with : List Request → Option ℕ → Io
    ends_with rs e = record s { reqs = rs; end = e }
