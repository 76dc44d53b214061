-- ===== src/TexCache/Pool.antt =====
-- The pool of load requests of src/texcache.c.
use opl_future_beta.Base.{
  ℕ, zero, suc, ◌+◌, ◌<◌, ◌≡◌, ◌≢◌, ◌∙◌, ap, refl, sym, Bool, true, false, List, [], ◌∷◌, Option,
  none, some, ltb, ◌&&◌, if◌then◌else◌, if-elim, length, get_or, set, replicate, length-set,
  get_or-set_self, get_or-set_ne, Each, Each-mono, arith,
}

-- `TEXCACHE_POOL_SIZE`
abbrev pub texcache_pool_size : ℕ
texcache_pool_size = 32

-- `request_pool_t`: `free_list` up to `free_count`, the last index first.
pub record RequestPool : Type 0 where
  pub used : List Bool
  pub free_list : List ℕ

abbrev pub count_down : ℕ → List ℕ
count_down zero = []
count_down (suc n) = n ∷ count_down n

-- `request_pool_init`
unfoldable pub request_pool_init : RequestPool
request_pool_init = record {
  used = replicate texcache_pool_size false;
  free_list = count_down texcache_pool_size;
}

abbrev pub take_index : List Bool → List ℕ → Option (ℕ × RequestPool)
take_index used [] = none
take_index used (idx ∷ rest) = some (idx, record { used = set used idx true; free_list = rest })

-- `request_pool_alloc`
unfoldable pub request_pool_alloc : RequestPool → Option (ℕ × RequestPool)
request_pool_alloc p = take_index (p.used) (p.free_list)

-- `request_pool_free`
unfoldable pub request_pool_free : ℕ → RequestPool → RequestPool
request_pool_free idx p =
    if ltb idx texcache_pool_size && get_or (p.used) idx false
    then record { used = set (p.used) idx false; free_list = idx ∷ p.free_list }
    else p

abbrev pub count_used : List Bool → ℕ
count_used [] = 0
count_used (true ∷ bs) = suc (count_used bs)
count_used (false ∷ bs) = count_used bs

abbrev pub Apart : List ℕ → Type 0
Apart [] = Unit {0}
Apart (i ∷ is) = Each (λ j. i ≢ j) is × Apart is

-- The free indices are different, in the array and not in use, and with those in use they are all.
pub record IsPool (p : RequestPool) : Type 0 where
  pub sized : length (p.used) ≡ texcache_pool_size
  pub apart : Apart (p.free_list)
  pub idle : Each (λ i. (i < texcache_pool_size) × (get_or (p.used) i false ≡ false)) (p.free_list)
  pub total : length (p.free_list) + count_used (p.used) ≡ texcache_pool_size

count_used-set_true :
    (bs : List Bool) (i : ℕ)
    → i < length bs
    → get_or bs i false ≡ false
    → count_used (set bs i true) ≡ suc (count_used bs)
count_used-set_true [] i h e = absurd (omega (arith, h))
count_used-set_true (false ∷ bs) zero h e = refl
count_used-set_true (true ∷ bs) zero h e = absurd cc
count_used-set_true (true ∷ bs) (suc i) h e = ap suc (count_used-set_true bs i (omega (arith, h)) e)
count_used-set_true (false ∷ bs) (suc i) h e = count_used-set_true bs i (omega (arith, h)) e

count_used-set_false :
    (bs : List Bool) (i : ℕ)
    → get_or bs i false ≡ true
    → suc (count_used (set bs i false)) ≡ count_used bs
count_used-set_false [] i e = absurd cc
count_used-set_false (true ∷ bs) zero e = refl
count_used-set_false (false ∷ bs) zero e = absurd cc
count_used-set_false (true ∷ bs) (suc i) e = ap suc (count_used-set_false bs i e)
count_used-set_false (false ∷ bs) (suc i) e = count_used-set_false bs i e

set_false-false :
    (bs : List Bool) (i j : ℕ) → get_or bs j false ≡ false → get_or (set bs i false) j false ≡ false
set_false-false [] i j h = refl
set_false-false (b ∷ bs) zero zero h = refl
set_false-false (b ∷ bs) zero (suc j) h = h
set_false-false (b ∷ bs) (suc i) zero h = h
set_false-false (b ∷ bs) (suc i) (suc j) h = set_false-false bs i j h

-- What an allocation gives: an index that was not in use, or none where all are.
abbrev pub Allocates : RequestPool → Option (ℕ × RequestPool) → Type 0
Allocates p none = count_used (p.used) ≡ texcache_pool_size
Allocates p (some (idx, p')) =
    (idx < texcache_pool_size)
    × (get_or (p.used) idx false ≡ false)
    × (p'.used ≡ set (p.used) idx true)
    × IsPool p'

pub alloc-Allocates : (p : RequestPool) → IsPool p → Allocates p (request_pool_alloc p)
unfolding request_pool_alloc
alloc-Allocates p v = by (p.free_list) (v.apart) (v.idle) (v.total)
  where
    by :
        (free : List ℕ)
        → Apart free
        → Each (λ i. (i < texcache_pool_size) × (get_or (p.used) i false ≡ false)) free
        → length free + count_used (p.used) ≡ texcache_pool_size
        → Allocates p (take_index (p.used) free)
    by [] a i t = omega (arith, t)
    by (idx ∷ rest) a i t =
        let len = v.sized in
        let count = count_used-set_true (p.used) idx (omega (arith, len, i.0.0)) (i.0.1) in
        (
          i.0.0,
          i.0.1,
          refl,
          record {
            sized = length-set (p.used) idx true ∙ v.sized;
            apart = a.1;
            idle = others rest (a.0) (i.1);
            total = omega (arith, t, count);
          },
        )
      where
        others :
            (js : List ℕ)
            → Each (λ j. idx ≢ j) js
            → Each (λ i. (i < texcache_pool_size) × (get_or (p.used) i false ≡ false)) js
            → Each
                (λ i. (i < texcache_pool_size) × (get_or (set (p.used) idx true) i false ≡ false))
                js
        others [] a h = tt
        others (j ∷ js) a h =
            ((h.0.0, get_or-set_ne (p.used) idx j true false (a.0) ∙ h.0.1), others js (a.1) (h.1))

pub free-IsPool : (idx : ℕ) (p : RequestPool) → IsPool p → IsPool (request_pool_free idx p)
unfolding request_pool_free
free-IsPool idx p v =
    if-elim IsPool (ltb idx texcache_pool_size && get_or (p.used) idx false)
      (λ t.
        let in_use : get_or (p.used) idx false ≡ true = ground (arith, t) in
        let inside : idx < texcache_pool_size = ground (arith, t) in
        let len = v.sized in
        let count = count_used-set_false (p.used) idx in_use in
        record {
          sized = length-set (p.used) idx false ∙ v.sized;
          apart = (
            Each-mono (p.free_list)
                (λ j h e. let k = sym in_use ∙ ap (λ i. get_or (p.used) i false) e ∙ h.1 in cc)
                (v.idle),
            v.apart,
          );
          idle = (
            (inside, get_or-set_self (p.used) idx false false (omega (arith, inside, len))),
            Each-mono (p.free_list) (λ j h. (h.0, set_false-false (p.used) idx j (h.1))) (v.idle),
          );
          total = omega (arith, count, v.total);
        })
      (λ _. v)

-- An allocation, or a `request_pool_free` of any index, in use or not.
pub data PoolCall : Type 0 where
  allocates : PoolCall
  frees : ℕ → PoolCall

abbrev pub left_by : RequestPool → Option (ℕ × RequestPool) → RequestPool
left_by p none = p
left_by p (some (idx, p')) = p'

abbrev pub pool_call : PoolCall → RequestPool → RequestPool
pool_call allocates p = left_by p (request_pool_alloc p)
pool_call (frees idx) p = request_pool_free idx p

abbrev pub pool_calls : List PoolCall → RequestPool → RequestPool
pool_calls [] p = p
pool_calls (c ∷ cs) p = pool_calls cs (pool_call c p)

pool_call-IsPool : (c : PoolCall) (p : RequestPool) → IsPool p → IsPool (pool_call c p)
pool_call-IsPool allocates p v = by (request_pool_alloc p) (alloc-Allocates p v)
  where
    by : (o : Option (ℕ × RequestPool)) → Allocates p o → IsPool (left_by p o)
    by none k = v
    by (some (idx, p')) k = k.3
pool_call-IsPool (frees idx) p v = free-IsPool idx p v

pool_calls-kept : (cs : List PoolCall) (p : RequestPool) → IsPool p → IsPool (pool_calls cs p)
pool_calls-kept [] p v = v
pool_calls-kept (c ∷ cs) p v = pool_calls-kept cs (pool_call c p) (pool_call-IsPool c p v)

Apart-count_down : (n : ℕ) → Apart (count_down n) × Each (λ i. i < n) (count_down n)
Apart-count_down zero = (tt, tt)
Apart-count_down (suc n) =
    let ih = Apart-count_down n in
    (
      (Each-mono (count_down n) (λ j h e. omega (arith, h, e)) (ih.1), ih.0),
      (omega arith, Each-mono (count_down n) (λ j h. omega (arith, h)) (ih.1)),
    )

none_used : (n i : ℕ) → get_or (replicate n false) i false ≡ false
none_used zero i = refl
none_used (suc n) zero = refl
none_used (suc n) (suc i) = none_used n i

init-IsPool : IsPool request_pool_init
unfolding request_pool_init
init-IsPool =
    let used = replicate texcache_pool_size false in
    record {
      sized = refl;
      apart = (Apart-count_down texcache_pool_size).0;
      idle =
          Each-mono {Q = λ i. (i < texcache_pool_size) × (get_or used i false ≡ false)}
            (count_down texcache_pool_size) (λ i h. (h, none_used texcache_pool_size i))
            ((Apart-count_down texcache_pool_size).1);
      total = refl;
    }

-- After `request_pool_init` and any allocations and frees, also frees of requests that are not in use: the free
-- list holds different indices of the array, none of them in use, so that it stays within its 32 places; and the
-- next allocation gives an index that is not in use, or fails only where all 32 are.
pub pool_calls-IsPool :
    (cs : List PoolCall)
    → IsPool (pool_calls cs request_pool_init)
      × Allocates
          (pool_calls cs request_pool_init)
          (request_pool_alloc (pool_calls cs request_pool_init))
pool_calls-IsPool cs =
    let v = pool_calls-kept cs request_pool_init init-IsPool in
    (v, alloc-Allocates (pool_calls cs request_pool_init) v)
