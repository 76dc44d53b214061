-- ===== src/TexCache/Tests.antt =====
-- Runs of src/texcache.c, and the theorems at concrete inputs.
use opl_future_beta.Base.{ℕ, ◌≡◌, refl, true, List, [], ◌∷◌, Option, none, some, Each}
use opl_future_beta.TexCache.Pool.{
  request_pool_init, request_pool_alloc, PoolCall, allocates, frees, pool_calls, IsPool, Allocates,
  pool_calls-IsPool,
}
use opl_future_beta.TexCache.Lru.{lru_init, lru_add, lru_move_to_front}
use opl_future_beta.TexCache.Calls.{
  TexState, cache_init, clear_entry, Outside, unset, failed, place,
}
use opl_future_beta.TexCache.Requests.{
  TexEvent, inits_cache, gets, loads_image, advances, tex_run, IsIdle, tex_run-IsIdle,
}

abbrev some_calls : List PoolCall
some_calls = allocates ∷ allocates ∷ frees 31 ∷ frees 31 ∷ frees 99 ∷ allocates ∷ []

pool_calls-IsPool_example :
    IsPool (pool_calls some_calls request_pool_init)
    × Allocates
        (pool_calls some_calls request_pool_init)
        (request_pool_alloc (pool_calls some_calls request_pool_init))
pool_calls-IsPool_example = pool_calls-IsPool some_calls

abbrev now : Outside
now = record { frame = 5; waited = true; memory = true; taken = true }

abbrev events : List TexEvent
events =
    inits_cache 10
    ∷ gets now 0 [] unset 0
    ∷ loads_image 5 true
    ∷ advances
    ∷ gets now 0 [] (place 3) 0
    ∷ gets now 1 [] failed 7
    ∷ []

tex_run-IsIdle_example :
    (ts : List (Option ℕ)) × (s : TexState) × (tex_run events cache_init ≡ some (ts, s))
    × Each (λ t. t ≡ none) ts
    × IsIdle s
tex_run-IsIdle_example = tex_run-IsIdle events

-- The first node that is added has a `prev` pointer of NULL, which is written through.
add_code : lru_add 0 (lru_init 0) (clear_entry ∷ []) ≡ none
unfolding lru_add lru_init lru_move_to_front
add_code = refl
