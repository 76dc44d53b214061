-- ===== src/TexCache/Calls.antt =====
-- The calls of src/texcache.c.
use opl_future_beta.Base.{
  ℕ, zero, suc, ◌+◌, Bool, true, false, not, ◌&&◌, List, [], ◌∷◌, ◌++◌, Option, none, some, ltb,
  ◌==◌, if◌then◌else◌, get_elem?, set, length, replicate,
}
use opl_future_beta.Text.{Str}
use opl_future_beta.TexCache.Pool.{
  RequestPool, request_pool_init, request_pool_alloc, request_pool_free,
}
use opl_future_beta.TexCache.Lru.{
  texcache_max_entries, CacheEntry, Lru, lru_init, through, touch_entry, lru_move_to_front, lru_add,
  lru_evict,
}

-- `image_cache_t`; `count` is the number of entries.
pub record ImageCache : Type 0 where
  pub next_uid : ℕ
  pub content : List CacheEntry

-- `load_image_request_t`
pub record LoadRequest : Type 0 where
  pub value : Str
  pub cache : ℕ
  pub entry : ℕ
  pub cache_uid : ℕ

-- The caches that have been made, `g_lru_caches` up to `g_lru_cache_count`, the pool, the requests that have been
-- filled in, the last one first, and those that the I/O queue has.
pub record TexState : Type 0 where
  pub caches : List ImageCache
  pub lrus : List Lru
  pub pool : RequestPool
  pub requests : List (ℕ × LoadRequest)
  pub queue : List ℕ

-- `cacheInit`
abbrev pub cache_init : TexState
cache_init = record { caches = []; lrus = []; pool = request_pool_init; requests = []; queue = [] }

-- What `cacheClearItem` leaves.
abbrev pub clear_entry : CacheEntry
clear_entry = record { loaded = false; qr = none; last_used = none; uid = 0 }

-- `cacheAdvanceFrame`
abbrev pub advance_lrus : List Lru → List Lru
advance_lrus [] = []
advance_lrus (l ∷ ls) = record l { frame_counter = l.frame_counter + 1 } ∷ advance_lrus ls

unfoldable pub cache_advance_frame : TexState → TexState
cache_advance_frame s = record s { lrus = advance_lrus (s.lrus) }

-- The number of entries that `cacheInitCache` makes.
abbrev pub entry_count : ℕ → ℕ
entry_count count =
    let n = if ltb texcache_max_entries count then texcache_max_entries else count in
    if ltb n 1 then 1 else n

-- `cacheInitCache`, where the memory is there.
unfoldable pub cache_init_cache : (count : ℕ) → TexState → TexState
unfolding lru_init
cache_init_cache count s = record s {
  caches =
      s.caches ++ record { next_uid = 1; content = replicate (entry_count count) clear_entry } ∷ [];
  lrus = if ltb (length (s.lrus)) 8 then s.lrus ++ lru_init (length (s.caches)) ∷ [] else s.lrus;
}

-- The first list of a cache, with its place.
abbrev pub find_lru : (cache i : ℕ) → List Lru → Option (ℕ × Lru)
find_lru cache i [] = none
find_lru cache i (l ∷ ls) =
    let rest = find_lru cache (i + 1) ls in if l.cache == cache then some (i, l) else rest

-- The first node of an entry, from node `n` on.
abbrev pub find_node : (left : ℕ) (n : ℕ) → (entry : ℕ) → Lru → Option ℕ
find_node zero n e l = none
find_node (suc left) n e l =
    let rest = find_node left (n + 1) e l in
    elim (l.entry n) [ none ↦ rest | some m ↦ if m == e then some n else rest ]

-- `cacheId`: -1, -2 or a place in the cache.
pub data CacheId : Type 0 where
  unset : CacheId
  failed : CacheId
  place : ℕ → CacheId

-- What `cacheGetTexture` returns, with `*cacheId` and `*UID`.
pub record Got : Type 0 where
  pub texture : Option ℕ
  pub cache_id : CacheId
  pub uid : ℕ
  pub state : TexState

abbrev pub put_cache : (cache : ℕ) → List CacheEntry → TexState → TexState
put_cache c es s = elim (get_elem? (s.caches) c) [
  | none ↦ s
  | some x ↦ record s { caches = set (s.caches) c (record x { content = es }) }
]

abbrev pub put_lru : (cache i : ℕ) → Lru × List CacheEntry → TexState → TexState
put_lru c i (l, es) s = put_cache c es (record s { lrus = set (s.lrus) i l })

-- A hit: the entry's node goes to the front of its list.
abbrev pub move_hit :
    (cache e : ℕ) → List CacheEntry → TexState → Option (ℕ × Lru) → Option TexState
move_hit c e es s none = some (put_cache c es s)
move_hit c e es s (some (i, l)) = elim (find_node (l.node_count) 0 e l) [
  | none ↦ some (put_cache c es s)
  | some n ↦ through (lru_move_to_front n l es) (λ moved. some (put_lru c i moved s))
]

-- What happens outside of a call: `guiFrameId`, whether `guiInactiveFrames` has reached the delay of the list,
-- whether `malloc` gives memory, and whether `ioPutRequest` takes the request.
pub record Outside : Type 0 where
  pub frame : ℕ
  pub waited : Bool
  pub memory : Bool
  pub taken : Bool

-- The request for a victim that has a place in the cache.
unfoldable pub put_request :
    Outside
    → (c : ℕ) → ImageCache
    → (victim : ℕ) → Str
    → CacheId
    → (uid : ℕ) → TexState
    → Option (ℕ × RequestPool)
    → Got
put_request o c x victim value id uid s none = record {
  texture = none;
  cache_id = id;
  uid = uid;
  state = s;
}
put_request o c x victim value id uid s (some (idx, pool)) =
    let req : LoadRequest = record {
      value = value;
      cache = c;
      entry = victim;
      cache_uid = x.next_uid;
    } in
    let wanted = record clear_entry { qr = some idx; uid = x.next_uid } in
    let used = record s { pool = pool; requests = (idx, req) ∷ s.requests } in
    if not (o.memory)
    then record {
      texture = none;
      cache_id = id;
      uid = uid;
      state = record s { pool = request_pool_free idx pool };
    }
    else if o.taken
    then record {
      texture = none;
      cache_id = place victim;
      uid = x.next_uid;
      state = record used {
        caches =
            set (s.caches) c
              (record { next_uid = x.next_uid + 1; content = set (x.content) victim wanted });
        queue = s.queue ++ idx ∷ [];
      };
    }
    else record {
      texture = none;
      cache_id = unset;
      uid = x.next_uid;
      state = record used {
        caches =
            set (s.caches) c
              (record { next_uid = x.next_uid + 1; content = set (x.content) victim clear_entry });
        pool = request_pool_free idx pool;
      };
    }

-- What follows `lru_evict`.
abbrev pub after_evict :
    Outside
    → (c : ℕ) → ImageCache
    → Str
    → CacheId
    → (uid : ℕ) → (i : ℕ) → TexState
    → Lru × Option ℕ
    → Got
after_evict o c x value id uid i s (l, none) = record {
  texture = none;
  cache_id = id;
  uid = uid;
  state = record s { lrus = set (s.lrus) i l };
}
after_evict o c x value id uid i s (l, some victim) =
    let s' = record s { lrus = set (s.lrus) i l } in
    if ltb victim (length (x.content))
    then put_request o c x victim value id uid s' (request_pool_alloc (s.pool))
    else record { texture = none; cache_id = id; uid = uid; state = s' }

abbrev pub evict_from :
    Outside
    → (c : ℕ) → ImageCache
    → Str
    → CacheId
    → (uid : ℕ) → TexState
    → Option (ℕ × Lru)
    → Option Got
evict_from o c x value id uid s none =
    some (record { texture = none; cache_id = id; uid = uid; state = s })
evict_from o c x value id uid s (some (i, l)) =
    through (lru_evict l (x.content)) (λ r. some (after_evict o c x value id uid i s r))

-- The part of `cacheGetTexture` that asks for a texture.
unfoldable pub ask_texture :
    Outside → (c : ℕ) → ImageCache → Str → CacheId → (uid : ℕ) → TexState → Option Got
ask_texture o c x value id uid s =
    if not (o.waited)
    then some (record { texture = none; cache_id = id; uid = uid; state = s })
    else evict_from o c x value id uid s (find_lru c 0 (s.lrus))

abbrev pub is_never : Option ℕ → Bool
is_never none = false
is_never (some zero) = true
is_never (some (suc k)) = false

abbrev pub is_positive : Option ℕ → Bool
is_positive none = false
is_positive (some zero) = false
is_positive (some (suc k)) = true

abbrev pub is_null : Option ℕ → Bool
is_null none = true
is_null (some k) = false

-- `cacheGetTexture` on an entry that `*cacheId` names.
abbrev pub look_up :
    Outside → (c : ℕ) → ImageCache → Str → (k uid : ℕ) → TexState → Option CacheEntry → Option Got
look_up o c x value k uid s none = ask_texture o c x value (place k) uid s
look_up o c x value k uid s (some e) =
    if e.uid == uid
    then (if is_null (e.qr) && is_positive (e.last_used)
        then through
            (move_hit c k (touch_entry (some k) (o.frame) (x.content)) s (find_lru c 0 (s.lrus)))
            (λ s'. some (record { texture = some k; cache_id = place k; uid = uid; state = s' }))
        else if is_never (e.last_used) && is_null (e.qr)
        then some (record { texture = none; cache_id = failed; uid = uid; state = s })
        else ask_texture o c x value unset uid s)
    else ask_texture o c x value unset uid s

abbrev pub get_in :
    Outside → (c : ℕ) → Str → CacheId → (uid : ℕ) → TexState → Option ImageCache → Option Got
get_in o c value id uid s none =
    some (record { texture = none; cache_id = id; uid = uid; state = s })
get_in o c value unset uid s (some x) = ask_texture o c x value unset uid s
get_in o c value failed uid s (some x) = ask_texture o c x value failed uid s
get_in o c value (place k) uid s (some x) = look_up o c x value k uid s (get_elem? (x.content) k)

-- `cacheGetTexture`, where `list` and `value` are not NULL.
unfoldable pub cache_get_texture :
    Outside → (c : ℕ) → Str → CacheId → (uid : ℕ) → TexState → Option Got
cache_get_texture o c value id uid s = get_in o c value id uid s (get_elem? (s.caches) c)

abbrev pub find_request : (idx : ℕ) → List (ℕ × LoadRequest) → Option LoadRequest
find_request idx [] = none
find_request idx ((j, r) ∷ rs) = let rest = find_request idx rs in if j == idx then some r else rest

abbrev pub entry_of : LoadRequest → TexState → Option (List CacheEntry × CacheEntry)
entry_of r s =
    through (get_elem? (s.caches) (r.cache))
      (λ x. through (get_elem? (x.content) (r.entry)) (λ e. some (x.content, e)))

abbrev pub end_load : (entry : ℕ) → List CacheEntry → List CacheEntry
end_load e es = elim (get_elem? es e) [ none ↦ es | some x ↦ set es e (record x { qr = none }) ]

abbrev pub add_loaded :
    LoadRequest → List CacheEntry → TexState → Option (ℕ × Lru) → Option TexState
add_loaded r es s none = some (put_cache (r.cache) (end_load (r.entry) es) s)
add_loaded r es s (some (i, l)) =
    through (lru_add (r.entry) l es)
      (λ added. some (put_lru (r.cache) i (added.0, end_load (r.entry) (added.1)) s))

abbrev pub free_request : (idx : ℕ) → TexState → TexState
free_request idx s = record s { pool = request_pool_free idx (s.pool) }

-- `cacheLoadImage` of a request, with the entries and the entry that it names: `loads` is whether `itemGetImage`
-- gives the image.
unfoldable pub load_request :
    (frame : ℕ) (loads : Bool) (idx : ℕ)
    → LoadRequest
    → List CacheEntry
    → CacheEntry
    → TexState
    → Option TexState
unfolding lru_add
load_request frame loads idx r es e s =
    if r.cache_uid == e.uid
    then through
        (if loads
          then add_loaded r (set es (r.entry) (record e { loaded = true; last_used = some frame }))
              s (find_lru (r.cache) 0 (s.lrus))
          else some (
              put_cache (r.cache)
                (end_load (r.entry)
                  (set es (r.entry) (record e { loaded = false; last_used = some 0 })))
                s))
        (λ s'. some (free_request idx s'))
    else some (free_request idx s)

abbrev pub load_found :
    (frame : ℕ) (loads : Bool) (idx : ℕ) → TexState → Option LoadRequest → Option TexState
load_found frame loads idx s none = none
load_found frame loads idx s (some r) =
    through (entry_of r s) (λ x. load_request frame loads idx r (x.0) (x.1) s)

abbrev pub load_queued : (frame : ℕ) (loads : Bool) → TexState → List ℕ → Option TexState
load_queued frame loads s [] = some s
load_queued frame loads s (idx ∷ queue) =
    load_found frame loads idx (record s { queue = queue }) (find_request idx (s.requests))

-- `cacheLoadImage`, which the I/O thread calls for the next request, if there is one.
unfoldable pub cache_load_image : (frame : ℕ) (loads : Bool) → TexState → Option TexState
unfolding load_request
cache_load_image frame loads s = load_queued frame loads s (s.queue)
