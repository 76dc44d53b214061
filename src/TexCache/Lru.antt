-- ===== src/TexCache/Lru.antt =====
-- The doubly linked lists of src/texcache.c, by their pointers. An access through NULL has no result.
use opl_future_beta.Base.{
  ℕ, zero, suc, ◌+◌, Bool, true, false, List, Option, none, some, ltb, leb, ◌==◌, if◌then◌else◌,
  get_elem?, set,
}

-- `TEXCACHE_MAX_ENTRIES`
abbrev pub texcache_max_entries : ℕ
texcache_max_entries = 128

-- `cache_entry_t`: `loaded` is whether `texture.Mem` is set, `qr` the index of a request, and `last_used` is none
-- where it is negative.
pub record CacheEntry : Type 0 where
  pub loaded : Bool
  pub qr : Option ℕ
  pub last_used : Option ℕ
  pub uid : ℕ

-- A pointer to a node of `lru_cache_t`: `&head`, `&tail` or `&nodes[n]`.
pub data Ref : Type 0 where
  head : Ref
  tail : Ref
  node : ℕ → Ref

abbrev pub same_ref : Ref → Ref → Bool
same_ref head head = true
same_ref tail tail = true
same_ref (node n) (node m) = n == m
same_ref head tail = false
same_ref head (node m) = false
same_ref tail head = false
same_ref tail (node m) = false
same_ref (node n) head = false
same_ref (node n) tail = false

-- A write to a field of the node at a pointer.
abbrev pub write : {A : Type 0} → Ref → A → (Ref → A) → Ref → A
write r a f q = if same_ref r q then a else f q

-- `lru_cache_t`: its cache, the fields of its nodes by their pointers, and the entry of a node.
pub record Lru : Type 0 where
  pub cache : ℕ
  pub entry : ℕ → Option ℕ
  pub prev : Ref → Option Ref
  pub next : Ref → Option Ref
  pub node_count : ℕ
  pub frame_counter : ℕ

-- `lru_init` on the static memory of `g_lru_caches`, which holds zeros.
unfoldable pub lru_init : (cache : ℕ) → Lru
lru_init cache = record {
  cache = cache;
  entry = λ n. none;
  prev = write tail (some head) (λ r. none);
  next = write head (some tail) (λ r. none);
  node_count = 0;
  frame_counter = 0;
}

abbrev pub through : {A B : Type 0} → Option A → (A → Option B) → Option B
through none f = none
through (some a) f = f a

-- `entry->lastUsed = time`
abbrev pub touch_entry : Option ℕ → (time : ℕ) → List CacheEntry → List CacheEntry
touch_entry none time es = es
touch_entry (some e) time es = elim (get_elem? es e) [
  | none ↦ es
  | some x ↦ set es e (record x { last_used = some time })
]

-- `lru_move_to_front`, assignment by assignment.
unfoldable pub lru_move_to_front : (n : ℕ) → Lru → List CacheEntry → Option (Lru × List CacheEntry)
lru_move_to_front n l es = through (l.prev (node n)) (λ p.
    let next1 = write p (l.next (node n)) (l.next) in
    through (next1 (node n)) (λ q.
      let prev1 = write q (l.prev (node n)) (l.prev) in
      let next2 = write (node n) (next1 head) next1 in
      let prev2 = write (node n) (some head) prev1 in
      through (next2 head) (λ h.
        let prev3 = write h (some (node n)) prev2 in
        let next3 = write head (some (node n)) next2 in
        some
          (record l { prev = prev3; next = next3 }, touch_entry (l.entry n) (l.frame_counter) es))))

-- `lru_add`
unfoldable pub lru_add : (entry : ℕ) → Lru → List CacheEntry → Option (Lru × List CacheEntry)
unfolding lru_move_to_front
lru_add e l es =
    if leb texcache_max_entries (l.node_count)
    then some (l, es)
    else lru_move_to_front (l.node_count)
        (record l {
          node_count = l.node_count + 1;
          entry = λ m. if l.node_count == m then some e else l.entry m;
        })
        (touch_entry (some e) (l.frame_counter) es)

-- `a->lastUsed < b->lastUsed`
abbrev pub used_before : Option ℕ → Option ℕ → Bool
used_before none none = false
used_before none (some b) = true
used_before (some a) none = false
used_before (some a) (some b) = ltb a b

abbrev pub entry_older : Option CacheEntry → Option CacheEntry → Bool
entry_older none y = false
entry_older (some x) none = false
entry_older (some x) (some y) = used_before (x.last_used) (y.last_used)

-- Whether both nodes have entries, and the first one was used before the second one.
abbrev pub older : List CacheEntry → Option ℕ → Option ℕ → Bool
older es none b = false
older es (some a) none = false
older es (some a) (some b) = entry_older (get_elem? es a) (get_elem? es b)

-- `entry` of the node at a pointer.
abbrev pub entry_at : Lru → Ref → Option ℕ
entry_at l head = none
entry_at l tail = none
entry_at l (node n) = l.entry n

-- The loop of `lru_evict` from `node` on, with `oldest`; `none` for a NULL, or if the fuel runs out.
unfoldable pub find_oldest :
    (fuel : ℕ) → Lru → List CacheEntry → (oldest : Ref) → (at : Option Ref) → Option Ref
find_oldest zero l es oldest at = none
find_oldest (suc fuel) l es oldest none = none
find_oldest (suc fuel) l es oldest (some r) =
    let next =
      find_oldest fuel l es (if older es (entry_at l r) (entry_at l oldest) then r else oldest)
        (l.prev r) in
    if same_ref r head then some oldest else next

-- The end of `lru_evict`, which takes `oldest` out.
abbrev pub unlink_oldest : Lru → (oldest : Ref) → Option (Lru × Option ℕ)
unlink_oldest l oldest = through (l.prev oldest) (λ p.
    let next1 = write p (some tail) (l.next) in
    let prev1 = write tail (some p) (l.prev) in
    some (
      record l { prev = write oldest none prev1; next = write oldest none next1 },
      entry_at l oldest,
    ))

-- `lru_evict`: none inside for NULL. The list has at most 128 nodes and `head`.
unfoldable pub lru_evict : Lru → List CacheEntry → Option (Lru × Option ℕ)
lru_evict l es = through (l.prev tail) (λ last.
    if same_ref last head
    then some (l, none)
    else through (find_oldest (texcache_max_entries + 1) l es last (l.prev last)) (unlink_oldest l))
