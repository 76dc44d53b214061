-- ===== src/TexCache/Requests.antt =====
-- What the calls of src/texcache.c ask the I/O thread for.
use opl_future_beta.Base.{
  ℕ, zero, suc, ◌+◌, ◌≡◌, ap, refl, sym, subst, Bool, not, List, [], ◌∷◌, Option, none, some, ltb,
  ◌==◌, if◌then◌else◌, if-elim, get_elem?, set, length, replicate, Each, Each-append,
}
use opl_future_beta.Text.{Str}
use opl_future_beta.TexCache.Lru.{
  CacheEntry, Lru, head, tail, lru_init, through, lru_evict, same_ref, find_oldest, unlink_oldest,
  texcache_max_entries,
}
use opl_future_beta.TexCache.Calls.{
  ImageCache, TexState, cache_init, clear_entry, advance_lrus, cache_advance_frame, entry_count,
  cache_init_cache, find_lru, CacheId, unset, failed, place, Got, Outside, after_evict, evict_from,
  ask_texture, look_up, get_in, cache_get_texture, load_queued, cache_load_image,
}

-- A call, or the I/O thread at a request, with what happens outside.
pub data TexEvent : Type 0 where
  inits_cache : (count : ℕ) → TexEvent
  gets : Outside → (cache : ℕ) → Str → CacheId → (uid : ℕ) → TexEvent
  loads_image : (frame : ℕ) (loads : Bool) → TexEvent
  advances : TexEvent

abbrev pub with_texture : Option Got → Option (Option ℕ × TexState)
with_texture none = none
with_texture (some g) = some (g.texture, g.state)

abbrev pub with_none : Option TexState → Option (Option ℕ × TexState)
with_none none = none
with_none (some s) = some (none, s)

-- The texture that an event gives, and the state behind it.
abbrev pub tex_event : TexEvent → TexState → Option (Option ℕ × TexState)
tex_event (inits_cache count) s = some (none, cache_init_cache count s)
tex_event (gets o c value id uid) s = with_texture (cache_get_texture o c value id uid s)
tex_event (loads_image frame loads) s = with_none (cache_load_image frame loads s)
tex_event advances s = some (none, cache_advance_frame s)

abbrev pub cons_texture :
    Option ℕ → Option (List (Option ℕ) × TexState) → Option (List (Option ℕ) × TexState)
cons_texture t none = none
cons_texture t (some (ts, s)) = some (t ∷ ts, s)

abbrev pub and_run :
    (TexState → Option (List (Option ℕ) × TexState))
    → Option (Option ℕ × TexState)
    → Option (List (Option ℕ) × TexState)
and_run f none = none
and_run f (some (t, s)) = cons_texture t (f s)

-- The textures that the events give, in their order; `none` for an access through NULL.
unfoldable pub tex_run : List TexEvent → TexState → Option (List (Option ℕ) × TexState)
tex_run [] s = some ([], s)
tex_run (e ∷ es) s = and_run (tex_run es) (tex_event e s)

-- A list without nodes.
abbrev IsEmptyLru : Lru → Type 0
IsEmptyLru l = (l.next head ≡ some tail) × (l.prev tail ≡ some head)

abbrev IsClear : ImageCache → Type 0
IsClear x = Each (λ e. e ≡ clear_entry) (x.content)

-- Nothing has been asked for.
pub record IsIdle (s : TexState) : Type 0 where
  pub lrus : Each IsEmptyLru (s.lrus)
  pub caches : Each IsClear (s.caches)
  pub queue : s.queue ≡ []

-- An event on an idle state, which gives no texture and leaves it idle.
abbrev Idles : Option (Option ℕ × TexState) → Type 0
Idles none = ⊥
Idles (some (t, s)) = (t ≡ none) × IsIdle s

evict-empty : (l : Lru) (es : List CacheEntry) → IsEmptyLru l → lru_evict l es ≡ some (l, none)
unfolding lru_evict
evict-empty l es h =
    ap
      (λ o. through o (λ last.
        if same_ref last head
        then some (l, none)
        else through (find_oldest (texcache_max_entries + 1) l es last (l.prev last))
            (unlink_oldest l)))
      (h.1)

abbrev OnSome : {A : Type 0} → (A → Type 0) → Option A → Type 0
OnSome P none = Unit {0}
OnSome P (some x) = P x

Each-get :
    {A : Type 0} (P : A → Type 0) (xs : List A) (i : ℕ) → Each P xs → OnSome P (get_elem? xs i)
Each-get P [] i h = tt
Each-get P (x ∷ xs) zero h = h.0
Each-get P (x ∷ xs) (suc i) h = Each-get P xs i (h.1)

Each-set :
    {A : Type 0} (P : A → Type 0) (xs : List A) (i : ℕ) (x : A)
    → Each P xs
    → P x
    → Each P (set xs i x)
Each-set P [] i x h k = tt
Each-set P (y ∷ xs) zero x h k = (k, h.1)
Each-set P (y ∷ xs) (suc i) x h k = (h.0, Each-set P xs i x (h.1) k)

find-empty :
    (c i : ℕ) (ls : List Lru)
    → Each IsEmptyLru ls
    → OnSome (λ (r : ℕ × Lru). IsEmptyLru (r.1)) (find_lru c i ls)
find-empty c i [] h = tt
find-empty c i (l ∷ ls) h =
    if-elim (OnSome (λ (r : ℕ × Lru). IsEmptyLru (r.1))) (l.cache == c) (λ t. h.0)
      (λ t. find-empty c (i + 1) ls (h.1))

-- A call that gives nothing.
abbrev Misses : Option Got → Type 0
Misses g = Idles (with_texture g)

evict-Misses :
    (o : Outside) (c : ℕ) (x : ImageCache) (value : Str) (id : CacheId) (uid : ℕ) (s : TexState)
    → IsIdle s
    → (f : Option (ℕ × Lru)) → OnSome (λ (r : ℕ × Lru). IsEmptyLru (r.1)) f
    → Misses (evict_from o c x value id uid s f)
evict-Misses o c x value id uid s v none h = (refl, v)
evict-Misses o c x value id uid s v (some (i, l)) h =
    subst (λ r. Misses (through r (λ r. some (after_evict o c x value id uid i s r))))
      (sym (evict-empty l (x.content) h))
      (
        refl,
        record {
          lrus = Each-set IsEmptyLru (s.lrus) i l (v.lrus) h;
          caches = v.caches;
          queue = v.queue;
        },
      )

ask-Misses :
    (o : Outside) (c : ℕ) (x : ImageCache) (value : Str) (id : CacheId) (uid : ℕ) (s : TexState)
    → IsIdle s
    → Misses (ask_texture o c x value id uid s)
unfolding ask_texture
ask-Misses o c x value id uid s v =
    if-elim Misses (not (o.waited)) (λ _. (refl, v))
      (λ _.
        evict-Misses o c x value id uid s v (find_lru c 0 (s.lrus))
          (find-empty c 0 (s.lrus) (v.lrus)))

look-Misses :
    (o : Outside) (c : ℕ) (x : ImageCache) (value : Str) (k uid : ℕ) (s : TexState)
    → IsIdle s
    → (e : Option CacheEntry) → OnSome (λ e. e ≡ clear_entry) e
    → Misses (look_up o c x value k uid s e)
look-Misses o c x value k uid s v none h = ask-Misses o c x value (place k) uid s v
look-Misses o c x value k uid s v (some e) h =
    subst (λ e. Misses (look_up o c x value k uid s (some e))) (sym h)
      (if-elim Misses (0 == uid) (λ _. ask-Misses o c x value unset uid s v)
        (λ _. ask-Misses o c x value unset uid s v))

get-Misses :
    (o : Outside) (c : ℕ) (value : Str) (id : CacheId) (uid : ℕ) (s : TexState)
    → IsIdle s
    → (x : Option ImageCache) → OnSome IsClear x
    → Misses (get_in o c value id uid s x)
get-Misses o c value id uid s v none h = (refl, v)
get-Misses o c value unset uid s v (some x) h = ask-Misses o c x value unset uid s v
get-Misses o c value failed uid s v (some x) h = ask-Misses o c x value failed uid s v
get-Misses o c value (place k) uid s v (some x) h =
    look-Misses o c x value k uid s v (get_elem? (x.content) k)
      (Each-get (λ e. e ≡ clear_entry) (x.content) k h)

Each-replicate : (n : ℕ) → Each (λ e. e ≡ clear_entry) (replicate n clear_entry)
Each-replicate zero = tt
Each-replicate (suc n) = (refl, Each-replicate n)

lru_init-IsEmptyLru : (c : ℕ) → IsEmptyLru (lru_init c)
unfolding lru_init
lru_init-IsEmptyLru c = (refl, refl)

inits-IsIdle : (count : ℕ) (s : TexState) → IsIdle s → IsIdle (cache_init_cache count s)
unfolding cache_init_cache
inits-IsIdle count s v = record {
  lrus =
      if-elim (Each IsEmptyLru) (ltb (length (s.lrus)) 8)
        (λ _.
          Each-append IsEmptyLru (s.lrus) (lru_init (length (s.caches))) (v.lrus)
            (lru_init-IsEmptyLru (length (s.caches))))
        (λ _. v.lrus);
  caches =
      Each-append IsClear (s.caches)
        (record { next_uid = 1; content = replicate (entry_count count) clear_entry }) (v.caches)
        (Each-replicate (entry_count count));
  queue = v.queue;
}

advances-IsEmptyLru : (ls : List Lru) → Each IsEmptyLru ls → Each IsEmptyLru (advance_lrus ls)
advances-IsEmptyLru [] h = tt
advances-IsEmptyLru (l ∷ ls) h = (h.0, advances-IsEmptyLru ls (h.1))

event-Idles : (e : TexEvent) (s : TexState) → IsIdle s → Idles (tex_event e s)
unfolding cache_get_texture cache_load_image cache_advance_frame
event-Idles (inits_cache count) s v = (refl, inits-IsIdle count s v)
event-Idles (gets o c value id uid) s v =
    get-Misses o c value id uid s v (get_elem? (s.caches) c)
      (Each-get IsClear (s.caches) c (v.caches))
event-Idles (loads_image frame loads) s v =
    subst (λ q. Idles (with_none (load_queued frame loads s q))) (sym (v.queue)) (refl, v)
event-Idles advances s v = (
  refl,
  record { lrus = advances-IsEmptyLru (s.lrus) (v.lrus); caches = v.caches; queue = v.queue },
)

run-IsIdle :
    (es : List TexEvent) (s : TexState)
    → IsIdle s
    → (ts : List (Option ℕ)) × (s' : TexState) × (tex_run es s ≡ some (ts, s'))
      × Each (λ t. t ≡ none) ts
      × IsIdle s'
unfolding tex_run
run-IsIdle [] s v = ([], s, refl, tt, v)
run-IsIdle (e ∷ es) s v = by (tex_event e s) (event-Idles e s v) (λ s' v'. run-IsIdle es s' v')
  where
    by :
        (o : Option (Option ℕ × TexState))
        → Idles o
        → ((s' : TexState)
            → IsIdle s'
            → (ts : List (Option ℕ)) × (s'' : TexState) × (tex_run es s' ≡ some (ts, s''))
              × Each (λ t. t ≡ none) ts
              × IsIdle s'')
        → (ts : List (Option ℕ)) × (s' : TexState) × (and_run (tex_run es) o ≡ some (ts, s'))
          × Each (λ t. t ≡ none) ts
          × IsIdle s'
    by none h go = absurd h
    by (some (t, s')) h go =
        let (ts, s'', q, k, v') = go s' (h.1) in (t ∷ ts, s'', ap (cons_texture t) q, (h.0, k), v')

-- After `cacheInit`, whatever caches are made, whatever textures are asked for, with any place and `UID` in the
-- caller's hand, and whatever the I/O thread and the frames do: no access goes through NULL, no request is
-- ever put, and every call of `cacheGetTexture` gives NULL, since the lists of the caches begin empty and
-- only a loaded image is added to them.
pub tex_run-IsIdle :
    (es : List TexEvent)
    → (ts : List (Option ℕ)) × (s : TexState) × (tex_run es cache_init ≡ some (ts, s))
      × Each (λ t. t ≡ none) ts
      × IsIdle s
tex_run-IsIdle es = run-IsIdle es cache_init (record { lrus = tt; caches = tt; queue = refl })
