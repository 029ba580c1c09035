-- ===== src/Scheduler/Sessions/Affinity.antt =====
-- Where a session is routed (internal/scheduler/session_router.go `RouteSession`).
use function.Prelude.{
  ℕ, ◌+◌, ◌<◌, String, ◌≡◌, refl, ap, ◌∙◌, ◌⊎◌, inl, inr, Bool, true, false, not, ◌&&◌, ◌||◌,
  Option, none, some, arith, ltb, if◌then◌else◌, lookup, ◌==◌, eq_refl, lookup-set,
}
use function.Prelude.Int.{ℤ}
use function.Scheduler.Ring.{get}
use function.Scheduler.Sessions.{
  Redis, StateConfig, SessionEntry, SessionRouter, session_ttl, join_key, redis_key, update_cache,
  bind_session, from_ring, from_redis, from_cache, look_up, with_config, route_session,
}

empty_named : (s : String) → s ≡ "" → s == "" ≡ false → ⊥
empty_named s h k = cc (h, k, eq_refl "")

module _ {R : Type 0} (redis : Redis R) where
  -- No VM, or one that is alive and that the cache has for the session, for some time from now.
  abbrev pub IsRouted : (String → Bool) → ℕ → String → String × SessionRouter R → Type 0
  IsRouted alive now key out =
      (out.0 ≡ "")
      ⊎ ((alive out.0 ≡ true)
          × (e : SessionEntry) × (lookup key out.1.session_cache ≡ some e)
          × (e.vm_id ≡ out.0)
          × (now < e.expires_at))

  update_cache-IsRouted :
      (alive : String → Bool) (now : ℕ) (key vm : String) (r : SessionRouter R)
      → alive vm ≡ true
      → IsRouted alive now key (vm, update_cache key vm now r)
  unfolding update_cache
  update_cache-IsRouted alive now key vm r h = inr (
    h,
    record { vm_id = vm; expires_at = now + session_ttl },
    rw (lookup-set, eq_refl),
    refl,
    omega arith,
  )

  if_IsRouted :
      (alive : String → Bool) (now : ℕ) (key : String) (b : Bool) (x y : String × SessionRouter R)
      → (b ≡ true → IsRouted alive now key x)
      → IsRouted alive now key y
      → IsRouted alive now key (if b then x else y)
  if_IsRouted alive now key true x y h k = h refl
  if_IsRouted alive now key false x y h k = k

  and_right : (a b : Bool) → (a && b) ≡ true → b ≡ true
  and_right true b h = h
  and_right false b h = cc

  and_left : (a b : Bool) → (a && b) ≡ true → a ≡ true
  and_left true b h = refl
  and_left false b h = cc

  from_ring-IsRouted :
      (alive : String → Bool) (now : ℕ) (f session : String) (timeout : ℤ) (r : SessionRouter R)
      → IsRouted alive now (join_key f session) (from_ring redis alive now f session timeout r)
  unfolding from_ring
  from_ring-IsRouted alive now f session timeout r =
      let vm : String = get (join_key f session) r.hash_ring in
      if_IsRouted alive now (join_key f session) (not (vm == "") && alive vm) _ _
        (λ h.
          update_cache-IsRouted alive now (join_key f session) vm
            (bind_session redis f session vm timeout r).1 (and_right (not (vm == "")) (alive vm) h))
        (inl refl)

  from_redis-IsRouted :
      (bound : Option String) (alive : String → Bool) (now : ℕ) (f session : String) (timeout : ℤ)
      (r : SessionRouter R)
      → IsRouted alive now
          (join_key f session)
          (from_redis redis bound alive now f session timeout r)
  unfolding from_redis
  from_redis-IsRouted none alive now f session timeout r =
      from_ring-IsRouted alive now f session timeout r
  from_redis-IsRouted (some vm) alive now f session timeout r =
      if_IsRouted alive now (join_key f session) (vm == "") _ _
        (λ h. from_ring-IsRouted alive now f session timeout r)
        (if_IsRouted alive now (join_key f session) (alive vm) _ _
          (λ h.
            update_cache-IsRouted alive now (join_key f session) vm
              (record r { redis_state = redis.touch (redis_key f session) r.redis_state }) h)
          (from_ring-IsRouted alive now f session timeout _))

  from_cache-IsRouted :
      (entry : Option SessionEntry) (alive : String → Bool) (now : ℕ) (f session : String)
      (timeout : ℤ) (r : SessionRouter R)
      → lookup (join_key f session) r.session_cache ≡ entry
      → IsRouted alive now
          (join_key f session)
          (from_cache redis entry alive now f session timeout r)
  unfolding from_cache look_up
  from_cache-IsRouted none alive now f session timeout r h =
      from_redis-IsRouted (redis.hget r.redis_state (redis_key f session) "vm_id") alive now f
        session timeout r
  from_cache-IsRouted (some e) alive now f session timeout r h =
      if_IsRouted alive now (join_key f session) (ltb now e.expires_at && alive e.vm_id) _
        (from_redis redis (redis.hget r.redis_state (redis_key f session) "vm_id") alive now f
          session timeout r)
        (λ k. inr (
          and_right (ltb now e.expires_at) (alive e.vm_id) k,
          e,
          h,
          refl,
          ground (arith, and_left (ltb now e.expires_at) (alive e.vm_id) k),
        ))
        (from_redis-IsRouted (redis.hget r.redis_state (redis_key f session) "vm_id") alive now f
          session timeout r)

  -- A session is routed to no VM or to one that is alive; the cache then holds that VM for it for some
  -- time from now on.
  pub route_session-IsRouted :
      (config : Option StateConfig) (alive : String → Bool) (now : ℕ) (f session : String)
      (r : SessionRouter R)
      → IsRouted alive now (join_key f session) (route_session redis config alive now f session r)
  unfolding route_session with_config
  route_session-IsRouted none alive now f session r = inl refl
  route_session-IsRouted (some c) alive now f session r =
      if_IsRouted alive now (join_key f session) (session == "" || not c.session_affinity) _ _
        (λ h. inl refl)
        (from_cache-IsRouted (lookup (join_key f session) r.session_cache) alive now f session
          c.session_timeout r refl)

  route_session_cached :
      (c : StateConfig) (alive : String → Bool) (now : ℕ) (f session : String) (e : SessionEntry)
      (r : SessionRouter R)
      → c.session_affinity ≡ true
      → session == "" ≡ false
      → lookup (join_key f session) r.session_cache ≡ some e
      → now < e.expires_at
      → alive e.vm_id ≡ true
      → route_session redis (some c) alive now f session r ≡ (e.vm_id, r)
  unfolding route_session with_config from_cache
  route_session_cached c alive now f session e r affine named found early lives =
      let test : ltb now e.expires_at ≡ true = ground arith in
      rw (affine, named, found, test, lives) refl

  routed_entry :
      (alive : String → Bool) (now : ℕ) (key : String) (out : String × SessionRouter R)
      (e : SessionEntry)
      → IsRouted alive now key out
      → out.0 == "" ≡ false
      → lookup key out.1.session_cache ≡ some e
      → e.vm_id ≡ out.0
  routed_entry alive now key out e (inl none_there) named found =
      absurd (empty_named out.0 none_there named)
  routed_entry alive now key out e (inr (lives, e', found', same, later)) named found =
      cc (found, found', same)

  -- A session that was routed to a VM goes to the same VM again, and nothing changes, until its entry in
  -- the cache expires or that VM is no longer alive, whatever else is alive then.
  pub route_session-route_session :
      (c : StateConfig) (alive alive' : String → Bool) (now later : ℕ) (f session : String)
      (e : SessionEntry) (r : SessionRouter R)
      → c.session_affinity ≡ true
      → session == "" ≡ false
      → (route_session redis (some c) alive now f session r).0 == "" ≡ false
      → lookup
          (join_key f session)
          (route_session redis (some c) alive now f session r).1.session_cache
        ≡ some e
      → later < e.expires_at
      → alive' (route_session redis (some c) alive now f session r).0 ≡ true
      → route_session redis
          (some c)
          alive'
          later
          f
          session
          (route_session redis (some c) alive now f session r).1
        ≡ route_session redis (some c) alive now f session r
  route_session-route_session c alive alive' now later f session e r affine named routed found early
        lives =
      let out : String × SessionRouter R = route_session redis (some c) alive now f session r in
      let same : e.vm_id ≡ out.0 =
        routed_entry alive now (join_key f session) out e
          (route_session-IsRouted (some c) alive now f session r) routed found in
      route_session_cached c alive' later f session e (out.1) affine named found early
        (ap alive' same ∙ lives)
      ∙ ap (λ vm. (vm, out.1)) same
