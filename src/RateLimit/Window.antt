-- ===== src/RateLimit/Window.antt =====
-- app/engines/ratelimit.py: the counters of the fallback, used while Redis is down.
use ekyc.Prelude.{
  ℕ, ◌+◌, ◌<◌, String, ◌≡◌, refl, true, false, arith, ltb, ◌==◌, eq_refl, lookup-insert, Bool-cases,
  inl, inr,
}
use ekyc.Env.{Env}
use ekyc.Exec.{Db, ok, utcnow, ◌>>=◌}
use ekyc.Store.{modify_limiter}
use ekyc.RateLimit.{entry_of, count_at, redis_down, mem_hit, hit, mem_acquire, acquire_once}

-- The count and the entry that a hit leaves.
mem_hit-entry :
    (key : String) (window : ℕ) (db : Db)
    → let (r, db') = mem_hit key window db in
      (r ≡ ok (count_at db.now (entry_of key db.limiter) + 1))
      × (entry_of key db'.limiter
          ≡ (db.now + window, count_at db.now (entry_of key db.limiter) + 1))
unfolding mem_hit ◌>>=◌ utcnow modify_limiter
mem_hit-entry key window db = (refl, rw (lookup-insert, eq_refl) refl)

-- The database at a later instant.
abbrev pub at_time : ℕ → Db → Db
at_time t db = record db { now = t }

-- While Redis is down, two hits inside one window count on: the second returns one more than the
-- first.
pub hit-counts :
    (env : Env) (key : String) (window t : ℕ) (db : Db) {n : ℕ}
    → t < db.now + window
    → db.now < db.limiter.down_until
    → t < db.limiter.down_until
    → (hit env key window db).0 ≡ ok n
    → (hit env key window (at_time t (hit env key window db).1)).0 ≡ ok (n + 1)
unfolding hit redis_down mem_hit ◌>>=◌ utcnow modify_limiter
hit-counts env key window t db inside down down' first =
    let now_down : ltb db.now db.limiter.down_until ≡ true = ground arith in
    let then_down : ltb t db.limiter.down_until ≡ true = ground arith in
    rw (now_down, then_down, lookup-insert, eq_refl) (let e = rw now_down at first in ground arith)

-- While Redis is down, a cooldown that was acquired is refused until its time to live has passed.
acquire_once-cooldown :
    (env : Env) (key : String) (ttl t : ℕ) (db : Db)
    → t < db.now + ttl
    → db.now < db.limiter.down_until
    → t < db.limiter.down_until
    → 0 < ttl
    → (acquire_once env key ttl db).0 ≡ ok true
    → (acquire_once env key ttl (at_time t (acquire_once env key ttl db).1)).0 ≡ ok false
unfolding acquire_once redis_down mem_acquire ◌>>=◌ utcnow modify_limiter
acquire_once-cooldown env key ttl t db inside down down' pos first =
    let some_ttl : (ttl == 0) ≡ false = ground arith in
    let now_down : ltb db.now db.limiter.down_until ≡ true = ground arith in
    let then_down : ltb t db.limiter.down_until ≡ true = ground arith in
    let in_time : ltb t (db.now + ttl) ≡ true = ground arith in
    elim (Bool-cases (ltb db.now (entry_of key db.limiter).0)) [
      | inl cooling ↦ cc (rw (some_ttl, now_down, cooling) at first)
      | inr free ↦ rw (some_ttl, now_down, free, then_down, lookup-insert, eq_refl, in_time) refl
    ]
