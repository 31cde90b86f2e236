-- ===== src/RateLimit.antt =====
-- app/engines/ratelimit.py: counters in Redis, and in the process while Redis is down.
pub mod Window
use ekyc.Prelude.{
  ℕ, suc, ◌+◌, String, Bool, true, false, Option, none, some, List, ltb, leb, ◌==◌, if◌then◌else◌,
  lookup, insert, or_else,
}
use ekyc.Env.{Env}
use ekyc.Exec.{Db, Limiter, Exec, pure, gets, draw, utcnow, ◌>>=◌, ◌>>◌}
use ekyc.Store.{modify_limiter}

-- `_BACKEND_DOWN_GRACE_S`
abbrev pub backend_down_grace_s : ℕ
backend_down_grace_s = 30

-- `_mem.get(key, (0.0, 0))`
abbrev pub entry_of : String → Limiter → ℕ × ℕ
entry_of key l = or_else (lookup key l.mem) (0, 0)

abbrev pub count_at : ℕ → ℕ × ℕ → ℕ
count_at now (expiry, count) = if leb expiry now then 0 else count

-- `_redis_down`
unfoldable pub redis_down : Exec Bool
redis_down = do now ← utcnow; gets (λ db. ltb now db.limiter.down_until)

-- `_mark_redis_down`
unfoldable pub mark_redis_down : Exec (Unit {0})
mark_redis_down = do
  now ← utcnow
  modify_limiter (λ l. record l { down_until = now + backend_down_grace_s })

-- `_mem_hit`
unfoldable pub mem_hit : String → ℕ → Exec ℕ
mem_hit key window = do
  now ← utcnow
  count ← gets (λ db. count_at now (entry_of key db.limiter) + 1)
  modify_limiter (λ l. record l { mem = insert key (now + window, count) l.mem })
  pure count

module _ (env : Env) where
  -- The reply of the server, or the fallback.
  abbrev pub hit_reply : String → ℕ → Option ℕ → Exec ℕ
  hit_reply key window (some n) = pure n
  hit_reply key window none = mark_redis_down >> mem_hit key window

  abbrev pub hit_redis : String → ℕ → Exec ℕ
  hit_redis key window = do request ← draw; hit_reply key window (env.redis_incr request key window)

  unfoldable pub hit : String → ℕ → Exec ℕ
  hit key window = do down ← redis_down; if down then mem_hit key window else hit_redis key window

-- The fallback of `acquire_once`.
unfoldable pub mem_acquire : String → ℕ → Exec Bool
mem_acquire key ttl = do
  now ← utcnow
  entry ← gets (λ db. entry_of key db.limiter)
  if ltb now entry.0
      then pure false
      else do modify_limiter (λ l. record l { mem = insert key (now + ttl, 1) l.mem }); pure true

module _ (env : Env) where
  abbrev pub acquire_reply : String → ℕ → Option Bool → Exec Bool
  acquire_reply key ttl (some b) = pure b
  acquire_reply key ttl none = mark_redis_down >> mem_acquire key ttl

  abbrev pub acquire_redis : String → ℕ → Exec Bool
  acquire_redis key ttl = do
    request ← draw
    acquire_reply key ttl (env.redis_set_nx request key ttl)

  unfoldable pub acquire_once : String → ℕ → Exec Bool
  acquire_once key ttl =
      if ttl == 0
      then pure true
      else do down ← redis_down; if down then mem_acquire key ttl else acquire_redis key ttl
