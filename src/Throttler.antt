-- ===== src/Throttler.antt =====
-- src/redis/redis-throttler-storage.ts: the requests of a client are counted, and it is blocked.
pub mod Blocking
use nestjs_scaffold.Base.{
  ℕ, ◌+◌, ◌*◌, ◌/◌, String, Bool, true, false, ◌<>◌, ltb, eqb, is_pos, max_zero, if◌then◌else◌,
}
use nestjs_scaffold.Exec.{◌>>=◌, ◌>>◌, pure, when}
use nestjs_scaffold.Env.{Env, Action}
use nestjs_scaffold.RedisService.{for_seconds, set, ttl, expire, increment}

pub record ThrottlerStorageRecord : Type 0 where
  pub total_hits : ℕ
  pub time_to_expire : ℕ
  pub is_blocked : Bool
  pub time_to_block_expire : ℕ

abbrev pub block_key : String → String
block_key key = "throttler:block:" <> key

-- `Math.ceil(ms / 1000)`
abbrev pub ceil_seconds : ℕ → ℕ
ceil_seconds ms = (ms + 999) / 1000

module _ (env : Env) where
  unfoldable pub set_block : String → ℕ → Action env Unit
  set_block key block_duration =
      when (ltb 0 block_duration)
        (do set env (block_key key) "1" (for_seconds (ceil_seconds block_duration)); pure tt)

  -- `increment` of a client that is not blocked
  unfoldable pub count_hit : String → ℕ → ℕ → Action env ThrottlerStorageRecord
  count_hit key ttl_ms block_duration = do
    total_hits ← increment env key
    when (eqb total_hits 1) (do expire env key (ceil_seconds ttl_ms); pure tt)
    left ← ttl env key
    set_block key block_duration
    pure (record {
      total_hits = total_hits;
      time_to_expire = max_zero left * 1000;
      is_blocked = false;
      time_to_block_expire = 0;
    })

  -- `increment` of the storage; the limit is not read
  unfoldable pub increment_hits : String → ℕ → ℕ → ℕ → Action env ThrottlerStorageRecord
  increment_hits key ttl_ms limit block_duration = do
    block_ttl ← ttl env (block_key key)
    if is_pos block_ttl
        then pure (record {
          total_hits = 0;
          time_to_expire = 0;
          is_blocked = true;
          time_to_block_expire = max_zero block_ttl * 1000;
        })
        else count_hit key ttl_ms block_duration
