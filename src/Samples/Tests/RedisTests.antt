-- ===== src/Samples/Tests/RedisTests.antt =====
-- src/redis/redis.service.ts at the keyspace in memory.
use nestjs_scaffold.Base.{true, some, none, ◌≡◌, [], ◌∷◌}
use nestjs_scaffold.Redis.{ex}
use nestjs_scaffold.Env.{UserAccess, World}
use nestjs_scaffold.RedisService.{RedisSetOptions, delete_by_pattern}
use nestjs_scaffold.RedisService.Scan.{delete_by_pattern_lem}
use nestjs_scaffold.Samples.Keyspace.{in_memory_redis_laws, in_memory_scan}
use nestjs_scaffold.Samples.World.{env, start, enough_rounds}

abbrev lock_options : RedisSetOptions
lock_options = record { ttl_seconds = some 300; ttl_milliseconds = some 5; nx = true; xx = true }

abbrev reader : UserAccess
reader = record { roles = "editor" ∷ []; permissions = "user.read" ∷ [] }

abbrev cached : World env
cached = record start {
  keys = record { key = "auth:access:t1:u1"; value = "x"; expiry = ex 300 } ∷ [];
}

delete_by_pattern_example :
    env.redis.get "auth:access:t1:u1" (delete_by_pattern env "auth:access:t1:*" cached).1.keys
    ≡ none
unfolding in_memory_scan
delete_by_pattern_example =
    delete_by_pattern_lem env in_memory_redis_laws in_memory_scan "auth:access:t1:*"
      "auth:access:t1:u1" cached enough_rounds
