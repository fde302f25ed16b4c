-- ===== src/Samples/Tests/ThrottlerTests.antt =====
-- src/redis/redis-throttler-storage.ts at the keyspace in memory.
use nestjs_scaffold.Base.{true, false, ◌≡◌, refl, arith}
use nestjs_scaffold.Exec.{ok}
use nestjs_scaffold.Env.{World}
use nestjs_scaffold.RedisService.{set, set_with_options, ttl, expire, increment}
use nestjs_scaffold.Throttler.{ThrottlerStorageRecord, set_block, count_hit, increment_hits}
use nestjs_scaffold.Throttler.Blocking.{blocked_by_one}
use nestjs_scaffold.Samples.Keyspace.{in_memory_redis_laws}
use nestjs_scaffold.Samples.World.{env, start}

abbrev counted : ThrottlerStorageRecord
counted = record {
  total_hits = 1;
  time_to_expire = 0;
  is_blocked = false;
  time_to_block_expire = 0;
}

abbrev after : World env
after = (increment_hits env "ip" 60000 100 5000 start).1

hit_run : increment_hits env "ip" 60000 100 5000 start ≡ (ok counted, after)
unfolding increment_hits ttl count_hit increment expire set_block set set_with_options
hit_run = refl

blocked_by_one_example :
    (r : ThrottlerStorageRecord) × (increment_hits env "ip" 60000 100 5000 after ≡ (ok r, after))
    × (r.is_blocked ≡ true)
blocked_by_one_example =
    blocked_by_one env in_memory_redis_laws "ip" 60000 100 5000 start after counted (omega arith)
      refl hit_run
