-- ===== src/RedisService/Options.antt =====
-- The SET command that the options give (src/redis/redis.service.ts, `setWithOptions`).
use nestjs_scaffold.Base.{String, Option, none, some, ◌≡◌, ℕ, arith, if◌then◌else◌, Bool}
use nestjs_scaffold.Redis.{Expiry, forever, ex, px, Condition, always, nx, xx}
use nestjs_scaffold.RedisService.{RedisSetOptions, set_with_options}

-- Seconds come before milliseconds.
abbrev pub expiry_of : Option ℕ → Option ℕ → Expiry
expiry_of (some s) ms = ex s
expiry_of none (some ms) = px ms
expiry_of none none = forever

-- NX comes before XX.
abbrev pub condition_of : Bool → Bool → Condition
condition_of n x = if n then nx else if x then xx else always

-- For every choice of options the command writes the key and the value, with the expiry in seconds
-- if one is given and else in milliseconds, and under NX if asked for and else XX if asked for.
pub set_with_options_lem :
    (key value : String) (o : RedisSetOptions)
    → set_with_options key value o ≡ record {
      key = key;
      value = value;
      expiry = expiry_of o.ttl_seconds o.ttl_milliseconds;
      condition = condition_of o.nx o.xx;
    }
unfolding set_with_options
set_with_options_lem key value o = ground arith
