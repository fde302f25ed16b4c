-- ===== src/RedisService.antt =====
-- src/redis/redis.service.ts: the operations that the other services use. Those on hashes, lists
-- and sets have no caller and are left out; so are the client's events.
pub mod Options
pub mod Scan
pub mod Laws
use nestjs_scaffold.Base.{
  ℕ, zero, suc, ◌+◌, String, Bool, false, Option, none, some, List, [], ◌∷◌, ◌&&◌, ◌==◌, eqb, ℤ,
  is_some, is_text, or_else, truthy, if◌then◌else◌,
}
use nestjs_scaffold.Exec.{◌>>=◌, pure}
use nestjs_scaffold.Redis.{Redis, SetCommand, Expiry, forever, ex, px, Condition, always, nx, xx}
use nestjs_scaffold.Env.{Env, World, Action, UserAccess, peek, command}

pub record RedisSetOptions : Type 0 where
  pub ttl_seconds : Option ℕ
  pub ttl_milliseconds : Option ℕ
  pub nx : Bool
  pub xx : Bool

-- `{ ttlSeconds: n }`
abbrev pub for_seconds : ℕ → RedisSetOptions
for_seconds n = record { ttl_seconds = some n; ttl_milliseconds = none; nx = false; xx = false }

-- `setWithOptions`: the SET command for the options
unfoldable pub set_with_options : String → String → RedisSetOptions → SetCommand
set_with_options key value o =
    let send = λ (e : Expiry) (c : Condition).
      let r : SetCommand = record { key = key; value = value; expiry = e; condition = c } in r in
    if is_some o.ttl_seconds && o.nx
    then send (ex (or_else o.ttl_seconds 0)) nx
    else if is_some o.ttl_seconds && o.xx
    then send (ex (or_else o.ttl_seconds 0)) xx
    else if is_some o.ttl_milliseconds && o.nx
    then send (px (or_else o.ttl_milliseconds 0)) nx
    else if is_some o.ttl_milliseconds && o.xx
    then send (px (or_else o.ttl_milliseconds 0)) xx
    else if is_some o.ttl_seconds
    then send (ex (or_else o.ttl_seconds 0)) always
    else if is_some o.ttl_milliseconds
    then send (px (or_else o.ttl_milliseconds 0)) always
    else if o.nx
    then send forever nx
    else if o.xx
    then send forever xx
    else send forever always

-- `if (keys.length) deleted += await this.client.del(...keys)`
abbrev pub del_found : (r : Redis) → List String → r.Keyspace → ℕ × r.Keyspace
del_found r [] ks = (0, ks)
del_found r (k ∷ keys) ks = r.del (k ∷ keys) ks

-- The loop of `deleteByPattern`, on the rounds left, the cursor and the number deleted.
unfoldable pub scan_loop : (r : Redis) → ℕ → String → String → ℕ → ℕ → r.Keyspace → ℕ × r.Keyspace
scan_loop r zero cursor pattern batch deleted ks = (deleted, ks)
scan_loop r (suc rounds) cursor pattern batch deleted ks =
    let (next, keys) = r.scan cursor pattern batch ks in
    let (n, ks') = del_found r keys ks in
    let again = scan_loop r rounds next pattern batch (deleted + n) ks' in
    if next == "0" then (deleted + n, ks') else again

module _ (env : Env) where
  unfoldable pub get : String → Action env (Option String)
  get key = peek env (env.redis.get key)

  unfoldable pub set : String → String → RedisSetOptions → Action env Bool
  set key value options = do
    result ← command env (env.redis.set (set_with_options key value options))
    pure (is_text result "OK")

  -- `value ? JSON.parse(value) : null`
  abbrev pub json_value : Option String → Option UserAccess
  json_value value = if truthy value then some (env.parse_access (or_else value "")) else none

  -- `getJson` and `setJson` at the type that is cached
  unfoldable pub get_json : String → Action env (Option UserAccess)
  unfolding get
  get_json key = do value ← get key; pure (json_value value)

  unfoldable pub set_json : String → UserAccess → RedisSetOptions → Action env Bool
  unfolding set
  set_json key value options = set key (env.print_access value) options

  unfoldable pub delete : List String → Action env ℕ
  delete [] = pure 0
  delete (k ∷ keys) = command env (env.redis.del (k ∷ keys))

  unfoldable pub exists : String → Action env Bool
  exists key = do n ← peek env (env.redis.exists key); pure (eqb n 1)

  unfoldable pub expire : String → ℕ → Action env Bool
  expire key seconds = do n ← command env (env.redis.expire key seconds); pure (eqb n 1)

  unfoldable pub ttl : String → Action env ℤ
  ttl key = peek env (env.redis.ttl key)

  unfoldable pub increment : String → Action env ℕ
  increment key = command env (env.redis.incr key)

  unfoldable pub delete_by_pattern : String → Action env ℕ
  delete_by_pattern pattern = command env (scan_loop env.redis env.scan_rounds "0" pattern 500 0)
