-- ===== src/RedisService/Laws.antt =====
-- What the operations of src/redis/redis.service.ts do to the keyspace, from the laws of Redis.
use nestjs_scaffold.Base.{
  ℕ, String, true, false, not, none, some, List, [], ◌∷◌, ◌≡◌, refl, arith, ◌==◌, eq_iff, is_some,
  truthy, includes, if◌then◌else◌,
}
use nestjs_scaffold.Exec.{ok}
use nestjs_scaffold.Redis.Laws.{RedisLaws}
use nestjs_scaffold.Env.{Env, World, UserAccess}
use nestjs_scaffold.RedisService.Options.{set_with_options_lem}
use nestjs_scaffold.RedisService.{
  RedisSetOptions, for_seconds, set_with_options, set, get_json, set_json, delete, exists,
}

-- `{ ttlSeconds: n, nx: true }`
abbrev pub for_seconds_nx : ℕ → RedisSetOptions
for_seconds_nx n = record { ttl_seconds = some n; ttl_milliseconds = none; nx = true; xx = false }

-- What JSON promises of the cached value.
pub record JsonLaws (env : Env) : Type 0 where
  pub parse-print : (a : UserAccess) → env.parse_access (env.print_access a) ≡ a
  pub print-truthy : (a : UserAccess) → truthy (some (env.print_access a)) ≡ true

pub db-set :
    (env : Env) (key value : String) (o : RedisSetOptions) (w : World env)
    → (set env key value o w).1.db ≡ w.db
unfolding set
db-set env key value o w = refl

module _ (env : Env) (laws : RedisLaws env.redis) where
  -- A plain `set` writes its key and no other.
  pub get-set :
      (key value : String) (n : ℕ) (w : World env) (j : String)
      → env.redis.get j (set env key value (for_seconds n) w).1.keys
        ≡ (if key == j then some value else env.redis.get j w.keys)
  unfolding set set_with_options
  get-set key value n w j = laws.get-set (set_with_options key value (for_seconds n)) j w.keys

  pub set_result :
      (key value : String) (n : ℕ) (w : World env)
      → (set env key value (for_seconds n) w).0 ≡ ok true
  unfolding set set_with_options
  set_result key value n w = rw (laws.set_reply (set_with_options key value (for_seconds n)) w.keys)

  -- A `set` with `nx` writes a key that is not there, and says whether it did.
  pub get-set_nx :
      (key value : String) (n : ℕ) (w : World env) (j : String)
      → env.redis.get j (set env key value (for_seconds_nx n) w).1.keys ≡ (
          if is_some (env.redis.get key w.keys)
          then env.redis.get j w.keys
          else if key == j
          then some value
          else env.redis.get j w.keys)
  unfolding set set_with_options
  get-set_nx key value n w j =
      ground (arith, laws.get-set (set_with_options key value (for_seconds_nx n)) j w.keys)

  pub set_nx_result :
      (key value : String) (n : ℕ) (w : World env)
      → (set env key value (for_seconds_nx n) w).0 ≡ ok (not (is_some (env.redis.get key w.keys)))
  unfolding set set_with_options
  set_nx_result key value n w =
      ground (arith, laws.set_reply (set_with_options key value (for_seconds_nx n)) w.keys)

  pub get-delete :
      (keys : List String) (w : World env) (j : String)
      → env.redis.get j (delete env keys w).1.keys
        ≡ (if includes keys j then none else env.redis.get j w.keys)
  unfolding delete
  get-delete [] w j = refl
  get-delete (k ∷ keys) w j = laws.get-del (k ∷ keys) j w.keys

  pub exists_result :
      (key : String) (w : World env)
      → exists env key w ≡ (ok (is_some (env.redis.get key w.keys)), w)
  unfolding exists
  exists_result key w = ground (arith, laws.exists_lem key w.keys)

  -- What `setJson` has stored, `getJson` reads.
  pub get_json-set_json :
      (json : JsonLaws env) (key : String) (a : UserAccess) (n : ℕ) (w : World env)
      → let w' = (set_json env key a (for_seconds n) w).1 in get_json env key w' ≡ (ok (some a), w')
  unfolding get_json set_json
  get_json-set_json json key a n w = ground (
    arith,
    laws.get-set (set_with_options key (env.print_access a) (for_seconds n)) key w.keys,
    set_with_options_lem key (env.print_access a) (for_seconds n),
    eq_iff key key,
    json.parse-print a,
    json.print-truthy a,
  )
