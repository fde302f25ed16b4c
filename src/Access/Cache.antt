-- ===== src/Access/Cache.antt =====
-- The cache of src/access/access.service.ts: what is stored is read back, and after an
-- invalidation the next read goes to the database.
use text.Mathlib.TextLemmas.{append_assoc}
use nestjs_scaffold.Base.{
  String, true, none, some, ◌≡◌, refl, ◌∙◌, sym, ap, subst, ◌≢◌, ◌<◌, ◌↔◌, arith, ◌<>◌, plain,
  Option-cases, inl, inr,
}
use nestjs_scaffold.Constants.{access_cache_prefix}
use nestjs_scaffold.Exec.{ok}
use nestjs_scaffold.Redis.Laws.{RedisLaws, ScanLaws}
use nestjs_scaffold.Env.{Env, World, UserAccess}
use nestjs_scaffold.RedisService.{for_seconds, json_value, get_json, set_json, delete_by_pattern}
use nestjs_scaffold.RedisService.Laws.{JsonLaws, get_json-set_json}
use nestjs_scaffold.RedisService.Scan.{delete_by_pattern_lem}
use nestjs_scaffold.Access.{
  cache_key, load_access, get_user_access, invalidate_user, invalidate_tenant,
}

module _ (env : Env) (redis : RedisLaws env.redis) where
  -- A miss in the cache is a read of the database.
  pub get_user_access-miss :
      (user_id tenant_id : String) (w : World env)
      → env.redis.get (cache_key env tenant_id user_id) w.keys ≡ none
      → get_user_access env user_id tenant_id w ≡ load_access env user_id tenant_id w
  unfolding get_user_access get_json
  get_user_access-miss user_id tenant_id w miss = rw miss

  -- What a read of the database returns, it has stored.
  load_access-stored :
      (user_id tenant_id : String) (w w' : World env) (a : UserAccess)
      → load_access env user_id tenant_id w ≡ (ok a, w')
      → (set_json env (cache_key env tenant_id user_id) a (for_seconds 300) w).1 ≡ w'
  unfolding load_access set_json
  load_access-stored user_id tenant_id w w' a e = ground arith

  hit_result :
      (user_id tenant_id : String) (w w' : World env) (a b : UserAccess)
      → json_value env (env.redis.get (cache_key env tenant_id user_id) w.keys) ≡ some b
      → get_user_access env user_id tenant_id w ≡ (ok a, w')
      → (b ≡ a) × (w ≡ w')
  unfolding get_user_access get_json
  hit_result user_id tenant_id w w' a b hit e = ground arith

  -- A hit in the cache is the answer; without one the database is read.
  get_user_access-hit :
      (user_id tenant_id : String) (w : World env) (a : UserAccess)
      → get_json env (cache_key env tenant_id user_id) w ≡ (ok (some a), w)
      → get_user_access env user_id tenant_id w ≡ (ok a, w)
  unfolding get_user_access
  get_user_access-hit user_id tenant_id w a hit = rw hit

  get_user_access-none :
      (user_id tenant_id : String) (w : World env)
      → json_value env (env.redis.get (cache_key env tenant_id user_id) w.keys) ≡ none
      → get_user_access env user_id tenant_id w ≡ load_access env user_id tenant_id w
  unfolding get_user_access get_json
  get_user_access-none user_id tenant_id w miss = rw miss

  -- Whoever has been given an access gets the same again, and nothing more is written.
  pub get_user_access_again :
      (json : JsonLaws env) (user_id tenant_id : String) (w w' : World env) (a : UserAccess)
      → get_user_access env user_id tenant_id w ≡ (ok a, w')
      → get_user_access env user_id tenant_id w' ≡ (ok a, w')
  get_user_access_again json user_id tenant_id w w' a e =
      let key = cache_key env tenant_id user_id in
      elim (Option-cases (json_value env (env.redis.get key w.keys))) [
        | inr (b, hit) ↦
            let done = (hit_result user_id tenant_id w w' a b hit e).1 in
            subst (λ v. get_user_access env user_id tenant_id v ≡ (ok a, v)) done
              (e ∙ ap (λ v. (ok a, v)) (sym done))
        | inl miss ↦
            let loaded = sym (get_user_access-none user_id tenant_id w miss) ∙ e in
            subst (λ v. get_user_access env user_id tenant_id v ≡ (ok a, v))
              (load_access-stored user_id tenant_id w w' a loaded)
              (get_user_access-hit user_id tenant_id _ a
                (get_json-set_json env redis json key a 300 w))
      ]

  -- The keys of a tenant's entries are those that the tenant's pattern matches.
  tenant_pattern :
      (scan : ScanLaws env.redis) (tenant_id k : String)
      → plain (access_cache_prefix <> tenant_id <> ":") ≡ true
      → (scan.matches (access_cache_prefix <> tenant_id <> ":*") k ≡ true)
        ↔ ((user_id : String) × (k ≡ cache_key env tenant_id user_id))
  tenant_pattern scan tenant_id k literal =
      let rule = scan.star_suffix (access_cache_prefix <> tenant_id <> ":") k literal in
      simp append_assoc at rule

  user_pattern :
      (scan : ScanLaws env.redis) (user_id k : String)
      → plain (":" <> user_id) ≡ true
      → (scan.matches (access_cache_prefix <> "*" <> ":" <> user_id) k ≡ true)
        ↔ ((tenant_id : String) × (k ≡ cache_key env tenant_id user_id))
  user_pattern scan user_id k literal =
      scan.star_middle access_cache_prefix (":" <> user_id) k refl literal

  kept :
      (scan : ScanLaws env.redis) (pattern k : String) (w : World env)
      → scan.remaining "0" < env.scan_rounds
      → scan.matches pattern k ≢ true
      → env.redis.get k (delete_by_pattern env pattern w).1.keys ≡ env.redis.get k w.keys
  kept scan pattern k w enough ne =
      ground (arith, delete_by_pattern_lem env redis scan pattern k w enough)

  -- After the entries of a tenant are invalidated, every user's access in it is read from the
  -- database, and a key that is no entry of the tenant keeps its value, given rounds enough for a
  -- full scan and a tenant id with no special character of patterns.
  pub invalidate_tenant_lem :
      (scan : ScanLaws env.redis) (tenant_id user_id k : String) (w : World env)
      → scan.remaining "0" < env.scan_rounds
      → plain (access_cache_prefix <> tenant_id <> ":") ≡ true
      → ((u : String) → k ≢ cache_key env tenant_id u)
      → let w' = (invalidate_tenant env tenant_id w).1 in
        (get_user_access env user_id tenant_id w' ≡ load_access env user_id tenant_id w')
        × (env.redis.get k w'.keys ≡ env.redis.get k w.keys)
  unfolding invalidate_tenant delete_by_pattern
  invalidate_tenant_lem scan tenant_id user_id k w enough literal other =
      let pattern = access_cache_prefix <> tenant_id <> ":*" in
      let rule = λ (k : String). tenant_pattern scan tenant_id k literal in
      (
        get_user_access-miss user_id tenant_id _ (
            rw (
              delete_by_pattern_lem env redis scan pattern _ w enough,
              (rule _).1 (user_id, refl),
            )),
        kept scan pattern k w enough (λ m. let (u, e) = (rule k).0 m in other u e),
      )

  -- After a user's entries in all tenants are invalidated, the user's access in every tenant is
  -- read from the database, and a key that is no entry of the user keeps its value, given rounds
  -- enough for a full scan and a user id with no special character of patterns.
  pub invalidate_user_lem :
      (scan : ScanLaws env.redis) (user_id tenant_id k : String) (w : World env)
      → scan.remaining "0" < env.scan_rounds
      → plain (":" <> user_id) ≡ true
      → ((t : String) → k ≢ cache_key env t user_id)
      → let w' = (invalidate_user env user_id none w).1 in
        (get_user_access env user_id tenant_id w' ≡ load_access env user_id tenant_id w')
        × (env.redis.get k w'.keys ≡ env.redis.get k w.keys)
  unfolding invalidate_user delete_by_pattern
  invalidate_user_lem scan user_id tenant_id k w enough literal other =
      let pattern = access_cache_prefix <> "*" <> ":" <> user_id in
      let rule = λ (k : String). user_pattern scan user_id k literal in
      (
        get_user_access-miss user_id tenant_id _ (
            rw (
              delete_by_pattern_lem env redis scan pattern _ w enough,
              (rule _).1 (tenant_id, refl),
            )),
        kept scan pattern k w enough (λ m. let (t, e) = (rule k).0 m in other t e),
      )
