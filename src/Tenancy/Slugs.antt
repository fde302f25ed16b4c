-- ===== src/Tenancy/Slugs.antt =====
-- `resolveTenantId` of src/tenancy/tenancy.service.ts and its cache.
use nestjs_scaffold.Base.{
  String, Option, some, [], true, ◌≡◌, ◌∙◌, sym, ap, refl, ◌==◌, ◌<>◌, ◌&&◌, eq_iff, truthy,
  Bool-cases, Option-cases, inl, inr,
}
use nestjs_scaffold.Constants.{tenant_slug_cache_prefix}
use nestjs_scaffold.Exec.{Result, ok, Returns, Returns-bind}
use nestjs_scaffold.Schema.{tenant}
use nestjs_scaffold.Redis.Laws.{RedisLaws}
use nestjs_scaffold.Env.{Env, World}
use nestjs_scaffold.RedisService.{for_seconds, get, set}
use nestjs_scaffold.RedisService.Laws.{get-set}
use nestjs_scaffold.Tenancy.Service.{resolve_tenant_id, look_up_tenant_id}

some_ok :
    {S : Type 0} (a b : Option String) (s t : S)
    → Path (Result (Option String) × S) (ok a, s) (ok b, t)
    → a ≡ b
some_ok a b s t e = let same : Path (Result (Option String)) (ok a) (ok b) = ap (λ x. x.0) e in cc

module _ (env : Env) where
  -- While a slug is cached, it is resolved to what the cache holds and nothing else is asked.
  resolve_tenant_id-cached :
      (slug id : String) (w : World env)
      → env.redis.get (tenant_slug_cache_prefix <> slug) w.keys ≡ some id
      → truthy (some id) ≡ true
      → resolve_tenant_id env slug w ≡ (ok (some id), w)
  unfolding resolve_tenant_id get
  resolve_tenant_id-cached slug id w cached there = rw (cached, there) refl

  module _ (redis : RedisLaws env.redis) where
    look_up-Returns :
        (slug : String) (w : World env)
        → Returns
            (λ r w'.
              (t : String)
              → r ≡ some t
              → env.redis.get (tenant_slug_cache_prefix <> slug) w'.keys ≡ some t)
            (look_up_tenant_id env slug w)
    unfolding look_up_tenant_id
    look_up-Returns slug w =
        let key = tenant_slug_cache_prefix <> slug in
        elim (Option-cases
          (env.prisma.find_first tenant (λ t. t.slug == slug && t.active) [] w.db)) [
            | inl missing ↦ rw missing (record { holds = λ r w' e t h. cc })
            | inr (row, found) ↦ rw found (
                Returns-bind (set env key row.id (for_seconds 3600)) _ w λ b w₁ done. record {
                  holds = λ r w' e t h.
                      let same : Path (Option String) (some row.id) (some t) =
                        some_ok _ _ _ _ e ∙ h in
                      ap (λ v. env.redis.get key v.keys) (sym (ap (λ x. x.1) e))
                      ∙ sym (ap (λ x. env.redis.get key x.1.keys) done)
                      ∙ get-set env redis key row.id 3600 w key
                      ∙ rw ((eq_iff key key).1 refl) same;
                })
          ]

    stored :
        (slug id : String) (w w' : World env)
        → resolve_tenant_id env slug w ≡ (ok (some id), w')
        → env.redis.get (tenant_slug_cache_prefix <> slug) w'.keys ≡ some id
    unfolding resolve_tenant_id get
    stored slug id w w' e =
        let cached = env.redis.get (tenant_slug_cache_prefix <> slug) w.keys in
        elim (Bool-cases (truthy cached)) [
          | inl hit ↦
              let done : Path (Result (Option String) × World env) (ok cached, w)
                  (ok (some id), w') =
                rw hit at e in
              ap (λ v. env.redis.get (tenant_slug_cache_prefix <> slug) v.keys)
                (sym (ap (λ x. x.1) done))
              ∙ some_ok _ _ _ _ done
          | inr miss ↦ (look_up-Returns slug w).holds (some id) w' (rw miss at e) id refl
        ]

    -- A slug that has been resolved is resolved to the same tenant again, and nothing is written,
    -- whatever the database holds by then, also when the tenant is not in it or not active any more.
    pub resolve_tenant_id_again :
        (slug id : String) (w w' : World env) (db : env.prisma.Db)
        → truthy (some id) ≡ true
        → resolve_tenant_id env slug w ≡ (ok (some id), w')
        → let later : World env = record w' { db = db } in
          resolve_tenant_id env slug later ≡ (ok (some id), later)
    resolve_tenant_id_again slug id w w' db there e =
        resolve_tenant_id-cached slug id (record w' { db = db }) (stored slug id w w' e) there
