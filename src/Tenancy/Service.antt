-- ===== src/Tenancy/Service.antt =====
-- src/tenancy/tenancy.service.ts: the tenants, and the resolution of a tenant by its slug.
use nestjs_scaffold.Base.{
  ◌/◌, String, Bool, true, false, not, Option, none, some, List, [], ◌∷◌, ◌&&◌, ◌||◌, ◌==◌, ◌<>◌,
  is_some, or_else, truthy, if◌then◌else◌,
}
use nestjs_scaffold.Constants.{tenant_slug_cache_prefix, tenant_deactivated_prefix}
use nestjs_scaffold.Duration.{parse_ttl_seconds}
use nestjs_scaffold.Exec.{
  Error, failure, ◌>>=◌, ◌>>◌, pure, throw_if, or_throw, conflict, not_found,
}
use nestjs_scaffold.Schema.{Tenant, Role, tenant, tenant_membership, role, user_role_assignment}
use nestjs_scaffold.Prisma.{desc}
use nestjs_scaffold.Env.{Env, Action, query, write, transaction, find_or_throw}
use nestjs_scaffold.RedisService.{for_seconds, get, set}

pub record CreateTenantDto : Type 0 where
  pub slug : String
  pub name : String

-- Redis refuses an expiry of NaN.
abbrev pub invalid_expiry : Error
invalid_expiry = failure "ERR value is not an integer or out of range"

module _ (env : Env) where
  unfoldable pub find_all : Bool → Action env (List Tenant)
  find_all include_inactive =
      query env
        (env.prisma.find_many tenant (λ t. include_inactive || t.active) (desc "createdAt" ∷ []))

  unfoldable pub find_by_id : String → Action env Tenant
  find_by_id id = do
    found ← query env (env.prisma.find_first tenant (λ t. t.id == id) [])
    or_throw found (not_found "Tenant not found")

  unfoldable pub find_active_tenant : String → Action env Tenant
  find_active_tenant id = do
    found ← query env (env.prisma.find_first tenant (λ t. t.id == id && t.active) [])
    or_throw found (not_found "Tenant not found")

  -- the transaction of `create`
  unfoldable pub create_tenant : CreateTenantDto → String → Action env Tenant
  create_tenant dto creator_user_id = do
    t ← write env (
        env.prisma.create tenant
          λ id. record { id = id; slug = dto.slug; name = dto.name; active = true })
    write env (
        env.prisma.create tenant_membership
          λ _. record { user_id = creator_user_id; tenant_id = t.id; active = true })
    r ←
        find_or_throw env role
          (λ (r : Role). not (is_some r.tenant_id) && r.code == "system_admin" && r.built_in)
    write env (
        env.prisma.create user_role_assignment
          λ _. record { user_id = creator_user_id; tenant_id = t.id; role_id = r.id })
    pure t

  unfoldable pub create : CreateTenantDto → String → Action env Tenant
  create dto creator_user_id = do
    existing ← query env (env.prisma.find_first tenant (λ t. t.slug == dto.slug) [])
    throw_if (is_some existing) (conflict "Tenant slug already exists")
    transaction env (create_tenant dto creator_user_id)

  -- with the new name, if there is one
  unfoldable pub update : String → Option String → Action env Tenant
  update id name = do
    t ← find_by_id id
    write env (
        env.prisma.update tenant (λ s. s.id == t.id) (λ s. record s { name = or_else name s.name }))

  -- The row is deleted or made inactive.
  unfoldable pub remove_row : String → Bool → Tenant → Action env Unit
  remove_row id true t = do write env (env.prisma.delete tenant (λ s. s.id == id)); pure tt
  remove_row id false t = do
    throw_if (not t.active) (not_found "Tenant is already inactive")
    write env (env.prisma.update tenant (λ s. s.id == id) (λ s. record s { active = false }))
    pure tt

  unfoldable pub remove : String → Bool → Action env Unit
  remove id hard = do
    t ← find_by_id id
    remove_row id hard t
    (λ w.
        (do
          seconds ←
              or_throw (parse_ttl_seconds (or_else (env.get_text "JWT_EXPIRES_IN") "2h"))
                invalid_expiry
          set env (tenant_deactivated_prefix <> id) (env.text_of_number (w.now / 1000))
              (for_seconds seconds)
          pure tt)
          w)

  -- `resolveTenantId` behind the cache
  unfoldable pub look_up_tenant_id : String → Action env (Option String)
  look_up_tenant_id slug = do
    found ← query env (env.prisma.find_first tenant (λ t. t.slug == slug && t.active) [])
    elim found as (λ _. Action env (Option String)) [
      | none ↦ pure none
      | some t ↦ do
        set env (tenant_slug_cache_prefix <> slug) t.id (for_seconds 3600)
        pure (some t.id)
    ]

  unfoldable pub resolve_tenant_id : String → Action env (Option String)
  resolve_tenant_id slug = do
    cached ← get env (tenant_slug_cache_prefix <> slug)
    if truthy cached then pure cached else look_up_tenant_id slug

  unfoldable pub bootstrap_default_tenant : Action env Tenant
  bootstrap_default_tenant = do
    existing ← query env (env.prisma.find_first tenant (λ t. t.slug == "default") [])
    elim existing as (λ _. Action env Tenant) [
      | some t ↦ pure t
      | none ↦ write env (
          env.prisma.create tenant
            λ id. record { id = id; slug = "default"; name = "Default Tenant"; active = true })
    ]
