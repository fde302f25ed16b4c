-- ===== src/Access.antt =====
-- src/access/access.service.ts: the roles and permissions of a user in a tenant, with their cache.
pub mod Cache
pub mod Loading
pub mod Assigned
use nestjs_scaffold.Base.{
  String, Bool, Option, none, some, List, [], ◌∷◌, ◌&&◌, ◌||◌, ◌==◌, ◌<>◌, not, map, any, unique,
  sort, flat_map, is_some, is_text, if◌then◌else◌,
}
use nestjs_scaffold.Constants.{access_cache_prefix, system_admin_role}
use nestjs_scaffold.Exec.{◌>>=◌, ◌>>◌, pure, throw, unauthorized}
use nestjs_scaffold.Schema.{
  Model, tenant, user, tenant_membership, role, permission, role_permission, user_role_assignment,
  Row, TenantMembership, UserRoleAssignment, Role, RolePermission, Permission,
}
use nestjs_scaffold.Prisma.{Prisma, asc}
use nestjs_scaffold.Env.{Env, Action, UserAccess, query}
use nestjs_scaffold.RedisService.{for_seconds, get_json, set_json, delete, delete_by_pattern}

abbrev pub to_list {ℓ} : {A : Type ℓ} → Option A → List A
to_list none = []
to_list (some a) = a ∷ []

-- Reads through the relations of the schema.
module _ (p : Prisma) (db : p.Db) where
  -- Whether a table has a row that passes the test, as in a filter on a relation.
  abbrev pub exists_row : (m : Model) → (Row m → Bool) → Bool
  exists_row m w = is_some (p.find_first m w [] db)

  -- A role that is global or the tenant's: `OR: [{ tenantId: null }, { tenantId }]`.
  abbrev pub in_scope : String → Role → Bool
  in_scope tenant_id r = not (is_some r.tenant_id) || is_text r.tenant_id tenant_id

  -- The codes of `role.permissions`, by the filter on their rows.
  abbrev pub role_codes : (RolePermission → Bool) → Role → List String
  role_codes w r =
      map (λ (q : Permission). q.code)
        (flat_map
          (λ (b : RolePermission).
            to_list (p.find_first permission (λ q. q.id == b.permission_id) [] db))
          (p.find_many role_permission (λ b. b.role_id == r.id && w b) [] db))

  -- `permissions: { where: { enabled: true, permission: { enabled: true } } }`
  abbrev pub granted : RolePermission → Bool
  granted b = b.enabled && exists_row permission (λ q. q.id == b.permission_id && q.enabled)

  -- The `where` of `tenantMembership.findFirst`
  abbrev pub is_active_membership : String → String → TenantMembership → Bool
  is_active_membership user_id tenant_id m =
      m.user_id == user_id
      && m.tenant_id == tenant_id
      && m.active
      && exists_row user (λ u. u.id == m.user_id && u.active)
      && exists_row tenant (λ t. t.id == m.tenant_id && t.active)

  -- The roles of `userRoleAssignment.findMany`
  abbrev pub assigned_roles : String → String → List Role
  assigned_roles user_id tenant_id =
      flat_map
        (λ (a : UserRoleAssignment). to_list (p.find_first role (λ r. r.id == a.role_id) [] db))
        (p.find_many user_role_assignment
          (λ a.
            a.user_id == user_id
            && a.tenant_id == tenant_id
            && exists_row role (λ r. r.id == a.role_id && r.enabled && in_scope tenant_id r))
          [] db)

  abbrev pub is_system_admin : Role → Bool
  is_system_admin r = r.code == system_admin_role && r.built_in && not (is_some r.tenant_id)

  -- What is computed of the roles.
  unfoldable pub access_of : List Role → UserAccess
  access_of roles = record {
    roles = sort (unique (map (λ (r : Role). r.code) roles));
    permissions =
        if any is_system_admin roles
        then map (λ (q : Permission). q.code)
            (p.find_many permission (λ q. q.enabled) (asc "code" ∷ []) db)
        else sort (unique (flat_map (role_codes granted) roles));
  }

module _ (env : Env) where
  abbrev pub cache_key : String → String → String
  cache_key tenant_id user_id = access_cache_prefix <> tenant_id <> ":" <> user_id

  -- The part of `getUserAccess` behind the cache.
  unfoldable pub load_access : String → String → Action env UserAccess
  load_access user_id tenant_id = do
    membership ← query env λ db.
        env.prisma.find_first tenant_membership
          (is_active_membership env.prisma db user_id tenant_id) [] db
    elim membership as (λ _. Action env UserAccess) [
      | none ↦ throw (unauthorized "User is not an active member of tenant")
      | some _ ↦ do
        access ←
            query env λ db. access_of env.prisma db (assigned_roles env.prisma db user_id tenant_id)
        set_json env (cache_key tenant_id user_id) access (for_seconds 300)
        pure access
    ]

  unfoldable pub get_user_access : String → String → Action env UserAccess
  unfolding load_access
  get_user_access user_id tenant_id = do
    cached ← get_json env (cache_key tenant_id user_id)
    elim cached as (λ _. Action env UserAccess) [
      | some access ↦ pure access
      | none ↦ load_access user_id tenant_id
    ]

  -- `invalidateUser`, with the tenant if it is given
  unfoldable pub invalidate_user : String → Option String → Action env Unit
  invalidate_user user_id none = do
    delete_by_pattern env (access_cache_prefix <> "*" <> ":" <> user_id)
    pure tt
  invalidate_user user_id (some tenant_id) =
      if tenant_id == ""
      then (do delete_by_pattern env (access_cache_prefix <> "*" <> ":" <> user_id); pure tt)
      else (do delete env (cache_key tenant_id user_id ∷ []); pure tt)

  unfoldable pub invalidate_tenant : String → Action env Unit
  invalidate_tenant tenant_id = do
    delete_by_pattern env (access_cache_prefix <> tenant_id <> ":*")
    pure tt

  unfoldable pub invalidate_all : Action env Unit
  invalidate_all = do delete_by_pattern env (access_cache_prefix <> "*"); pure tt
