-- ===== src/Seed.antt =====
-- src/database/seed.service.ts: the built-in permissions and roles, and the first administrator.
pub mod Permissions
use nestjs_scaffold.Base.{
  String, Bool, true, false, not, Option, none, some, List, [], ◌∷◌, map, filter, ◌&&◌, ◌||◌, ◌==◌,
  any, includes, is_some, is_text, or_else, truthy, if◌then◌else◌,
}
use nestjs_scaffold.Constants.{
  BuiltInPermission, built_in_permissions, tenant_admin_permissions, system_admin_role,
}
use nestjs_scaffold.Exec.{◌>>=◌, ◌>>◌, pure, for_each, when}
use nestjs_scaffold.Schema.{
  User, Tenant, TenantMembership, Role, Permission, RolePermission, UserRoleAssignment, user,
  tenant_membership, role, permission, role_permission, user_role_assignment,
}
use nestjs_scaffold.Env.{Env, Action, query, write, transaction, find_or_throw}
use nestjs_scaffold.Tenancy.Service.{bootstrap_default_tenant}
use nestjs_scaffold.Access.{invalidate_all}

-- An entry of `definitions`.
pub record RoleDefinition : Type 0 where
  pub code : String
  pub name : String

abbrev definition : String → String → RoleDefinition
definition code name = record { code = code; name = name }

abbrev pub definitions : List RoleDefinition
definitions =
    definition "system_admin" "System Administrator"
    ∷ definition "admin" "Tenant Administrator"
    ∷ definition "member" "Member"
    ∷ definition "viewer" "Viewer"
    ∷ []

abbrev pub permission_codes : List String
permission_codes = map (λ (b : BuiltInPermission). b.code) built_in_permissions

-- `{ tenantId: null, code }`
abbrev pub is_global : String → Role → Bool
is_global code r = not (is_some r.tenant_id) && r.code == code

module _ (env : Env) where
  unfoldable pub upsert_permission : BuiltInPermission → Action env Unit
  upsert_permission b = do
    write env (
        env.prisma.upsert permission (λ q. q.code == b.code)
          (λ id. record { id = id; code = b.code; name = b.name; enabled = true })
          (λ q. record q { name = b.name; enabled = true }))
    pure tt

  unfoldable pub delete_other_permissions : Action env Unit
  delete_other_permissions w = pure tt (record w {
    db = (env.prisma.delete_many permission (λ q. not (includes permission_codes q.code)) w.db).1;
  })

  -- The first part of `seedAccessModel`.
  unfoldable pub seed_permissions : Action env Unit
  seed_permissions = do for_each built_in_permissions upsert_permission; delete_other_permissions

  abbrev pub update_or_create : Option Role → RoleDefinition → Action env Role
  update_or_create (some existing) d = write env (
      env.prisma.update role (λ r. r.id == existing.id)
        (λ r. record r { name = d.name; built_in = true; enabled = true }))
  update_or_create none d = write env (
      env.prisma.create role λ id. record {
        id = id;
        tenant_id = none;
        code = d.code;
        name = d.name;
        description = "";
        built_in = true;
        enabled = true;
      })

  unfoldable pub seed_role : RoleDefinition → Action env Unit
  seed_role d = do
    existing ← query env (env.prisma.find_first role (is_global d.code) [])
    update_or_create existing d
    pure tt

  unfoldable pub grant_permissions : String → List String → Action env Unit
  grant_permissions code ids = do
    r ← find_or_throw env role (is_global code)
    write env (
        env.prisma.create_many role_permission
          (map
            (λ permission_id. record {
              role_id = r.id;
              permission_id = permission_id;
              enabled = true;
            })
            ids)
          true)
    pure tt

  unfoldable pub seed_access_model : Action env Unit
  seed_access_model = do
    seed_permissions
    for_each definitions seed_role
    permissions ← query env (env.prisma.find_many permission (λ _. true) [])
    grant_permissions "system_admin" (map (λ (q : Permission). q.id) permissions)
    grant_permissions "admin" (
        map (λ (q : Permission). q.id)
          (filter (λ q. includes tenant_admin_permissions q.code) permissions))

  -- the transaction of `onApplicationBootstrap`
  unfoldable pub seed_admin : String → String → Tenant → Role → Action env Unit
  seed_admin email password_hash t system_role = do
    u ← write env (
        env.prisma.upsert user (λ u. is_text u.email email)
          (λ id. record {
            id = id;
            email = some email;
            phone = none;
            country_code = none;
            name = "Default System Admin";
            password_hash = some password_hash;
            active = true;
          })
          (λ u. record u { active = true }))
    write env (
        env.prisma.upsert tenant_membership (λ m. m.user_id == u.id && m.tenant_id == t.id)
          (λ _. record { user_id = u.id; tenant_id = t.id; active = true })
          (λ m. record m { active = true }))
    write env (
        env.prisma.upsert user_role_assignment
          (λ a. a.user_id == u.id && (a.tenant_id == t.id && a.role_id == system_role.id))
          (λ _. record { user_id = u.id; tenant_id = t.id; role_id = system_role.id }) (λ a. a))
    pure tt

  abbrev lowered : Option String → Option String
  lowered none = none
  lowered (some s) = some (env.to_lower s)

  unfoldable pub on_application_bootstrap : Action env Unit
  on_application_bootstrap = do
    seed_access_model
    invalidate_all env
    let email = lowered (env.get_text "SEED_ADMIN_EMAIL")
    let password = env.get_text "SEED_ADMIN_PASSWORD"
    when (or_else (env.get_flag "SEED_ADMIN_ENABLED") false && (truthy email && truthy password))
        (do
          t ← bootstrap_default_tenant env
          system_role ← find_or_throw env role (is_global "system_admin")
          transaction env (
              seed_admin (or_else email "")
                (env.hash_password (or_else password "")
                  (or_else (env.get_number "BCRYPT_ROUNDS") 12))
                t system_role))
