-- ===== src/Roles/Service.antt =====
-- The operations of src/roles/roles.service.ts.
use nestjs_scaffold.Base.{
  String, Bool, true, false, Option, none, some, List, [], ◌∷◌, ◌&&◌, ◌||◌, ◌==◌, not, map, filter,
  unique, length, includes, truthy, or_else, eqb, if◌then◌else◌,
}
use nestjs_scaffold.Exec.{
  ◌>>=◌, ◌>>◌, pure, throw, throw_if, or_throw, when, catch, for_each, Error, conflict, not_found,
  known_request,
}
use nestjs_scaffold.Schema.{Role, Permission, RolePermission, role, permission, role_permission}
use nestjs_scaffold.Prisma.{asc, desc}
use mathlib.Core.List.{get_last?}
use nestjs_scaffold.Env.{Env, Action, UserAccess, query, write, transaction, find_or_throw}
use nestjs_scaffold.Tenancy.{require_tenant_id}
use nestjs_scaffold.Access.{in_scope, get_user_access, invalidate_tenant}
use nestjs_scaffold.Roles.Checks.{
  acts_as_admin, is_system_admin_role, is_permission_configurable, assert_code_is_custom,
  assert_definition_mutable, find_scoped, assert_can_enable_permissions,
  assert_permission_target_configurable, assert_permission_ids_assignable, coded,
  invalidate_role_access,
}

pub record CreateRoleDto : Type 0 where
  pub code : String
  pub name : String
  pub description : Option String
  pub permission_ids : Option (List String)

pub record UpdateRoleDto : Type 0 where
  pub code : Option String
  pub name : Option String
  pub description : Option String
  pub enabled : Option Bool

-- One line of the permission matrix.
pub record MatrixEntry : Type 0 where
  pub permission : Permission
  pub granted : Bool
  pub configurable : Bool

-- `data: dto`, where an absent field is left alone
abbrev pub updated : UpdateRoleDto → Role → Role
updated dto r = record r {
  code = or_else dto.code r.code;
  name = or_else dto.name r.name;
  description = or_else dto.description r.description;
  enabled = or_else dto.enabled r.enabled;
}

-- `roleId_permissionId`
abbrev pub is_binding : String → String → RolePermission → Bool
is_binding role_id permission_id b = b.role_id == role_id && b.permission_id == permission_id

abbrev pub binding : String → String → Bool → RolePermission
binding role_id permission_id enabled = record {
  role_id = role_id;
  permission_id = permission_id;
  enabled = enabled;
}

-- A binding that is found and enabled: `grantedById.get(id) === true`.
abbrev pub is_enabled : Option RolePermission → Bool
is_enabled none = false
is_enabled (some b) = b.enabled

module _ (env : Env) where
  unfoldable pub find_all : Action env (List (Role × List String))
  find_all = do
    tenant_id ← require_tenant_id env
    query env λ db. map (coded env db) (
        env.prisma.find_many role (λ r. r.enabled && in_scope env.prisma db tenant_id r)
          (desc "builtIn" ∷ asc "code" ∷ []) db)

  unfoldable pub find_one : String → Action env (Role × List String)
  find_one id = do
    r ← find_scoped env id
    found ← find_or_throw env role (λ s. s.id == r.id)
    query env λ db. coded env db found

  -- The line of a permission, for the role's bindings and the actor.
  abbrev pub matrix_entry : Role → UserAccess → List RolePermission → Permission → MatrixEntry
  matrix_entry r actor bindings q =
      let granted =
        is_system_admin_role r
        || is_enabled
            (get_last? (filter (λ (b : RolePermission). b.permission_id == q.id) bindings)) in
      record {
        permission = q;
        granted = granted;
        configurable = is_permission_configurable r q.code granted actor (acts_as_admin actor);
      }

  unfoldable pub get_permission_matrix : String → String → Action env (List MatrixEntry)
  get_permission_matrix id actor_id = do
    tenant_id ← require_tenant_id env
    r ← find_scoped env id
    permissions ← query env (env.prisma.find_many permission (λ q. q.enabled) (asc "code" ∷ []))
    bindings ← query env (env.prisma.find_many role_permission (λ b. b.role_id == r.id) [])
    actor ← get_user_access env actor_id tenant_id
    pure (map (matrix_entry r actor bindings) permissions)

  -- `role.create` with its nested bindings
  abbrev pub create_role : String → CreateRoleDto → Action env Role
  create_role tenant_id dto = transaction env do
    r ← write env (
        env.prisma.create role λ id. record {
          id = id;
          tenant_id = some tenant_id;
          code = dto.code;
          name = dto.name;
          description = or_else dto.description "";
          built_in = false;
          enabled = true;
        })
    write env (
        env.prisma.create_many role_permission
          (map (λ i. binding r.id i true) (or_else dto.permission_ids [])) false)
    pure r

  -- the handler of `create`
  abbrev pub on_create_error : Error → Action env (Role × List String)
  on_create_error (known_request code) =
      if code == "P2002"
      then throw (conflict "Role code already exists in this tenant")
      else throw (known_request code)
  on_create_error e = throw e

  unfoldable pub create : CreateRoleDto → String → Action env (Role × List String)
  create dto actor_id = do
    tenant_id ← require_tenant_id env
    assert_code_is_custom env dto.code
    assert_permission_ids_assignable env actor_id tenant_id (or_else dto.permission_ids [])
    catch
        (do
          r ← create_role tenant_id dto
          result ← query env λ db. coded env db r
          invalidate_tenant env tenant_id
          pure result)
        on_create_error

  unfoldable pub update : String → UpdateRoleDto → Action env (Role × List String)
  update id dto = do
    r ← find_scoped env id
    assert_definition_mutable env r
    when (truthy dto.code) (assert_code_is_custom env (or_else dto.code ""))
    r' ← write env (env.prisma.update role (λ s. s.id == id) (updated dto))
    result ← query env λ db. coded env db r'
    invalidate_tenant env (or_else r.tenant_id "")
    pure result

  -- `rolePermission.upsert`
  unfoldable pub upsert_binding : String → String → Bool → Action env Unit
  upsert_binding role_id permission_id enabled = do
    write env (
        env.prisma.upsert role_permission (is_binding role_id permission_id)
          (λ _. binding role_id permission_id enabled) (λ b. record b { enabled = enabled }))
    pure tt

  abbrev pub upserts : String → List String → List Permission → Action env Unit
  upserts role_id selected permissions =
      for_each permissions λ q. upsert_binding role_id q.id (includes selected q.id)

  -- The transaction of `setPermissions`.
  unfoldable pub upsert_all : String → List String → List Permission → Action env Unit
  upsert_all role_id selected permissions = transaction env (upserts role_id selected permissions)

  unfoldable pub set_permissions : String → List String → String → Action env (List MatrixEntry)
  set_permissions id permission_ids actor_id = do
    tenant_id ← require_tenant_id env
    r ← find_scoped env id
    actor ← assert_permission_target_configurable env r actor_id tenant_id
    permissions ← query env (env.prisma.find_many permission (λ q. q.enabled) [])
    let selected = filter (λ (q : Permission). includes permission_ids q.id) permissions
    throw_if (not (eqb (length selected) (length (unique permission_ids))))
        (not_found "Permission not found")
    assert_can_enable_permissions env (map (λ (q : Permission). q.code) selected) actor
    upsert_all r.id permission_ids permissions
    invalidate_role_access env r
    get_permission_matrix id actor_id

  unfoldable pub set_permission : String → String → Bool → String → Action env (List MatrixEntry)
  set_permission id permission_id enabled actor_id = do
    tenant_id ← require_tenant_id env
    r ← find_scoped env id
    actor ← assert_permission_target_configurable env r actor_id tenant_id
    found ←
        query env (env.prisma.find_first permission (λ q. q.id == permission_id && q.enabled) [])
    q ← or_throw found (not_found "Permission not found")
    when enabled (assert_can_enable_permissions env (q.code ∷ []) actor)
    upsert_binding r.id permission_id enabled
    invalidate_role_access env r
    get_permission_matrix id actor_id

  unfoldable pub remove : String → Action env Unit
  remove id = do
    r ← find_scoped env id
    assert_definition_mutable env r
    write env (env.prisma.delete role (λ s. s.id == id))
    invalidate_tenant env (or_else r.tenant_id "")
