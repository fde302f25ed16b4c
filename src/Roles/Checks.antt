-- ===== src/Roles/Checks.antt =====
-- The private checks of src/roles/roles.service.ts, which throw or let the caller go on.
use nestjs_scaffold.Base.{
  String, Bool, true, false, List, [], ◌&&◌, ◌||◌, ◌==◌, not, map, any, unique, length, includes,
  is_some, truthy, or_else, eqb, if◌then◌else◌,
}
use nestjs_scaffold.Constants.{system_admin_role, built_in_role_codes, platform_permission_codes}
use nestjs_scaffold.Exec.{◌>>=◌, ◌>>◌, pure, throw_if, or_throw, conflict, forbidden, not_found}
use nestjs_scaffold.Schema.{Role, Permission, role, permission}
use nestjs_scaffold.Env.{Env, Action, UserAccess, query}
use nestjs_scaffold.Tenancy.{require_tenant_id}
use nestjs_scaffold.Access.{
  in_scope, role_codes, get_user_access, invalidate_tenant, invalidate_all,
}

abbrev pub is_system_admin_role : Role → Bool
is_system_admin_role r = r.built_in && not (is_some r.tenant_id) && r.code == system_admin_role

abbrev pub is_platform : String → Bool
is_platform code = includes platform_permission_codes code

-- `actor.roles.includes(SYSTEM_ADMIN_ROLE)`
abbrev pub acts_as_admin : UserAccess → Bool
acts_as_admin actor = includes actor.roles system_admin_role

unfoldable pub is_permission_configurable : Role → String → Bool → UserAccess → Bool → Bool
is_permission_configurable r code granted actor actor_is_admin =
    if is_system_admin_role r
    then false
    else if not (truthy r.tenant_id) && not actor_is_admin
    then false
    else if granted
    then true
    else if is_platform code
    then false
    else actor_is_admin || includes actor.permissions code

module _ (env : Env) where
  unfoldable pub assert_code_is_custom : String → Action env Unit
  assert_code_is_custom code =
      throw_if (includes built_in_role_codes code) (conflict "Built-in role codes are reserved")

  unfoldable pub assert_definition_mutable : Role → Action env Unit
  assert_definition_mutable r =
      throw_if (r.built_in || not (truthy r.tenant_id))
        (forbidden "Built-in roles cannot be modified or deleted")

  unfoldable pub find_scoped : String → Action env Role
  unfolding require_tenant_id
  find_scoped id = do
    tenant_id ← require_tenant_id env
    found ← query env λ db.
        env.prisma.find_first role (λ r. r.id == id && in_scope env.prisma db tenant_id r) [] db
    or_throw found (not_found "Role not found")

  -- on the codes of the permissions
  unfoldable pub assert_can_enable_permissions : List String → UserAccess → Action env Unit
  assert_can_enable_permissions codes actor = do
    throw_if (any is_platform codes)
        (forbidden "Platform permissions cannot be delegated to other roles")
    (if acts_as_admin actor
        then pure tt
        else throw_if (any (λ code. not (includes actor.permissions code)) codes)
            (forbidden "Cannot grant permissions you do not own"))

  unfoldable pub assert_permission_target_configurable :
      Role → String → String → Action env UserAccess
  assert_permission_target_configurable r actor_id tenant_id = do
    throw_if (is_system_admin_role r) (forbidden "system_admin permissions cannot be changed")
    actor ← get_user_access env actor_id tenant_id
    throw_if (not (truthy r.tenant_id) && not (acts_as_admin actor))
        (forbidden "Only system_admin can configure global built-in roles")
    pure actor

  unfoldable pub assert_permission_ids_assignable : String → String → List String → Action env Unit
  unfolding assert_can_enable_permissions
  assert_permission_ids_assignable actor_id tenant_id permission_ids = do
    permissions ←
        query env
          (env.prisma.find_many permission (λ q. includes permission_ids q.id && q.enabled) [])
    throw_if (not (eqb (length permissions) (length (unique permission_ids))))
        (not_found "Permission not found")
    actor ← get_user_access env actor_id tenant_id
    assert_can_enable_permissions (map (λ (q : Permission). q.code) permissions) actor

  -- A role with the codes of its enabled permissions.
  abbrev pub coded : env.prisma.Db → Role → Role × List String
  coded db r = (r, role_codes env.prisma db (λ b. b.enabled) r)

  -- `assertRolesAssignable` on what it has read of the roles
  unfoldable pub assert_grantable : List (Role × List String) → UserAccess → Action env Unit
  assert_grantable roles actor =
      if acts_as_admin actor
      then pure tt
      else throw_if
          (any
            (λ (r, codes).
              r.code == system_admin_role
              || any (λ code. not (includes actor.permissions code)) codes)
            roles)
          (forbidden "Cannot grant a role containing permissions you do not own")

  unfoldable pub assert_roles_assignable : String → String → List String → Action env Unit
  unfolding assert_grantable
  assert_roles_assignable actor_id tenant_id role_ids = do
    roles ← query env λ db. map (coded db) (
        env.prisma.find_many role
          (λ r. includes role_ids r.id && r.enabled && in_scope env.prisma db tenant_id r) [] db)
    throw_if (not (eqb (length roles) (length (unique role_ids)))) (not_found "Role not found")
    throw_if (any (λ (r, codes). not (r.code == system_admin_role) && any is_platform codes) roles)
        (forbidden "Platform permissions cannot be granted through other roles")
    actor ← get_user_access env actor_id tenant_id
    assert_grantable roles actor

  unfoldable pub invalidate_role_access : Role → Action env Unit
  invalidate_role_access r =
      if truthy r.tenant_id
      then invalidate_tenant env (or_else r.tenant_id "")
      else invalidate_all env
