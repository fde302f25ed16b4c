-- ===== src/Guards.antt =====
-- The guards of src/common/guards that decide by the roles and permissions of the user and by the
-- tenant. What the decorators of a route require is their first argument.
pub mod Decisions
use nestjs_scaffold.Base.{
  String, Bool, true, false, not, Option, none, some, List, [], ◌∷◌, ◌&&◌, ◌==◌, any, includes,
  truthy, or_else, if◌then◌else◌,
}
use nestjs_scaffold.Constants.{system_admin_role}
use nestjs_scaffold.Exec.{◌>>=◌, ◌>>◌, pure, throw, throw_if, or_throw, forbidden}
use nestjs_scaffold.Env.{Env, World, Action}
use nestjs_scaffold.Tenancy.{current_tenant, set_tenant_id}
use nestjs_scaffold.Access.{get_user_access}

-- The part of an authenticated user that the guards read.
pub record RequestUser : Type 0 where
  pub sub : String
  pub tenant_id : String

module _ (env : Env) where
  -- `RolesGuard.canActivate`
  unfoldable pub roles_guard : List String → Option RequestUser → Action env Bool
  roles_guard [] user = pure true
  roles_guard (r ∷ required) user = do
    u ← or_throw user (forbidden "Authentication is required")
    access ← get_user_access env u.sub u.tenant_id
    if includes access.roles system_admin_role then pure true else (do
      throw_if (not (any (includes access.roles) (r ∷ required))) (forbidden "Insufficient role")
      pure true)

  -- `PermissionsGuard.canActivate`
  unfoldable pub permissions_guard : List String → Option RequestUser → Action env Bool
  permissions_guard [] user = pure true
  permissions_guard (p ∷ required) user = do
    u ← or_throw user (forbidden "Authentication is required")
    access ← get_user_access env u.sub u.tenant_id
    if includes access.roles system_admin_role then pure true else (do
      throw_if (not (any (includes access.permissions) (p ∷ required)))
          (forbidden "Insufficient permission")
      pure true)

  -- `request.user?.tenantId`
  abbrev pub token_tenant : Option RequestUser → Option String
  token_tenant none = none
  token_tenant (some u) = some u.tenant_id

  -- `TenantGuard.canActivate`, where the route requires a tenant or not
  unfoldable pub tenant_guard : Bool → Option RequestUser → Action env Bool
  tenant_guard required user w =
      let header = current_tenant env w in
      let token = token_tenant user in
      (if not required
          then pure true
          else if truthy token
          then (do
            throw_if (truthy header && not (or_else header "" == or_else token ""))
                (forbidden "Token tenant does not match request tenant")
            set_tenant_id env (or_else token "")
            pure true)
          else (do throw_if (not (truthy header)) (forbidden "Tenant is required"); pure true))
        w
