-- ===== src/Roles/Matrix.antt =====
-- The permission matrix of src/roles/roles.service.ts tells the truth: what it shows as
-- configurable is what the checks of a change let through.
use nestjs_scaffold.Base.{String, true, false, [], ◌∷◌, ◌≡◌, ◌↔◌, arith}
use nestjs_scaffold.Exec.{ok}
use nestjs_scaffold.Schema.{Role}
use nestjs_scaffold.Env.{Env, World, UserAccess}
use nestjs_scaffold.Access.{get_user_access}
use nestjs_scaffold.Roles.Checks.{
  acts_as_admin, is_permission_configurable, assert_can_enable_permissions,
  assert_permission_target_configurable,
}

module _ (env : Env) where
  -- For a permission that the role does not grant, the matrix shows it as configurable exactly when
  -- the checks of `setPermission` let the actor enable it.
  pub configurable_iff :
      (r : Role) (code actor_id tenant_id : String) (actor : UserAccess) (w : World env)
      → (get_user_access env actor_id tenant_id w).0 ≡ ok actor
      → (is_permission_configurable r code false actor (acts_as_admin actor) ≡ true) ↔ (
          ((assert_permission_target_configurable env r actor_id tenant_id w).0 ≡ ok actor)
          × ((assert_can_enable_permissions env (code ∷ []) actor w).0 ≡ ok tt))
  unfolding is_permission_configurable assert_permission_target_configurable
      assert_can_enable_permissions
  configurable_iff r code actor_id tenant_id actor w read = ground arith

  -- A granted permission is configurable exactly when the check of its role passes, so that it can
  -- be switched off.
  pub configurable_granted_iff :
      (r : Role) (code actor_id tenant_id : String) (actor : UserAccess) (w : World env)
      → (get_user_access env actor_id tenant_id w).0 ≡ ok actor
      → (is_permission_configurable r code true actor (acts_as_admin actor) ≡ true)
        ↔ ((assert_permission_target_configurable env r actor_id tenant_id w).0 ≡ ok actor)
  unfolding is_permission_configurable assert_permission_target_configurable
  configurable_granted_iff r code actor_id tenant_id actor w read = ground arith
