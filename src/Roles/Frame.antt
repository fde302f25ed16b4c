-- ===== src/Roles/Frame.antt =====
-- Which calls of src/roles/roles.service.ts and src/access/access.service.ts leave the database as
-- it is: the reads, which may fill the cache, and the invalidations.
use nestjs_scaffold.Base.{String, ◌≡◌, arith, or_else}
use nestjs_scaffold.Schema.{Role}
use nestjs_scaffold.Env.{Env, World}
use nestjs_scaffold.Tenancy.{current_tenant}
use nestjs_scaffold.RedisService.{get_json, set_json, delete_by_pattern}
use nestjs_scaffold.Access.{load_access, get_user_access, invalidate_tenant, invalidate_all}
use nestjs_scaffold.Roles.Checks.{
  find_scoped, assert_permission_target_configurable, invalidate_role_access,
}
use nestjs_scaffold.Roles.Service.{get_permission_matrix}

module _ (env : Env) where
  pub db-get_user_access :
      (user_id tenant_id : String) (w : World env)
      → (get_user_access env user_id tenant_id w).1.db ≡ w.db
  unfolding get_user_access get_json load_access set_json
  db-get_user_access user_id tenant_id w = ground arith

  pub db-find_scoped : (id : String) (w : World env) → (find_scoped env id w).1 ≡ w
  unfolding find_scoped
  db-find_scoped id w = ground arith

  pub db-assert_permission_target_configurable :
      (r : Role) (actor_id tenant_id : String) (w : World env)
      → (assert_permission_target_configurable env r actor_id tenant_id w).1.db ≡ w.db
  unfolding assert_permission_target_configurable
  db-assert_permission_target_configurable r actor_id tenant_id w =
      ground (arith, db-get_user_access actor_id tenant_id w)

  pub db-invalidate_role_access :
      (r : Role) (w : World env) → (invalidate_role_access env r w).1.db ≡ w.db
  unfolding invalidate_role_access invalidate_tenant invalidate_all delete_by_pattern
  db-invalidate_role_access r w = ground arith

  pub db-get_permission_matrix :
      (id actor_id : String) (w : World env) → (get_permission_matrix env id actor_id w).1.db ≡ w.db
  unfolding get_permission_matrix find_scoped
  db-get_permission_matrix id actor_id w =
      ground (arith, db-get_user_access actor_id (or_else (current_tenant env w) "") w)
