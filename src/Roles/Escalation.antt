-- ===== src/Roles/Escalation.antt =====
-- src/roles/roles.service.ts: nobody grants what they do not own. What a successful change of a
-- role's permissions has checked, and against whose access.
use nestjs_scaffold.Base.{
  truthy, String, true, false, not, List, [], map, ◌≡◌, sym, ◌∙◌, ap, arith, eqb, any, filter,
  includes, unique, length, ◌⊎◌, ◌↔◌,
}
use nestjs_scaffold.Exec.{
  ok, not_found, Returns, Returns-bind, Returns-read, throw_if, throw_if_state,
}
use nestjs_scaffold.Schema.{Role, Permission, permission}
use nestjs_scaffold.Env.{Env, World, UserAccess}
use nestjs_scaffold.Tenancy.{require_tenant_id}
use nestjs_scaffold.Access.{get_user_access}
use nestjs_scaffold.Roles.Checks.{
  is_system_admin_role, is_platform, acts_as_admin, assert_can_enable_permissions,
  assert_permission_target_configurable, find_scoped, invalidate_role_access,
}
use nestjs_scaffold.Roles.Service.{set_permissions, upsert_all}
use nestjs_scaffold.Roles.Frame.{
  db-invalidate_role_access, db-get_permission_matrix, db-find_scoped,
}

-- Every listed permission is one that the actor may hand on: no platform permission, and one of the
-- actor's own unless the actor is a system administrator.
abbrev pub MayGrant : UserAccess → List String → Type 0
MayGrant actor codes =
    (any is_platform codes ≡ false)
    × ((acts_as_admin actor ≡ true)
        ⊎ (any (λ code. not (includes actor.permissions code)) codes ≡ false))

module _ (env : Env) where
  -- The check passes exactly when the permissions may be granted, and it writes nothing.
  pub assert_can_enable_permissions_iff :
      (codes : List String) (actor : UserAccess) (w : World env)
      → (assert_can_enable_permissions env codes actor w ≡ (ok tt, w)) ↔ MayGrant actor codes
  unfolding assert_can_enable_permissions
  assert_can_enable_permissions_iff codes actor w = ground arith

  assert_can_enable-MayGrant :
      (codes : List String) (actor : UserAccess) (w : World env)
      → (assert_can_enable_permissions env codes actor w).0 ≡ ok tt
      → MayGrant actor codes
  unfolding assert_can_enable_permissions
  assert_can_enable-MayGrant codes actor w h = ground arith

  require_tenant_id_state : (w : World env) → (require_tenant_id env w).1 ≡ w
  unfolding require_tenant_id
  require_tenant_id_state w = ground arith

  assert_can_enable_state :
      (codes : List String) (actor : UserAccess) (w : World env)
      → (assert_can_enable_permissions env codes actor w).1 ≡ w
  unfolding assert_can_enable_permissions
  assert_can_enable_state codes actor w = ground arith

  -- The actor's access is the one that is read for the tenant.
  pub configurable-actor :
      (r : Role) (actor_id tenant_id : String) (w w' : World env) (actor : UserAccess)
      → assert_permission_target_configurable env r actor_id tenant_id w ≡ (ok actor, w')
      → ((get_user_access env actor_id tenant_id w).0 ≡ ok actor)
        × (is_system_admin_role r ≡ false)
        × ((truthy r.tenant_id ≡ true) ⊎ (acts_as_admin actor ≡ true))
  unfolding assert_permission_target_configurable
  configurable-actor r actor_id tenant_id w w' actor e = ground arith

  -- What a call of `setPermissions` that returns has gone through.
  pub record HasSet (id : String) (permission_ids : List String) (actor_id : String)
      (w w' : World env) : Type 0 where
    pub tenant_id : String
    pub role : Role
    pub actor : UserAccess
    pub checked : World env
    pub written : World env
    pub tenant : require_tenant_id env w ≡ (ok tenant_id, w)
    pub role_found : find_scoped env id w ≡ (ok role, w)
    pub configurable :
        assert_permission_target_configurable env role actor_id tenant_id w ≡ (ok actor, checked)
    pub may_grant : MayGrant actor (
        map
          (λ (q : Permission). q.code)
          (filter
            (λ (q : Permission). includes permission_ids q.id)
            (env.prisma.find_many permission (λ q. q.enabled) [] checked.db)))
    pub upserted :
        upsert_all env role.id permission_ids
          (env.prisma.find_many permission (λ q. q.enabled) [] checked.db)
          checked
        ≡ (ok tt, written)
    pub final : w'.db ≡ written.db

  pub set_permissions-HasSet :
      (id : String) (permission_ids : List String) (actor_id : String) (w : World env)
      → Returns
          (λ _ w'. HasSet id permission_ids actor_id w w')
          (set_permissions env id permission_ids actor_id w)
  unfolding set_permissions
  set_permissions-HasSet id permission_ids actor_id w =
      Returns-read (require_tenant_id env) _ w (require_tenant_id_state w) λ t in_tenant.
        Returns-read (find_scoped env id) _ w (db-find_scoped env id w) λ r found.
          Returns-bind (assert_permission_target_configurable env r actor_id t) _ w
            λ actor w₁ target.
              let all_enabled = env.prisma.find_many permission (λ q. q.enabled) [] w₁.db in
              let selected =
                filter (λ (q : Permission). includes permission_ids q.id) all_enabled in
              let codes = map (λ (q : Permission). q.code) selected in
              Returns-read
                (throw_if (not (eqb (length selected) (length (unique permission_ids))))
                  (not_found "Permission not found"))
                _ w₁ (throw_if_state _ _ w₁)
                λ _ _.
                  Returns-read (assert_can_enable_permissions env codes actor) _ w₁
                    (assert_can_enable_state codes actor w₁)
                    λ _ may.
                      Returns-bind (upsert_all env r.id permission_ids all_enabled) _ w₁
                        λ _ w₂ wrote.
                          Returns-bind (invalidate_role_access env r) _ w₂ λ _ w₃ cleared. record {
                            holds = λ m w' e. record {
                              tenant_id = t;
                              role = r;
                              actor = actor;
                              checked = w₁;
                              written = w₂;
                              tenant = in_tenant;
                              role_found = found;
                              configurable = target;
                              may_grant =
                                  assert_can_enable-MayGrant codes actor w₁ (ap (λ x. x.0) may);
                              upserted = wrote;
                              final =
                                  sym (ap (λ x. x.1.db) e)
                                  ∙ db-get_permission_matrix env id actor_id w₃
                                  ∙ sym (ap (λ x. x.1.db) cleared)
                                  ∙ db-invalidate_role_access env r w₂;
                            };
                          }
