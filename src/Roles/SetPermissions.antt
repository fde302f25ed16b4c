-- ===== src/Roles/SetPermissions.antt =====
-- `setPermissions` of src/roles/roles.service.ts: the permissions listed are the complete set that
-- the role grants afterwards, and the actor may hand on each of them.
use nestjs_scaffold.Base.{
  leb, refl, arith, ◌≤◌, String, Bool, true, false, not, List, [], map, filter, ◌≡◌, sym, ap, subst,
  ◌∙◌, ◌⊎◌, inl, inr, ◌==◌, ◌&&◌, any, count, includes, count_of_any, any_of_count,
}
use nestjs_scaffold.Exec.{ok}
use nestjs_scaffold.Schema.{Permission, Role, role_permission, permission}
use nestjs_scaffold.Prisma.Laws.{PrismaLaws, tally}
use nestjs_scaffold.Env.{Env, World, UserAccess}
use nestjs_scaffold.Tenancy.{require_tenant_id}
use nestjs_scaffold.Access.{get_user_access}
use nestjs_scaffold.Roles.Checks.{is_platform, acts_as_admin, find_scoped}
use nestjs_scaffold.Roles.Service.{MatrixEntry, set_permissions}
use nestjs_scaffold.Roles.Frame.{db-assert_permission_target_configurable}
use nestjs_scaffold.Roles.Escalation.{HasSet, configurable-actor, set_permissions-HasSet}
use nestjs_scaffold.Roles.Bindings.{grants, IsGranted, upsert_all-Settles}

module _ (env : Env) (laws : PrismaLaws env.prisma) where
  -- A count over a query is a count over the table.
  tally-find_many :
      (q : Permission → Bool) (db : env.prisma.Db)
      → count q (env.prisma.find_many permission (λ p. p.enabled) [] db)
        ≡ tally env.prisma permission (λ p. p.enabled && q p) db
  tally-find_many q db = laws.find_many-count permission (λ p. p.enabled) q [] db

  checked_db :
      (id : String) (permission_ids : List String) (actor_id : String) (w w' : World env)
      (h : HasSet env id permission_ids actor_id w w')
      → h.checked.db ≡ w.db
  checked_db id permission_ids actor_id w w' h =
      sym (ap (λ x. x.1.db) h.configurable)
      ∙ db-assert_permission_target_configurable env h.role actor_id h.tenant_id w

  -- What `filter` and `map` leave of a query, counted over the table.
  tally-selected :
      (p : String → Bool) (permission_ids : List String) (db : env.prisma.Db)
      → any p (
          map
            (λ (q : Permission). q.code)
            (filter
              (λ (q : Permission). includes permission_ids q.id)
              (env.prisma.find_many permission (λ q. q.enabled) [] db)))
        ≡ false
      → tally env.prisma permission
          (λ q. q.enabled && (includes permission_ids q.id && p q.code))
          db
        ≡ 0
  tally-selected p permission_ids db h =
      sym (tally-find_many (λ q. includes permission_ids q.id && p q.code) db)
      ∙ count_of_any p _ _ (env.prisma.find_many permission (λ q. q.enabled) [] db) h

  granted_iff :
      (role_id i : String) (selected : Bool) (db : env.prisma.Db)
      → IsGranted env laws role_id i selected db
      → leb 1 (tally env.prisma role_permission (grants role_id i) db) ≡ selected
  granted_iff role_id i true db g = ground (arith, g.0 refl)
  granted_iff role_id i false db g = ground (arith, g.1 refl)

  -- When `setPermissions` returns, there is a role in the tenant's scope with the id, and an enabled
  -- permission is granted by the role afterwards exactly if it is listed.
  pub set_permissions_lem :
      (id : String) (permission_ids : List String) (actor_id : String) (w w' : World env)
      (m : List MatrixEntry) (i : String)
      → set_permissions env id permission_ids actor_id w ≡ (ok m, w')
      → 1 ≤ tally env.prisma permission (λ p. p.enabled && p.id == i) w.db
      → (r : Role) × (find_scoped env id w ≡ (ok r, w))
        × (leb 1 (tally env.prisma role_permission (grants r.id i) w'.db)
            ≡ includes permission_ids i)
  set_permissions_lem id permission_ids actor_id w w' m i e there =
      let h = (set_permissions-HasSet env id permission_ids actor_id w).holds m w' e in
      let all_enabled = env.prisma.find_many permission (λ q. q.enabled) [] h.checked.db in
      let (settled, _) =
        upsert_all-Settles env laws h.role.id permission_ids all_enabled h.checked h.written
          h.upserted in
      let found : 1 ≤ count (λ q. q.id == i) all_enabled =
        rw
          (
            tally-find_many (λ q. q.id == i) h.checked.db,
            checked_db id permission_ids actor_id w w' h,
          )
          there in
      let granted = (settled i).0 (any_of_count _ all_enabled found) in
      (
        h.role,
        h.role_found,
        granted_iff h.role.id i (includes permission_ids i) w'.db (
            subst (IsGranted env laws h.role.id i (includes permission_ids i)) (sym h.final)
              granted),
      )

  -- When `setPermissions` returns, the request is in a tenant, and the access on which it has
  -- decided is the actor's in that tenant; no enabled permission that is listed is a platform permission, and all
  -- are the actor's own unless the actor is a system administrator.
  pub set_permissions_no_escalation :
      (id : String) (permission_ids : List String) (actor_id : String) (w w' : World env)
      (m : List MatrixEntry)
      → set_permissions env id permission_ids actor_id w ≡ (ok m, w')
      → (tenant_id : String) × (actor : UserAccess) × (require_tenant_id env w ≡ (ok tenant_id, w))
        × ((get_user_access env actor_id tenant_id w).0 ≡ ok actor)
        × (tally env.prisma permission
              (λ p. p.enabled && (includes permission_ids p.id && is_platform p.code))
              w.db
            ≡ 0)
        × ((acts_as_admin actor ≡ true)
            ⊎ (tally env.prisma permission
                  (λ p.
                    p.enabled
                    && (includes permission_ids p.id && not (includes actor.permissions p.code)))
                  w.db
                ≡ 0))
  set_permissions_no_escalation id permission_ids actor_id w w' m e =
      let h = (set_permissions-HasSet env id permission_ids actor_id w).holds m w' e in
      let db = checked_db id permission_ids actor_id w w' h in
      let all_enabled = env.prisma.find_many permission (λ q. q.enabled) [] h.checked.db in
      let (read, _, _) =
        configurable-actor env h.role actor_id h.tenant_id w h.checked h.actor h.configurable in
      (
        h.tenant_id,
        h.actor,
        h.tenant,
        read,
        subst
            (λ d.
              tally env.prisma permission
                (λ q. q.enabled && (includes permission_ids q.id && is_platform q.code)) d
              ≡ 0)
            db (tally-selected is_platform permission_ids h.checked.db h.may_grant.0),
        elim h.may_grant.1 [
          | inl admin ↦ inl admin
          | inr own ↦ inr (
              subst
                (λ d.
                  tally env.prisma permission
                    (λ q.
                      q.enabled
                      && (includes permission_ids q.id
                          && not (includes h.actor.permissions q.code)))
                    d
                  ≡ 0)
                db
                (tally-selected (λ c. not (includes h.actor.permissions c)) permission_ids
                  h.checked.db own))
        ],
      )
