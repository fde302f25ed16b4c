-- ===== src/Users/Isolation.antt =====
-- src/users/users.service.ts: a tenant's requests reach only the tenant's members.
use nestjs_scaffold.Base.{
  refl, ◌≤◌, String, Bool, true, none, [], List, ◌≡◌, subst, arith, ◌==◌, ◌&&◌, eq_iff,
  Option-cases, inl, inr,
}
use nestjs_scaffold.Exec.{ok, err, not_found}
use nestjs_scaffold.Schema.{User, user, tenant_membership}
use nestjs_scaffold.Prisma.Laws.{PrismaLaws, tally}
use nestjs_scaffold.Env.{Env, World}
use nestjs_scaffold.Access.Loading.{exists_row-tally}
use nestjs_scaffold.Tenancy.{require_tenant_id}
use nestjs_scaffold.Users.{
  UpdateUserDto, is_member, find_by_id_for_tenant, update, set_roles, remove,
}

module _ (env : Env) (prisma : PrismaLaws env.prisma) where
  no_row :
      (id tenant_id : String) (w : World env)
      → tally env.prisma tenant_membership
          (λ m. m.user_id == id && (m.tenant_id == tenant_id && m.active))
          w.db
        ≡ 0
      → env.prisma.find_first user (λ u. u.id == id && is_member env w.db tenant_id u) [] w.db
        ≡ none
  no_row id tenant_id w nobody =
      let test = λ (u : User). u.id == id && is_member env w.db tenant_id u in
      elim (Option-cases (env.prisma.find_first user test [] w.db)) [
        | inl missing ↦ missing
        | inr (u, found) ↦
            let (passes, _) = prisma.find_first-some user test [] w.db u found in
            let there : is_member env w.db tenant_id u ≡ true = ground arith in
            let counted = exists_row-tally env.prisma prisma tenant_membership _ w.db there in
            let same : u.id ≡ id = (eq_iff u.id id).0 (ground arith) in
            absurd (
              omega (
                arith,
                nobody,
                subst
                    (λ i.
                      1
                      ≤ tally env.prisma tenant_membership
                          (λ m. m.user_id == i && (m.tenant_id == tenant_id && m.active)) w.db)
                    same counted,
              ))
      ]

  unread :
      (id tenant_id : String) (w : World env)
      → require_tenant_id env w ≡ (ok tenant_id, w)
      → tally env.prisma tenant_membership
          (λ m. m.user_id == id && (m.tenant_id == tenant_id && m.active))
          w.db
        ≡ 0
      → find_by_id_for_tenant env id w ≡ (err (not_found "User not found"), w)
  unfolding find_by_id_for_tenant
  unread id tenant_id w tenant nobody = rw (tenant, no_row id tenant_id w nobody) refl

  -- The operations on a user by id, which are reading, updating, setting roles and removing, are
  -- refused for a user with no active membership of the request's tenant, and change nothing.
  pub outsider_untouched :
      (id tenant_id actor_id : String) (dto : UpdateUserDto) (role_ids : List String) (hard : Bool)
      (w : World env)
      → require_tenant_id env w ≡ (ok tenant_id, w)
      → tally env.prisma tenant_membership
          (λ m. m.user_id == id && (m.tenant_id == tenant_id && m.active))
          w.db
        ≡ 0
      → (find_by_id_for_tenant env id w ≡ (err (not_found "User not found"), w))
        × (update env id dto w ≡ (err (not_found "User not found"), w))
        × (set_roles env id role_ids actor_id w ≡ (err (not_found "User not found"), w))
        × (remove env id hard w ≡ (err (not_found "User not found"), w))
  unfolding update set_roles remove
  outsider_untouched id tenant_id actor_id dto role_ids hard w tenant nobody =
      let missing = unread id tenant_id w tenant nobody in
      (missing, rw (tenant, missing) refl, rw (tenant, missing) refl, rw (tenant, missing) refl)
