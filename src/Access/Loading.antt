-- ===== src/Access/Loading.antt =====
-- What a read of the database gives in src/access/access.service.ts: who gets an access at all,
-- and which roles and permissions it holds.
use nestjs_scaffold.Base.{
  if◌then◌else◌, Bool-cases, ◌∷◌, ◌≤◌, String, Bool, true, some, List, [], map, ◌≡◌, ◌∙◌, subst,
  arith, ◌==◌, ◌&&◌, eq_iff, any, flat_map, unique, includes, includes-sort, includes-unique,
  includes-map, occurrences, occurrences-sort, occurrences-unique, Option-cases, inl, inr,
}
use nestjs_scaffold.Exec.{ok, err, unauthorized}
use nestjs_scaffold.Schema.{
  Permission, permission, Role, TenantMembership, Model, Row, tenant_membership, user, tenant,
}
use nestjs_scaffold.Prisma.{Prisma, asc}
use nestjs_scaffold.Prisma.Laws.{PrismaLaws, tally}
use nestjs_scaffold.Env.{Env, World, UserAccess}
use nestjs_scaffold.RedisService.{set_json}
use nestjs_scaffold.Access.{
  exists_row, is_active_membership, is_system_admin, granted, role_codes, assigned_roles, access_of,
  load_access,
}

module _ (p : Prisma) (laws : PrismaLaws p) where
  pub exists_row-tally :
      (m : Model) (w : Row m → Bool) (db : p.Db) → exists_row p db m w ≡ true → 1 ≤ tally p m w db
  exists_row-tally m w db h = elim (Option-cases (p.find_first m w [] db)) [
    | inl missing ↦ cc
    | inr (r, found) ↦
        let (passes, counted) = laws.find_first-some m w [] db r found in counted w passes
  ]

-- The roles are the codes of the roles given, each once. The permissions are all enabled ones for
-- a holder of the built-in system role, and else those that the roles grant.
pub access_of_lem :
    (p : Prisma) (db : p.Db) (roles : List Role) (c : String)
    → (includes (access_of p db roles).roles c ≡ any (λ r. r.code == c) roles)
      × (occurrences c (access_of p db roles).roles ≤ 1)
      × (includes (access_of p db roles).permissions c ≡ (
          if any (is_system_admin p db) roles
          then any (λ q. q.code == c) (p.find_many permission (λ q. q.enabled) (asc "code" ∷ []) db)
          else includes (flat_map (role_codes p db (granted p db)) roles) c))
unfolding access_of
access_of_lem p db roles c = (
  includes-sort _ c ∙ includes-unique _ c ∙ includes-map _ roles c,
  ground (
    arith,
    occurrences-sort (unique (map (λ (r : Role). r.code) roles)) c,
    occurrences-unique (map (λ (r : Role). r.code) roles) c,
  ),
  elim (Bool-cases (any (is_system_admin p db) roles)) [
    | inl admin ↦ rw admin (includes-map (λ (q : Permission). q.code) _ c)
    | inr other ↦
        let codes = flat_map (role_codes p db (granted p db)) roles in
        rw other (includes-sort (unique codes) c ∙ includes-unique codes c)
  ],
)

active_parts :
    (p : Prisma) (db : p.Db) (user_id tenant_id : String) (m : TenantMembership)
    → is_active_membership p db user_id tenant_id m ≡ true
    → (m.user_id ≡ user_id)
      × (m.tenant_id ≡ tenant_id)
      × (m.active ≡ true)
      × (exists_row p db user (λ u. u.id == user_id && u.active) ≡ true)
      × (exists_row p db tenant (λ t. t.id == tenant_id && t.active) ≡ true)
active_parts p db user_id tenant_id m h =
    let u : m.user_id ≡ user_id = (eq_iff _ _).0 (ground arith) in
    let t : m.tenant_id ≡ tenant_id = (eq_iff _ _).0 (ground arith) in
    (
      u,
      t,
      ground arith,
      subst (λ i. exists_row p db user (λ x. x.id == i && x.active) ≡ true) u (ground arith),
      subst (λ i. exists_row p db tenant (λ x. x.id == i && x.active) ≡ true) t (ground arith),
    )

module _ (env : Env) (prisma : PrismaLaws env.prisma) where
  load_access-result :
      (user_id tenant_id : String) (w w' : World env) (a : UserAccess) (m : TenantMembership)
      → env.prisma.find_first tenant_membership
          (is_active_membership env.prisma w.db user_id tenant_id)
          []
          w.db
        ≡ some m
      → load_access env user_id tenant_id w ≡ (ok a, w')
      → a ≡ access_of env.prisma w.db (assigned_roles env.prisma w.db user_id tenant_id)
  unfolding load_access set_json
  load_access-result user_id tenant_id w w' a m found e = ground arith

  -- Without an active membership the call is refused, and nothing is cached.
  pub load_access_refused :
      (user_id tenant_id : String) (w : World env)
      → tally env.prisma tenant_membership
          (λ m. m.user_id == user_id && m.tenant_id == tenant_id && m.active)
          w.db
        ≡ 0
      → load_access env user_id tenant_id w
        ≡ (err (unauthorized "User is not an active member of tenant"), w)
  unfolding load_access
  load_access_refused user_id tenant_id w nobody =
      let test = is_active_membership env.prisma w.db user_id tenant_id in
      elim (Option-cases (env.prisma.find_first tenant_membership test [] w.db)) [
        | inl missing ↦ rw missing
        | inr (m, found) ↦
            let (passes, counted) = prisma.find_first-some tenant_membership test [] w.db m found in
            absurd (
              omega (
                arith,
                nobody,
                counted (λ m. m.user_id == user_id && m.tenant_id == tenant_id && m.active)
                    (ground arith),
              ))
      ]

  -- What is read is computed of the roles assigned.
  pub load_access_computed :
      (user_id tenant_id : String) (w w' : World env) (a : UserAccess)
      → load_access env user_id tenant_id w ≡ (ok a, w')
      → a ≡ access_of env.prisma w.db (assigned_roles env.prisma w.db user_id tenant_id)
  unfolding load_access
  load_access_computed user_id tenant_id w w' a e =
      let test = is_active_membership env.prisma w.db user_id tenant_id in
      elim (Option-cases (env.prisma.find_first tenant_membership test [] w.db)) [
        | inl missing ↦ cc
        | inr (m, found) ↦ load_access-result user_id tenant_id w w' a m found e
      ]

  -- An access that is read from the database is that of an active member, who is an active user, of
  -- an active tenant.
  pub load_access-IsMember :
      (user_id tenant_id : String) (w w' : World env) (a : UserAccess)
      → load_access env user_id tenant_id w ≡ (ok a, w')
      → (1
          ≤ tally env.prisma tenant_membership
              (λ m. m.user_id == user_id && m.tenant_id == tenant_id && m.active)
              w.db)
        × (1 ≤ tally env.prisma user (λ u. u.id == user_id && u.active) w.db)
        × (1 ≤ tally env.prisma tenant (λ t. t.id == tenant_id && t.active) w.db)
  unfolding load_access
  load_access-IsMember user_id tenant_id w w' a e =
      let test = is_active_membership env.prisma w.db user_id tenant_id in
      elim (Option-cases (env.prisma.find_first tenant_membership test [] w.db)) [
        | inl missing ↦ cc
        | inr (m, found) ↦
            let (passes, counted) = prisma.find_first-some tenant_membership test [] w.db m found in
            let (u, t, on, of_user, of_tenant) =
              active_parts env.prisma w.db user_id tenant_id m passes in
            (
              counted _ (ground arith),
              exists_row-tally env.prisma prisma user _ w.db of_user,
              exists_row-tally env.prisma prisma tenant _ w.db of_tenant,
            )
      ]
