-- ===== src/Users.antt =====
-- src/users/users.service.ts: the members of a tenant.
pub mod Isolation
use nestjs_scaffold.Base.{
  ℕ, ◌/◌, String, Bool, true, false, not, Option, none, some, List, [], ◌∷◌, ◌&&◌, ◌==◌, ◌<>◌, map,
  filter, flat_map, length, eqb, is_some, is_text, or_else, coalesce, truthy, if◌then◌else◌,
}
use nestjs_scaffold.Constants.{last_logout_prefix}
use nestjs_scaffold.Duration.{parse_ttl_seconds}
use nestjs_scaffold.Exec.{
  Error, conflict, not_found, known_request, ◌>>=◌, ◌>>◌, pure, throw, throw_if, or_throw, when,
  catch,
}
use nestjs_scaffold.Schema.{
  User, TenantMembership, Role, UserRoleAssignment, user, tenant_membership, role,
  user_role_assignment, outbox_event,
}
use nestjs_scaffold.Prisma.{desc}
use nestjs_scaffold.Env.{Env, World, Action, query, write, transaction, find_or_throw}
use nestjs_scaffold.RedisService.{for_seconds, set}
use nestjs_scaffold.Tenancy.{require_tenant_id}
use nestjs_scaffold.Tenancy.Service.{invalid_expiry}
use nestjs_scaffold.Access.{to_list, exists_row, invalidate_user}
use nestjs_scaffold.Roles.Checks.{assert_roles_assignable}

pub record CreateUserDto : Type 0 where
  pub email : String
  pub name : String
  pub password : String
  pub role_ids : List String

pub record UpdateUserDto : Type 0 where
  pub email : Option String
  pub name : Option String
  pub password : Option String

module _ (env : Env) where
  abbrev pub is_membership : String → String → TenantMembership → Bool
  is_membership user_id tenant_id m = m.user_id == user_id && m.tenant_id == tenant_id

  -- `memberships: { some: { tenantId, active: true } }`
  abbrev pub is_member : env.prisma.Db → String → User → Bool
  is_member db tenant_id u =
      exists_row env.prisma db tenant_membership
        (λ m. m.user_id == u.id && (m.tenant_id == tenant_id && m.active))

  -- `include: userAccessInclude(tenantId)`: a user with the enabled roles assigned in the tenant
  abbrev pub with_roles : env.prisma.Db → String → User → User × List Role
  with_roles db tenant_id u = (
    u,
    flat_map
        (λ (a : UserRoleAssignment).
          to_list (env.prisma.find_first role (λ r. r.id == a.role_id && r.enabled) [] db))
        (env.prisma.find_many user_role_assignment
          (λ a. a.user_id == u.id && a.tenant_id == tenant_id) [] db),
  )

  abbrev pub assignment : String → String → String → UserRoleAssignment
  assignment user_id tenant_id role_id = record {
    user_id = user_id;
    tenant_id = tenant_id;
    role_id = role_id;
  }

  abbrev pub hashed : String → String
  hashed password = env.hash_password password (or_else (env.get_number "BCRYPT_ROUNDS") 12)

  -- The user of `create`: an existing one is made active, and keeps a password that is there.
  unfoldable pub create_or_activate : Option User → String → CreateUserDto → Action env User
  create_or_activate (some existing) email dto = write env (
      env.prisma.update user (λ u. u.id == existing.id)
        λ u. record u {
          active = true;
          password_hash = some (or_else existing.password_hash (hashed dto.password));
        })
  create_or_activate none email dto = write env (
      env.prisma.create user λ id. record {
        id = id;
        email = some email;
        phone = none;
        country_code = none;
        name = dto.name;
        password_hash = some (hashed dto.password);
        active = true;
      })

  -- The roles of `create`, or the built-in role of members.
  unfoldable pub roles_or_member : List String → Action env (List String)
  roles_or_member [] = do
    r ←
        find_or_throw env role
          (λ (r : Role). not (is_some r.tenant_id) && r.code == "member" && r.enabled)
    pure (r.id ∷ [])
  roles_or_member (i ∷ role_ids) = pure (i ∷ role_ids)

  -- The transaction of `create`; the event's payload is not kept.
  unfoldable pub create_member :
      Option User → String → String → CreateUserDto → Action env (User × List Role)
  create_member existing tenant_id email dto = do
    u ← create_or_activate existing email dto
    write env (
        env.prisma.create tenant_membership
          λ _. record { user_id = u.id; tenant_id = tenant_id; active = true })
    role_ids ← roles_or_member dto.role_ids
    write env (
        env.prisma.create_many user_role_assignment (map (assignment u.id tenant_id) role_ids)
          false)
    (λ w.
        write env
          (env.prisma.create outbox_event λ id. record {
            id = id;
            tenant_id = tenant_id;
            aggregate_type = "user";
            aggregate_id = u.id;
            routing_key = "user.created";
            created_at = w.now;
          })
          w)
    found ← find_or_throw env user (λ v. v.id == u.id)
    query env λ db. with_roles db tenant_id found

  abbrev pub on_create_error : Error → Action env (User × List Role)
  on_create_error (known_request code) =
      if code == "P2002"
      then throw (conflict "User email already exists")
      else throw (known_request code)
  on_create_error e = throw e

  -- An existing user may not be a member already.
  unfoldable pub assert_no_member : Option User → String → Action env Unit
  assert_no_member none tenant_id = pure tt
  assert_no_member (some existing) tenant_id = do
    m ← query env (env.prisma.find_first tenant_membership (is_membership existing.id tenant_id) [])
    throw_if (is_some m) (conflict "User already belongs to this tenant")

  unfoldable pub create : CreateUserDto → String → Action env (User × List Role)
  create dto actor_id = do
    tenant_id ← require_tenant_id env
    let email = env.to_lower dto.email
    when (not (eqb (length dto.role_ids) 0))
        (assert_roles_assignable env actor_id tenant_id dto.role_ids)
    existing ← query env (env.prisma.find_first user (λ u. is_text u.email email) [])
    assert_no_member existing tenant_id
    catch (transaction env (create_member existing tenant_id email dto)) on_create_error

  unfoldable pub find_all_for_tenant : Action env (List (User × List Role))
  find_all_for_tenant = do
    tenant_id ← require_tenant_id env
    query env λ db.
        map (with_roles db tenant_id)
          (env.prisma.find_many user (is_member db tenant_id) (desc "createdAt" ∷ []) db)

  unfoldable pub find_by_id_for_tenant : String → Action env (User × List Role)
  find_by_id_for_tenant id = do
    tenant_id ← require_tenant_id env
    found ←
        query env
          λ db. env.prisma.find_first user (λ u. u.id == id && is_member db tenant_id u) [] db
    u ← or_throw found (not_found "User not found")
    query env λ db. with_roles db tenant_id u

  unfoldable pub find_by_email_with_password : String → Action env (Option User)
  find_by_email_with_password email =
      query env (env.prisma.find_first user (λ u. is_text u.email (env.to_lower email)) [])

  -- `data` of `update`
  abbrev pub changed : UpdateUserDto → User → User
  changed dto u = record u {
    email = if truthy dto.email then some (env.to_lower (or_else dto.email "")) else u.email;
    name = or_else dto.name u.name;
    password_hash = elim dto.password [ none ↦ u.password_hash | some p ↦ some (hashed p) ];
  }

  unfoldable pub update : String → UpdateUserDto → Action env (User × List Role)
  update id dto = do
    tenant_id ← require_tenant_id env
    find_by_id_for_tenant id
    u ← write env (env.prisma.update user (λ v. v.id == id) (changed dto))
    result ← query env λ db. with_roles db tenant_id u
    invalidate_user env id none
    pure result

  abbrev pub is_assigned : String → String → UserRoleAssignment → Bool
  is_assigned user_id tenant_id a = a.user_id == user_id && a.tenant_id == tenant_id

  unfoldable pub delete_assignments : String → String → Action env Unit
  delete_assignments user_id tenant_id w = (pure tt) (record w {
    db = (env.prisma.delete_many user_role_assignment (is_assigned user_id tenant_id) w.db).1;
  })

  -- The transaction of `setRoles`.
  unfoldable pub replace_assignments : String → String → List String → Action env Unit
  replace_assignments user_id tenant_id role_ids = transaction env do
    delete_assignments user_id tenant_id
    write env (
        env.prisma.create_many user_role_assignment (map (assignment user_id tenant_id) role_ids)
          true)
    pure tt

  unfoldable pub set_roles : String → List String → String → Action env (User × List Role)
  set_roles id role_ids actor_id = do
    tenant_id ← require_tenant_id env
    find_by_id_for_tenant id
    assert_roles_assignable env actor_id tenant_id role_ids
    replace_assignments id tenant_id role_ids
    invalidate_user env id (some tenant_id)
    find_by_id_for_tenant id

  -- `remove` of the membership: for good, with a user who is left with none, or by making it inactive
  unfoldable pub remove_membership : String → String → Bool → Action env Unit
  remove_membership id tenant_id true = do
    transaction env do
      delete_assignments id tenant_id
      write env (env.prisma.delete tenant_membership (is_membership id tenant_id))
      pure tt
    memberships ← query env (env.prisma.find_many tenant_membership (λ m. m.user_id == id) [])
    when (eqb (length memberships) 0)
        (do write env (env.prisma.delete user (λ u. u.id == id)); pure tt)
  remove_membership id tenant_id false = do
    write env (
        env.prisma.update tenant_membership (is_membership id tenant_id)
          (λ m. record m { active = false }))
    pure tt

  -- The mark that revokes the user's access tokens.
  unfoldable pub mark_logout : String → Action env Unit
  mark_logout id w =
      (do
        seconds ←
            or_throw (parse_ttl_seconds (or_else (env.get_text "JWT_EXPIRES_IN") "2h"))
              invalid_expiry
        set env (last_logout_prefix <> id) (env.text_of_number (w.now / 1000)) (for_seconds seconds)
        pure tt)
        w

  unfoldable pub remove : String → Bool → Action env Unit
  remove id hard = do
    tenant_id ← require_tenant_id env
    find_by_id_for_tenant id
    remove_membership id tenant_id hard
    invalidate_user env id (some tenant_id)
    mark_logout id
