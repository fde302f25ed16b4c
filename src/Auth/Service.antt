-- ===== src/Auth/Service.antt =====
-- The operations of src/auth/auth.service.ts.
use nestjs_scaffold.Base.{
  map, ℕ, String, Bool, true, not, Option, none, some, List, [], ◌∷◌, ◌&&◌, ◌||◌, ◌==◌, ◌<>◌,
  flat_map, eqb, leb, is_some, is_text, or_else, truthy, if◌then◌else◌,
}
use nestjs_scaffold.Exec.{
  ◌>>=◌, ◌>>◌, pure, throw, throw_if, or_throw, when, unauthorized, unauthorized_code, forbidden,
}
use nestjs_scaffold.Schema.{
  User, Role, RefreshToken, TenantMembership, tenant, user, tenant_membership, role,
  user_role_assignment, refresh_token,
}
use nestjs_scaffold.Prisma.{asc}
use nestjs_scaffold.Env.{Env, Action, UserAccess, query, write, transaction, find_or_throw}
use nestjs_scaffold.Tenancy.{current_tenant}
use nestjs_scaffold.Tenancy.Service.{resolve_tenant_id, bootstrap_default_tenant}
use nestjs_scaffold.Users.{find_by_email_with_password}
use nestjs_scaffold.Access.{to_list, exists_row, get_user_access}
use nestjs_scaffold.Verification.{consume}
use nestjs_scaffold.Auth.Tokens.{
  AuthRequestMeta, is_unrevoked, hash_refresh_token, create_access_token, create_refresh_token,
  rotate, revoke, revoke_access_tokens,
}
use nestjs_scaffold.Auth.Responses.{
  LoginDto, EmailCodeLoginDto, PhoneCodeLoginDto, AuthTenantDto, AuthResponseDto, VerifiedInput,
  selected, from_entity,
}

module _ (env : Env) where
  -- `active: true, tenant: { active: true }`
  abbrev pub is_open : env.prisma.Db → TenantMembership → Bool
  is_open db m = m.active && exists_row env.prisma db tenant (λ t. t.id == m.tenant_id && t.active)

  unfoldable pub my_tenants : String → Action env (List AuthTenantDto)
  my_tenants user_id = query env λ db. map selected (
      flat_map
        (λ (m : TenantMembership).
          to_list (env.prisma.find_first tenant (λ t. t.id == m.tenant_id) [] db))
        (env.prisma.find_many tenant_membership (λ m. m.user_id == user_id && is_open db m)
          (asc "createdAt" ∷ []) db))

  unfoldable pub my_access : String → String → Action env UserAccess
  my_access user_id tenant_id = get_user_access env user_id tenant_id

  unfoldable pub assert_membership : String → String → Action env Unit
  assert_membership user_id tenant_id = do
    m ← query env λ db.
        env.prisma.find_first tenant_membership
          (λ m. m.user_id == user_id && (m.tenant_id == tenant_id && is_open db m)) [] db
    throw_if (not (is_some m)) (forbidden "User is not a member of this tenant")

  abbrev pub require_tenant : Option String → Action env String
  require_tenant tenant_id =
      if truthy tenant_id
      then pure (or_else tenant_id "")
      else throw (unauthorized "Tenant is required")

  unfoldable pub resolve_requested_tenant : Option String → Action env String
  resolve_requested_tenant slug w =
      (if not (truthy (current_tenant env w)) && truthy slug
          then (do resolved ← resolve_tenant_id env (or_else slug ""); require_tenant resolved)
          else require_tenant (current_tenant env w))
        w

  unfoldable pub first_tenant : String → Action env String
  first_tenant user_id = do
    m ← query env λ db.
        env.prisma.find_first tenant_membership (λ m. m.user_id == user_id && is_open db m)
          (asc "createdAt" ∷ []) db
    found ← or_throw m (forbidden "User has no active tenant membership")
    pure found.tenant_id

  unfoldable pub resolve_user_tenant : String → Option String → Action env String
  resolve_user_tenant user_id slug w =
      (if truthy (current_tenant env w) || truthy slug
          then (do
            tenant_id ← resolve_requested_tenant slug
            assert_membership user_id tenant_id
            pure tenant_id)
          else first_tenant user_id)
        w

  unfoldable pub issue_auth_response :
      User → String → AuthRequestMeta → String → Action env AuthResponseDto
  issue_auth_response u tenant_id meta plain_token = do
    access ← get_user_access env u.id tenant_id
    tenants ← my_tenants u.id
    create_refresh_token env u.id tenant_id meta plain_token
    access_token ← create_access_token env u tenant_id
    pure (record {
      access_token = access_token;
      refresh_token = plain_token;
      user = from_entity u access.roles;
      current_tenant_id = tenant_id;
      tenants = tenants;
      roles = access.roles;
      permissions = access.permissions;
    })

  -- The test of `login` on the user found.
  abbrev pub accepts_password : String → User → Bool
  accepts_password password u =
      u.active
      && (truthy u.password_hash && env.compare_password password (or_else u.password_hash ""))

  unfoldable pub check_credentials : String → Option User → Action env User
  check_credentials password none = throw (unauthorized "Invalid credentials")
  check_credentials password (some u) = do
    throw_if (not (accepts_password password u)) (unauthorized "Invalid credentials")
    pure u

  unfoldable pub login : LoginDto → AuthRequestMeta → String → Action env AuthResponseDto
  login dto meta plain_token = do
    tenant_id ← resolve_requested_tenant dto.tenant_slug
    found ← find_by_email_with_password env dto.email
    u ← check_credentials dto.password found
    assert_membership u.id tenant_id
    issue_auth_response u tenant_id meta plain_token

  -- the transaction of `registerVerifiedUser`
  unfoldable pub create_verified : VerifiedInput → String → Action env User
  create_verified input tenant_id = do
    u ← write env (
        env.prisma.create user λ id. record {
          id = id;
          email = input.email;
          phone = input.phone;
          country_code = input.country_code;
          name = input.name;
          password_hash = none;
          active = true;
        })
    write env (
        env.prisma.create tenant_membership
          λ _. record { user_id = u.id; tenant_id = tenant_id; active = true })
    r ←
        find_or_throw env role
          (λ (r : Role). not (is_some r.tenant_id) && r.code == "member" && r.enabled)
    write env (
        env.prisma.create user_role_assignment
          λ _. record { user_id = u.id; tenant_id = tenant_id; role_id = r.id })
    pure u

  unfoldable pub register_verified_user : VerifiedInput → Action env User
  register_verified_user input = do
    t ← bootstrap_default_tenant env
    throw_if (not t.active) (forbidden "Default tenant is disabled")
    transaction env (create_verified input t.id)

  -- The user of a login by code: an active one, or a new one.
  unfoldable pub active_or_registered : Option User → VerifiedInput → Action env User
  active_or_registered none input = register_verified_user input
  active_or_registered (some u) input = do
    throw_if (not u.active) (forbidden "User is disabled")
    pure u

  unfoldable pub login_by_email_code :
      EmailCodeLoginDto → AuthRequestMeta → String → Action env AuthResponseDto
  login_by_email_code dto meta plain_token = do
    let email = env.trim (env.to_lower dto.email)
    consume env "email" email dto.code
    found ← query env (env.prisma.find_first user (λ u. is_text u.email email) [])
    u ←
        active_or_registered found
          (record { email = some email; phone = none; country_code = none; name = email })
    tenant_id ← resolve_user_tenant u.id dto.tenant_slug
    issue_auth_response u tenant_id meta plain_token

  unfoldable pub login_by_phone_code :
      PhoneCodeLoginDto → AuthRequestMeta → String → Action env AuthResponseDto
  login_by_phone_code dto meta plain_token = do
    let phone = env.strip_blanks dto.phone
    consume env "phone" (dto.country_code <> phone) dto.code
    found ← query env (
        env.prisma.find_first user
          (λ u. is_text u.country_code dto.country_code && is_text u.phone phone) [])
    u ← active_or_registered found (record {
      email = none;
      phone = some phone;
      country_code = some dto.country_code;
      name = dto.country_code <> phone;
    })
    tenant_id ← resolve_user_tenant u.id dto.tenant_slug
    issue_auth_response u tenant_id meta plain_token

  unfoldable pub switch_tenant :
      String → String → AuthRequestMeta → String → Action env AuthResponseDto
  switch_tenant user_id tenant_id meta plain_token = do
    found ← query env (env.prisma.find_first user (λ u. u.id == user_id) [])
    u ← or_throw found (unauthorized "User is inactive")
    throw_if (not u.active) (unauthorized "User is inactive")
    assert_membership user_id tenant_id
    issue_auth_response u tenant_id meta plain_token

  -- The stored token of `refresh`, which has to be one that may be used.
  unfoldable pub usable_token : String → Action env RefreshToken
  usable_token token = do
    found ← query env (
        env.prisma.find_first refresh_token
          (λ r. r.token_hash == hash_refresh_token env token && is_unrevoked r) [])
    or_throw found (unauthorized_code "REFRESH_TOKEN_INVALID" "Refresh token is invalid")

  unfoldable pub assert_unexpired : RefreshToken → Action env Unit
  assert_unexpired stored w =
      throw_if (leb stored.expires_at w.now)
        (unauthorized_code "REFRESH_TOKEN_EXPIRED" "Refresh token has expired") w

  -- The end of `refresh`, from the number of rows that the rotation has revoked.
  unfoldable pub settle_rotation : RefreshToken → String → ℕ → Action env Unit
  settle_rotation stored replacement_id rotated =
      if eqb rotated 1 then revoke_access_tokens env stored.user_id else (do
        revoke env replacement_id
        throw (unauthorized_code "REFRESH_TOKEN_INVALID" "Refresh token was already used"))

  unfoldable pub refresh : String → AuthRequestMeta → String → Action env AuthResponseDto
  refresh token meta plain_token = do
    stored ← usable_token token
    u ← find_or_throw env user (λ u. u.id == stored.user_id)
    assert_unexpired stored
    throw_if (not u.active) (unauthorized_code "USER_INACTIVE" "User is inactive")
    assert_membership stored.user_id stored.tenant_id
    response ← issue_auth_response u stored.tenant_id meta plain_token
    replacement ←
        find_or_throw env refresh_token
          (λ r. r.token_hash == hash_refresh_token env response.refresh_token)
    rotated ← rotate env stored.id replacement.id
    settle_rotation stored replacement.id rotated
    pure response

  -- `logout` of the row found
  unfoldable pub logout_stored : Option RefreshToken → Action env Unit
  logout_stored none = pure tt
  logout_stored (some stored) =
      when (is_unrevoked stored) (do revoke env stored.id; revoke_access_tokens env stored.user_id)

  unfoldable pub logout : String → Action env Unit
  logout token = do
    found ←
        query env (
          env.prisma.find_first refresh_token (λ r. r.token_hash == hash_refresh_token env token)
            [])
    logout_stored found
