-- ===== src/Samples/Tests/LoginTests.antt =====
-- Logins and access tokens of src/auth at the rows in memory.
use nestjs_scaffold.Base.{
  is_some, ◌⊎◌, inr, ◌-◌, ◌*◌, ◌/◌, ◌<>◌, false, subst, ◌≤◌, ◌==◌, true, some, none, ◌≡◌, refl,
  ◌&&◌, arith, ltb, or_else, truthy, if◌then◌else◌,
}
use nestjs_scaffold.Constants.{tenant_deactivated_prefix}
use nestjs_scaffold.Exec.{ok, err, unauthorized}
use nestjs_scaffold.Schema.{User, refresh_token, tenant_membership, tenant}
use nestjs_scaffold.Prisma.Laws.{tally}
use nestjs_scaffold.Env.{World}
use nestjs_scaffold.RedisService.{get, set, set_with_options, get_json, set_json}
use nestjs_scaffold.Access.{access_of, load_access, get_user_access}
use nestjs_scaffold.Users.{find_by_email_with_password}
use nestjs_scaffold.Auth.Tokens.{
  cleanup_expired_tokens, AuthenticatedUser, hash_refresh_token, create_access_token,
  create_refresh_token, revoke_access_tokens, validate,
}
use nestjs_scaffold.Auth.Service.{
  my_tenants, assert_membership, resolve_requested_tenant, issue_auth_response, check_credentials,
  login,
}
use nestjs_scaffold.Auth.Responses.{LoginDto, from_entity}
use nestjs_scaffold.Duration.{parse_ttl_seconds}
use nestjs_scaffold.Auth.Checks.{may_use}
use nestjs_scaffold.Auth.Revocation.{validate-revoke_access_tokens}
use nestjs_scaffold.Auth.Login.{LoggedIn, login_checked, login_refused}
use nestjs_scaffold.Auth.Cleanup.{cleanup_expired_tokens_lem}
use nestjs_scaffold.Samples.Database.{in_memory_laws}
use nestjs_scaffold.Samples.Keyspace.{in_memory_redis_laws}
use nestjs_scaffold.Samples.World.{env}
use nestjs_scaffold.Samples.Accounts.{browser, ann_with_password, signed_in, answer}

abbrev payload : AuthenticatedUser
payload = record { sub = "u1"; tenant_id = "t1"; email = none; active = true; iat = some 1 }

abbrev stamped : World env
stamped = (revoke_access_tokens env "u1" signed_in).1

revoke_run : revoke_access_tokens env "u1" signed_in ≡ (ok tt, stamped)
unfolding revoke_access_tokens set set_with_options parse_ttl_seconds
revoke_run = refl

no_stamp : env.redis.get (tenant_deactivated_prefix <> "t1") stamped.keys ≡ none
unfolding revoke_access_tokens set set_with_options parse_ttl_seconds
no_stamp = refl

-- A token of the second of the logout itself.
validate-revoke_access_tokens_example : validate env payload stamped ≡ (
  if ltb 1 (signed_in.now / 1000) then err (unauthorized "Token has been revoked") else ok payload,
  stamped,
)
validate-revoke_access_tokens_example =
    validate-revoke_access_tokens env in_memory_redis_laws payload 1 signed_in stamped refl refl
      (omega arith) refl refl revoke_run no_stamp

abbrev right_password : LoginDto
right_password = record { email = "ann@acme.test"; password = "secret"; tenant_slug = none }

abbrev wrong_password : LoginDto
wrong_password = record right_password { password = "guess" }

abbrev logged_in : World env
logged_in = (login env right_password browser "plain" signed_in).1

login_run : login env right_password browser "plain" signed_in ≡ (ok answer, logged_in)
unfolding login resolve_requested_tenant find_by_email_with_password check_credentials
    assert_membership issue_auth_response get_user_access load_access access_of get_json set_json
    get set set_with_options my_tenants create_refresh_token create_access_token hash_refresh_token
    from_entity
login_run = refl

login_checked_example :
    (x : LoggedIn env right_password "plain" signed_in answer logged_in) × (x.u.active ≡ true)
    × (env.compare_password "secret" (or_else x.u.password_hash "") ≡ true)
    × (truthy x.u.password_hash ≡ true)
    × (1
        ≤ tally env.prisma tenant_membership
            (λ m. m.user_id == x.u.id && (m.tenant_id == x.tenant_id && m.active))
            x.w₁.db)
    × (1 ≤ tally env.prisma tenant (λ t. t.id == x.tenant_id && t.active) x.w₁.db)
    × (answer.user.id ≡ x.u.id)
    × (answer.current_tenant_id ≡ x.tenant_id)
login_checked_example =
    login_checked env in_memory_laws right_password browser "plain" signed_in logged_in answer
      login_run

tenant_run : resolve_requested_tenant env none signed_in ≡ (ok "t1", signed_in)
unfolding resolve_requested_tenant
tenant_run = refl

ann_found :
    (find_by_email_with_password env "ann@acme.test" signed_in).0 ≡ ok (some ann_with_password)
unfolding find_by_email_with_password
ann_found = refl

not_accepted :
    (u : User)
    → some ann_with_password ≡ some u
    → (u.active ≡ false)
      ⊎ ((truthy u.password_hash ≡ false)
          ⊎ (env.compare_password "guess" (or_else u.password_hash "") ≡ false))
not_accepted u e =
    let same : ann_with_password ≡ u = cc in
    inr (
      inr
        (subst (λ x. env.compare_password "guess" (or_else x.password_hash "") ≡ false) same refl))

login_refused_example :
    login env wrong_password browser "plain" signed_in
    ≡ (err (unauthorized "Invalid credentials"), signed_in)
login_refused_example =
    login_refused env wrong_password browser "plain" "t1" (some ann_with_password) signed_in
      signed_in tenant_run ann_found not_accepted

cleanup_expired_tokens_example :
    let w' = (cleanup_expired_tokens env signed_in).1 in
    ((cleanup_expired_tokens env signed_in).0 ≡ ok tt)
    × (tally env.prisma refresh_token (λ r. ltb r.expires_at (signed_in.now - 30 * 86400000)) w'.db
        ≡ 0)
    × (tally env.prisma refresh_token
          (λ r.
            is_some r.revoked_at && ltb (or_else r.revoked_at 0) (signed_in.now - 30 * 86400000))
          w'.db
        ≡ 0)
    × (tally env.prisma refresh_token
          (λ r. may_use env "old" r && ltb signed_in.now r.expires_at)
          w'.db
        ≡ tally env.prisma refresh_token
            (λ r. may_use env "old" r && ltb signed_in.now r.expires_at)
            signed_in.db)
cleanup_expired_tokens_example = cleanup_expired_tokens_lem env in_memory_laws "old" signed_in
