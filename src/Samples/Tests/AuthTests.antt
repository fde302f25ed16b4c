-- ===== src/Samples/Tests/AuthTests.antt =====
-- The refresh tokens of src/auth at the rows in memory.
use nestjs_scaffold.Base.{ltb, String, ◌≤◌, ◌==◌, ◌≡◌, refl, ◌&&◌, arith}
use nestjs_scaffold.Exec.{ok, err, unauthorized_code}
use nestjs_scaffold.Schema.{RefreshToken, user, refresh_token, tenant_membership, tenant}
use nestjs_scaffold.Prisma.Laws.{tally}
use nestjs_scaffold.Env.{World}
use nestjs_scaffold.RedisService.{get, set, set_with_options, get_json, set_json}
use nestjs_scaffold.Access.{access_of, load_access, get_user_access}
use nestjs_scaffold.Auth.Tokens.{
  is_unrevoked, hash_refresh_token, create_access_token, create_refresh_token, rotate, revoke,
  revoke_access_tokens,
}
use nestjs_scaffold.Auth.Service.{
  my_tenants, assert_membership, issue_auth_response, usable_token, assert_unexpired,
  settle_rotation, refresh, logout, logout_stored,
}
use nestjs_scaffold.Auth.Responses.{from_entity}
use nestjs_scaffold.Duration.{parse_ttl_seconds}
use nestjs_scaffold.Auth.Checks.{holds_token, may_use}
use nestjs_scaffold.Auth.Rotation.{refresh_once, refresh_checked}
use nestjs_scaffold.Auth.Interleaving.{Run, Move, rotations_interleaved}
use nestjs_scaffold.Auth.Revocation.{refresh-logout}
use nestjs_scaffold.Samples.Database.{in_memory_laws}
use nestjs_scaffold.Samples.Keyspace.{in_memory_redis_laws}
use nestjs_scaffold.Samples.World.{env}
use nestjs_scaffold.Samples.Accounts.{browser, signed_in, answer}

abbrev refreshed : World env
refreshed = (refresh env "old" browser "plain" signed_in).1

refresh_run : refresh env "old" browser "plain" signed_in ≡ (ok answer, refreshed)
unfolding refresh usable_token assert_unexpired assert_membership issue_auth_response
    get_user_access load_access access_of get_json set_json get set set_with_options my_tenants
    create_refresh_token create_access_token hash_refresh_token from_entity rotate settle_rotation
    revoke_access_tokens parse_ttl_seconds
refresh_run = refl

one_row : tally env.prisma refresh_token (holds_token env "old") signed_in.db ≤ 1
unfolding hash_refresh_token
one_row = omega arith

one_id : (id : String) → tally env.prisma refresh_token (λ r. r.id == id) signed_in.db ≤ 1
one_id id = ground arith

refresh_once_example :
    refresh env "old" browser "again" refreshed
    ≡ (err (unauthorized_code "REFRESH_TOKEN_INVALID" "Refresh token is invalid"), refreshed)
refresh_once_example =
    refresh_once env in_memory_laws "old" "plain" "again" browser browser signed_in refreshed answer
      one_row (λ e. cc) refresh_run

refresh_checked_example :
    (stored : RefreshToken) × (1
      ≤ tally env.prisma refresh_token
          (λ r.
            may_use env "old" r
            && (ltb signed_in.now r.expires_at
                && (r.user_id == stored.user_id && r.tenant_id == stored.tenant_id)))
          signed_in.db)
    × (1 ≤ tally env.prisma user (λ u. u.id == stored.user_id && u.active) signed_in.db)
    × (1
        ≤ tally env.prisma tenant_membership
            (λ m. m.user_id == stored.user_id && (m.tenant_id == stored.tenant_id && m.active))
            signed_in.db)
    × (1 ≤ tally env.prisma tenant (λ t. t.id == stored.tenant_id && t.active) signed_in.db)
    × (answer.user.id ≡ stored.user_id)
    × (answer.current_tenant_id ≡ stored.tenant_id)
    × (answer.refresh_token ≡ "plain")
refresh_checked_example =
    refresh_checked env in_memory_laws "old" "plain" browser signed_in refreshed answer refresh_run

-- Two calls of `refresh` with the same token: both have stored their new token when both rotate.
abbrev once_rotated : World env
once_rotated = (rotate env "k1" "new" signed_in).1

abbrev twice_rotated : World env
twice_rotated = (rotate env "k1" "other" once_rotated).1

race : Run env "k1" 1 signed_in twice_rotated
unfolding rotate
race =
    Run.after 1 0 signed_in once_rotated twice_rotated
      (Run.after 0 1 signed_in signed_in once_rotated (Run.done signed_in)
        (Move.rotated "new" 1 signed_in once_rotated refl))
      (Move.rotated "other" 0 once_rotated twice_rotated refl)

rotations_interleaved_example :
    (1 ≤ 1)
    × (1 ≤ tally env.prisma refresh_token (λ r. r.id == "k1" && is_unrevoked r) signed_in.db)
rotations_interleaved_example =
    rotations_interleaved env in_memory_laws "k1" 1 signed_in twice_rotated (one_id "k1") race

abbrev logged_out : World env
logged_out = (logout env "old" signed_in).1

logout_run : logout env "old" signed_in ≡ (ok tt, logged_out)
unfolding logout logout_stored revoke revoke_access_tokens set set_with_options parse_ttl_seconds
    hash_refresh_token
logout_run = refl

refresh-logout_example :
    refresh env "old" browser "plain" logged_out
    ≡ (err (unauthorized_code "REFRESH_TOKEN_INVALID" "Refresh token is invalid"), logged_out)
refresh-logout_example =
    refresh-logout env in_memory_redis_laws in_memory_laws "old" "plain" browser signed_in
      logged_out one_row one_id logout_run
