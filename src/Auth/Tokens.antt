-- ===== src/Auth/Tokens.antt =====
-- The tokens of src/auth/auth.service.ts, and the check of src/auth/jwt.strategy.ts. A plain refresh
-- token, which `randomBytes` gives, is an argument.
use nestjs_scaffold.Base.{
  ℕ, ◌+◌, ◌-◌, ◌*◌, ◌/◌, String, Bool, false, not, Option, none, some, ◌&&◌, ◌||◌, ◌==◌, ◌<>◌, ltb,
  is_some, or_else, truthy, if◌then◌else◌,
}
use nestjs_scaffold.Constants.{last_logout_prefix, tenant_deactivated_prefix}
use nestjs_scaffold.Duration.{parse_ttl_seconds}
use nestjs_scaffold.Exec.{◌>>=◌, ◌>>◌, pure, throw_if, or_throw, unauthorized}
use nestjs_scaffold.Schema.{User, RefreshToken, refresh_token}
use nestjs_scaffold.Env.{Env, Action, write}
use nestjs_scaffold.RedisService.{for_seconds, get, set}
use nestjs_scaffold.Tenancy.Service.{invalid_expiry}

pub record AuthRequestMeta : Type 0 where
  pub ip_address : Option String
  pub user_agent : Option String

-- src/auth/authenticated-user.interface.ts
pub record AuthenticatedUser : Type 0 where
  pub sub : String
  pub tenant_id : String
  pub email : Option String
  pub active : Bool
  pub iat : Option ℕ

abbrev pub is_unrevoked : RefreshToken → Bool
is_unrevoked r = not (is_some r.revoked_at)

-- `revokedAt: { not: null, lt: cutoff }`
abbrev pub is_before : Option ℕ → ℕ → Bool
is_before none cutoff = false
is_before (some t) cutoff = ltb t cutoff

-- `stamp && iat < Number(stamp)`, where a comparison with NaN fails
abbrev pub is_older : ℕ → Option ℕ → Bool
is_older iat none = false
is_older iat (some t) = ltb iat t

module _ (env : Env) where
  unfoldable pub hash_refresh_token : String → String
  hash_refresh_token token = env.sha256 token

  -- `get('JWT_EXPIRES_IN', '2h')`
  abbrev pub jwt_expires_in : String
  jwt_expires_in = or_else (env.get_text "JWT_EXPIRES_IN") "2h"

  unfoldable pub create_access_token : User → String → Action env String
  create_access_token user tenant_id w =
      pure
        (env.sign user.id tenant_id (if truthy user.email then user.email else none) user.active
          jwt_expires_in w.now)
        w

  abbrev pub refresh_lifetime : ℕ
  refresh_lifetime = or_else (env.get_number "REFRESH_TOKEN_EXPIRES_IN_DAYS") 30 * 86400000

  -- The row that `createRefreshToken` stores, at a time, under the id that the database gives.
  abbrev pub new_token : String → String → AuthRequestMeta → String → ℕ → String → RefreshToken
  new_token user_id tenant_id meta plain_token now id = record {
    id = id;
    tenant_id = tenant_id;
    user_id = user_id;
    token_hash = hash_refresh_token plain_token;
    expires_at = now + refresh_lifetime;
    revoked_at = none;
    replaced_by_token_id = none;
    user_agent = meta.user_agent;
    ip_address = meta.ip_address;
  }

  unfoldable pub create_refresh_token :
      String → String → AuthRequestMeta → String → Action env RefreshToken
  create_refresh_token user_id tenant_id meta plain_token w =
      write env
        (env.prisma.create refresh_token (new_token user_id tenant_id meta plain_token w.now)) w

  -- The compare-and-set of `refresh`: how many rows it has revoked.
  unfoldable pub rotate : String → String → Action env ℕ
  rotate id replacement_id w =
      write env
        (env.prisma.update_many refresh_token (λ r. r.id == id && is_unrevoked r)
          (λ r. record r { revoked_at = some w.now; replaced_by_token_id = some replacement_id }))
        w

  -- `update({ where: { id }, data: { revokedAt: new Date() } })`
  unfoldable pub revoke : String → Action env RefreshToken
  revoke id w =
      write env
        (env.prisma.update refresh_token (λ r. r.id == id)
          (λ r. record r { revoked_at = some w.now }))
        w

  unfoldable pub revoke_access_tokens : String → Action env Unit
  revoke_access_tokens user_id w =
      (do
        seconds ← or_throw (parse_ttl_seconds jwt_expires_in) invalid_expiry
        set env (last_logout_prefix <> user_id) (env.text_of_number (w.now / 1000))
            (for_seconds seconds)
        pure tt)
        w

  -- The rows that `cleanupExpiredTokens` deletes.
  abbrev pub is_stale : ℕ → RefreshToken → Bool
  is_stale cutoff r = ltb r.expires_at cutoff || is_before r.revoked_at cutoff

  unfoldable pub cleanup_expired_tokens : Action env Unit
  cleanup_expired_tokens w = pure tt (record w {
    db = (env.prisma.delete_many refresh_token (is_stale (w.now - 30 * 86400000)) w.db).1;
  })

  -- The texts under which an access token is revoked.
  abbrev pub stamp_of : Option String → Option ℕ
  stamp_of text = if truthy text then env.number_of_text (or_else text "") else none

  unfoldable pub check_stamps : AuthenticatedUser → ℕ → Action env AuthenticatedUser
  check_stamps payload iat = do
    last_logout_at ← get env (last_logout_prefix <> payload.sub)
    tenant_deactivated_at ← get env (tenant_deactivated_prefix <> payload.tenant_id)
    throw_if (is_older iat (stamp_of last_logout_at)) (unauthorized "Token has been revoked")
    throw_if (is_older iat (stamp_of tenant_deactivated_at))
        (unauthorized "Tenant has been deactivated")
    pure payload

  -- `if (payload.iat)`: a missing one or 0 skips the checks
  abbrev pub check_issued : AuthenticatedUser → Option ℕ → Action env AuthenticatedUser
  check_issued payload none = pure payload
  check_issued payload (some iat) = if ltb 0 iat then check_stamps payload iat else pure payload

  -- `JwtStrategy.validate`
  unfoldable pub validate : AuthenticatedUser → Action env AuthenticatedUser
  validate payload = do
    throw_if (not payload.active) (unauthorized "User is inactive")
    check_issued payload payload.iat
