-- ===== src/Auth/Revocation.antt =====
-- `logout` and `revokeAccessTokens` of src/auth/auth.service.ts, with the check of the access tokens in
-- src/auth/jwt.strategy.ts.
use nestjs_scaffold.Base.{
  count-le, count-split, ℕ, ◌/◌, ◌≤◌, ◌<◌, String, true, false, not, none, some, [], ◌≡◌, refl, sym,
  ap, ◌∙◌, arith, ◌==◌, ◌<>◌, ◌&&◌, eq_iff, ltb, truthy, count-ext, if◌then◌else◌, Bool-cases,
  Option-cases, inl, inr,
}
use nestjs_scaffold.Constants.{last_logout_prefix, tenant_deactivated_prefix}
use nestjs_scaffold.Duration.{parse_ttl_seconds}
use nestjs_scaffold.Exec.{ok, err, Returns, Returns-bind, unauthorized, unauthorized_code}
use nestjs_scaffold.Schema.{RefreshToken, refresh_token}
use nestjs_scaffold.Prisma.Laws.{PrismaLaws, tally}
use nestjs_scaffold.Redis.Laws.{RedisLaws}
use nestjs_scaffold.Env.{Env, World}
use nestjs_scaffold.Env.Writes.{write-eq-ok}
use nestjs_scaffold.RedisService.{for_seconds, get, set}
use nestjs_scaffold.RedisService.Laws.{get-set}
use nestjs_scaffold.Auth.Tokens.{
  AuthRequestMeta, AuthenticatedUser, is_unrevoked, jwt_expires_in, revoke, revoke_access_tokens,
  check_stamps, validate,
}
use nestjs_scaffold.Auth.Service.{refresh, logout, logout_stored}
use nestjs_scaffold.Auth.Checks.{holds_token, may_use}
use nestjs_scaffold.Auth.Rotation.{refused, db-revoke_access_tokens}

module _ (env : Env) (redis : RedisLaws env.redis) where
  stamp-Returns :
      (user_id : String) (w : World env)
      → Returns
          (λ _ w'.
            env.redis.get (last_logout_prefix <> user_id) w'.keys
            ≡ some (env.text_of_number (w.now / 1000)))
          (revoke_access_tokens env user_id w)
  unfolding revoke_access_tokens
  stamp-Returns user_id w =
      let key = last_logout_prefix <> user_id in
      let stamp = env.text_of_number (w.now / 1000) in
      elim (Option-cases (parse_ttl_seconds (jwt_expires_in env))) [
        | inl missing ↦ rw missing (record { holds = λ _ w' e. cc })
        | inr (n, seconds) ↦ rw seconds (
            Returns-bind (set env key stamp (for_seconds n)) _ w λ b w₁ done. record {
              holds = λ _ w₂ e₂.
                  ap (λ v. env.redis.get key v.keys) (sym (ap (λ x. x.1) e₂))
                  ∙ sym (ap (λ x. env.redis.get key x.1.keys) done)
                  ∙ get-set env redis key stamp n w key
                  ∙ rw ((eq_iff key key).1 refl) refl;
            })
      ]

  pub revoke_access_tokens-stamps :
      (user_id : String) (w w' : World env)
      → revoke_access_tokens env user_id w ≡ (ok tt, w')
      → env.redis.get (last_logout_prefix <> user_id) w'.keys
        ≡ some (env.text_of_number (w.now / 1000))
  revoke_access_tokens-stamps user_id w w' e = (stamp-Returns user_id w).holds tt w' e

  validate-check_stamps :
      (payload : AuthenticatedUser) (iat : ℕ) (w : World env)
      → payload.active ≡ true
      → payload.iat ≡ some iat
      → ltb 0 iat ≡ true
      → validate env payload w ≡ check_stamps env payload iat w
  unfolding validate
  validate-check_stamps payload iat w active issued positive = simp (active, issued, positive) refl

  check_stamps_lem :
      (payload : AuthenticatedUser) (iat n : ℕ) (stamp : String) (w : World env)
      → env.redis.get (last_logout_prefix <> payload.sub) w.keys ≡ some stamp
      → env.redis.get (tenant_deactivated_prefix <> payload.tenant_id) w.keys ≡ none
      → truthy (some stamp) ≡ true
      → env.number_of_text stamp ≡ some n
      → check_stamps env payload iat w
        ≡ (if ltb iat n then err (unauthorized "Token has been revoked") else ok payload, w)
  unfolding check_stamps get
  check_stamps_lem payload iat n stamp w stamped open_tenant there read =
      elim (Bool-cases (ltb iat n)) [
        | inl old ↦ rw (stamped, open_tenant, there, read, old) refl
        | inr new ↦ rw (stamped, open_tenant, there, read, new) refl
      ]

  -- After the access tokens of a user have been revoked, one that was issued in an earlier second is
  -- refused and one that was issued in the same second or later is accepted: for an active payload
  -- with an issue time, of a tenant that has not been deactivated.
  pub validate-revoke_access_tokens :
      (payload : AuthenticatedUser) (iat : ℕ) (w w' : World env)
      → payload.active ≡ true
      → payload.iat ≡ some iat
      → 0 < iat
      → truthy (some (env.text_of_number (w.now / 1000))) ≡ true
      → env.number_of_text (env.text_of_number (w.now / 1000)) ≡ some (w.now / 1000)
      → revoke_access_tokens env payload.sub w ≡ (ok tt, w')
      → env.redis.get (tenant_deactivated_prefix <> payload.tenant_id) w'.keys ≡ none
      → validate env payload w' ≡ (
        if ltb iat (w.now / 1000) then err (unauthorized "Token has been revoked") else ok payload,
        w',
      )
  validate-revoke_access_tokens payload iat w w' active issued positive there read e open_tenant =
      validate-check_stamps payload iat w' active issued (ground arith)
      ∙ check_stamps_lem payload iat (w.now / 1000) (env.text_of_number (w.now / 1000)) w'
          (revoke_access_tokens-stamps payload.sub w w' e) open_tenant there read

  module _ (prisma : PrismaLaws env.prisma) where
    -- What `logout` leaves of the token: no row under which it may be used.
    revoke-spent :
        (token : String) (stored : RefreshToken) (w w₁ : World env) (r : RefreshToken)
        → tally env.prisma refresh_token (holds_token env token) w.db ≤ 1
        → tally env.prisma refresh_token (λ x. x.id == stored.id) w.db ≤ 1
        → env.prisma.find_first refresh_token (holds_token env token) [] w.db ≡ some stored
        → revoke env stored.id w ≡ (ok r, w₁)
        → tally env.prisma refresh_token (may_use env token) w₁.db ≡ 0
    unfolding revoke
    revoke-spent token stored w w₁ r unique own found e =
        let set =
          λ (x : RefreshToken). let y : RefreshToken = record x { revoked_at = some w.now } in y in
        let changed =
          prisma.update-tally refresh_token (λ x. x.id == stored.id) set w.db r w₁.db
            (write-eq-ok env (env.prisma.update refresh_token (λ x. x.id == stored.id) set) w w₁ r
              e)
            own (may_use env token) in
        let mine = λ (x : RefreshToken). holds_token env token x && x.id == stored.id in
        let left = λ (x : RefreshToken). may_use env token x && not (x.id == stored.id) in
        let (passes, counted) =
          prisma.find_first-some refresh_token (holds_token env token) [] w.db stored found in
        let rows = env.prisma.find_many refresh_token (λ _. true) [] w.db in
        let there = counted mine (ground (arith, eq_iff stored.id stored.id)) in
        let split =
          count-split mine left (holds_token env token) rows
            (λ x h. (ground (arith, h), ground (arith, h))) (λ x h. ground (arith, h)) in
        changed ∙ count-ext _ left rows (λ x. ground arith) ∙ omega (arith, there, split, unique)

    revoked_before :
        (token : String) (stored : RefreshToken) (w : World env)
        → is_unrevoked stored ≡ false
        → tally env.prisma refresh_token (holds_token env token) w.db ≤ 1
        → env.prisma.find_first refresh_token (holds_token env token) [] w.db ≡ some stored
        → tally env.prisma refresh_token (may_use env token) w.db ≡ 0
    revoked_before token stored w dead unique found =
        let dead_rows = λ (x : RefreshToken). holds_token env token x && not (is_unrevoked x) in
        let (passes, counted) =
          prisma.find_first-some refresh_token (holds_token env token) [] w.db stored found in
        let split =
          count-split dead_rows (may_use env token) (holds_token env token)
            (env.prisma.find_many refresh_token (λ _. true) [] w.db)
            (λ x h. (ground (arith, h), ground (arith, h))) (λ x h. ground (arith, h)) in
        omega (arith, counted dead_rows (ground (arith, dead)), split, unique)

    logout_stored-spent :
        (token : String) (stored : RefreshToken) (w : World env)
        → tally env.prisma refresh_token (holds_token env token) w.db ≤ 1
        → tally env.prisma refresh_token (λ x. x.id == stored.id) w.db ≤ 1
        → env.prisma.find_first refresh_token (holds_token env token) [] w.db ≡ some stored
        → Returns
            (λ _ w'. tally env.prisma refresh_token (may_use env token) w'.db ≡ 0)
            (logout_stored env (some stored) w)
    unfolding logout_stored
    logout_stored-spent token stored w unique own found = elim (Bool-cases (is_unrevoked stored)) [
      | inl live ↦ rw live (
          Returns-bind (revoke env stored.id) _ w λ r w₁ revoked. record {
            holds = λ _ w' e.
                ap (λ d. tally env.prisma refresh_token (may_use env token) d)
                  (sym (ap (λ x. x.1.db) e) ∙ db-revoke_access_tokens env prisma stored.user_id w₁)
                ∙ revoke-spent token stored w w₁ r unique own found revoked;
          })
      | inr dead ↦ rw dead (record {
        holds = λ _ w' e.
            ap (λ d. tally env.prisma refresh_token (may_use env token) d)
              (sym (ap (λ x. x.1.db) e))
            ∙ revoked_before token stored w dead unique found;
      })
    ]

    logout-spent :
        (token : String) (w w' : World env)
        → tally env.prisma refresh_token (holds_token env token) w.db ≤ 1
        → ((id : String) → tally env.prisma refresh_token (λ r. r.id == id) w.db ≤ 1)
        → logout env token w ≡ (ok tt, w')
        → tally env.prisma refresh_token (may_use env token) w'.db ≡ 0
    unfolding logout logout_stored
    logout-spent token w w' unique keys e =
        elim (Option-cases (env.prisma.find_first refresh_token (holds_token env token) [] w.db)) [
          | inl missing ↦
              let end : w ≡ w' = ap (λ x. x.1) (rw missing at e) in
              let fewer =
                count-le (may_use env token) (holds_token env token)
                  (env.prisma.find_many refresh_token (λ _. true) [] w.db)
                  (λ r h. ground (arith, h)) in
              ap (λ v. tally env.prisma refresh_token (may_use env token) v.db) (sym end)
              ∙ omega (
                arith,
                fewer,
                prisma.find_first-none refresh_token (holds_token env token) [] w.db missing,
              )
          | inr (stored, found) ↦
              (logout_stored-spent token stored w unique (keys stored.id) found).holds tt w'
                (rw found at e)
        ]

    -- A token that has been logged out is refused by `refresh`, and the refused call changes nothing:
    -- when `logout` has returned for a token that is stored in one row at most, where ids are unique.
    pub refresh-logout :
        (token plain_token : String) (meta : AuthRequestMeta) (w w' : World env)
        → tally env.prisma refresh_token (holds_token env token) w.db ≤ 1
        → ((id : String) → tally env.prisma refresh_token (λ r. r.id == id) w.db ≤ 1)
        → logout env token w ≡ (ok tt, w')
        → refresh env token meta plain_token w'
          ≡ (err (unauthorized_code "REFRESH_TOKEN_INVALID" "Refresh token is invalid"), w')
    refresh-logout token plain_token meta w w' unique keys e =
        refused env prisma token plain_token meta w' (logout-spent token w w' unique keys e)
