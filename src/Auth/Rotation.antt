-- ===== src/Auth/Rotation.antt =====
-- `refresh` of src/auth/auth.service.ts: what a token has to be to be used, and that it is used once.
use nestjs_scaffold.Base.{
  ltb, ℕ, ◌≤◌, String, Bool, true, false, not, some, [], ◌≡◌, ◌≢◌, refl, sym, ap, ◌∙◌, arith, ◌==◌,
  ◌&&◌, eq_iff, count-split, count-ext, if◌then◌else◌, Bool-cases, Option-cases, inl, inr,
}
use nestjs_scaffold.Exec.{ok, err, unauthorized_code}
use nestjs_scaffold.Schema.{RefreshToken, refresh_token, user, tenant_membership, tenant}
use nestjs_scaffold.Prisma.Laws.{PrismaLaws, tally}
use nestjs_scaffold.Env.{Env, World}
use nestjs_scaffold.Env.Writes.{write-eq-ok}
use nestjs_scaffold.RedisService.{set}
use nestjs_scaffold.Auth.Tokens.{
  AuthRequestMeta, is_unrevoked, hash_refresh_token, rotate, revoke_access_tokens,
}
use nestjs_scaffold.Auth.Service.{usable_token, refresh}
use nestjs_scaffold.Auth.Responses.{AuthResponseDto}
use nestjs_scaffold.Auth.Checks.{holds_token, may_use, assert_membership-IsMember}
use nestjs_scaffold.Auth.Refreshed.{Refreshed, refresh-Refreshed}

module _ (env : Env) where
  module _ (prisma : PrismaLaws env.prisma) where
    pub db-revoke_access_tokens :
        (user_id : String) (w : World env) → (revoke_access_tokens env user_id w).1.db ≡ w.db
    unfolding revoke_access_tokens set
    db-revoke_access_tokens user_id w = ground arith

    pub rotate-tally :
        (id replacement_id : String) (n : ℕ) (w w' : World env)
        → rotate env id replacement_id w ≡ (ok n, w')
        → (n ≡ tally env.prisma refresh_token (λ r. r.id == id && is_unrevoked r) w.db)
          × ((q : RefreshToken → Bool)
              → tally env.prisma refresh_token q w'.db
                ≡ tally env.prisma refresh_token
                    (λ r. q (
                      if r.id == id && is_unrevoked r
                      then record r {
                        revoked_at = some w.now;
                        replaced_by_token_id = some replacement_id;
                      }
                      else r))
                    w.db)
    unfolding rotate
    rotate-tally id replacement_id n w w' e =
        prisma.update_many-tally refresh_token (λ r. r.id == id && is_unrevoked r)
          (λ r. record r { revoked_at = some w.now; replaced_by_token_id = some replacement_id })
          w.db n w'.db
          (write-eq-ok env
            (env.prisma.update_many refresh_token (λ r. r.id == id && is_unrevoked r)
              (λ r. record r {
                revoked_at = some w.now;
                replaced_by_token_id = some replacement_id;
              }))
            w w' n e)

    -- No usable row is left for a token that `refresh` has accepted.
    spent :
        (token plain_token : String) (w w' : World env) (response : AuthResponseDto)
        → tally env.prisma refresh_token (holds_token env token) w.db ≤ 1
        → env.sha256 plain_token ≢ env.sha256 token
        → Refreshed env token plain_token w response w'
        → tally env.prisma refresh_token (may_use env token) w'.db ≡ 0
    unfolding hash_refresh_token
    spent token plain_token w w' response unique other x =
        let (passes, counted) =
          prisma.find_first-some refresh_token (may_use env token) [] w.db x.stored x.found in
        let mine = λ (r : RefreshToken). may_use env token r && r.id == x.stored.id in
        let left = λ (r : RefreshToken).
          may_use env token r && not (r.id == x.stored.id && is_unrevoked r) in
        let there : 1 ≤ tally env.prisma refresh_token mine w.db =
          counted mine (ground (arith, eq_iff x.stored.id x.stored.id)) in
        let added = x.issued.added in
        let not_new : (added.row.token_hash == env.sha256 token) ≡ false =
          ground (arith, eq_iff added.row.token_hash (env.sha256 token), added.hashed) in
        let few : tally env.prisma refresh_token (holds_token env token) x.w₁.db ≤ 1 =
          ground (arith, added.counted (holds_token env token), not_new, unique) in
        let still : 1 ≤ tally env.prisma refresh_token mine x.w₁.db =
          ground (arith, added.counted mine, there) in
        let split =
          count-split mine left (holds_token env token)
            (env.prisma.find_many refresh_token (λ _. true) [] x.w₁.db)
            (λ r h. (ground (arith, h), ground (arith, h))) (λ r h. ground (arith, h)) in
        let (_, rotated) = rotate-tally x.stored.id x.replacement.id 1 x.w₁ x.w₂ x.won in
        let same : w'.db ≡ x.w₂.db =
          sym (ap (λ v. v.1.db) x.revoked) ∙ db-revoke_access_tokens x.stored.user_id x.w₂ in
        ap (λ d. tally env.prisma refresh_token (may_use env token) d) same
        ∙ rotated (may_use env token)
        ∙ count-ext _ left (env.prisma.find_many refresh_token (λ _. true) [] x.w₁.db) (λ r.
          elim (Bool-cases (r.id == x.stored.id && is_unrevoked r)) [
            | inl mine ↦ rw mine (ground arith)
            | inr others ↦ rw others (ground arith)
          ])
        ∙ omega (arith, few, still, split)

    pub refused :
        (token plain_token : String) (meta : AuthRequestMeta) (w : World env)
        → tally env.prisma refresh_token (may_use env token) w.db ≡ 0
        → refresh env token meta plain_token w
          ≡ (err (unauthorized_code "REFRESH_TOKEN_INVALID" "Refresh token is invalid"), w)
    unfolding refresh usable_token
    refused token plain_token meta w none_left =
        elim (Option-cases (env.prisma.find_first refresh_token (may_use env token) [] w.db)) [
          | inl missing ↦ rw missing refl
          | inr (r, found) ↦
              let (passes, counted) =
                prisma.find_first-some refresh_token (may_use env token) [] w.db r found in
              absurd (omega (arith, counted (may_use env token) passes, none_left))
        ]

    -- A refresh token works once: when `refresh` has returned and the token was stored in one row at
    -- most and does not hash like the new one, a second call with it is refused, whatever its
    -- other arguments are, and changes nothing.
    pub refresh_once :
        (token plain_token plain_token' : String) (meta meta' : AuthRequestMeta) (w w' : World env)
        (response : AuthResponseDto)
        → tally env.prisma refresh_token (holds_token env token) w.db ≤ 1
        → env.sha256 plain_token ≢ env.sha256 token
        → refresh env token meta plain_token w ≡ (ok response, w')
        → refresh env token meta' plain_token' w'
          ≡ (err (unauthorized_code "REFRESH_TOKEN_INVALID" "Refresh token is invalid"), w')
    refresh_once token plain_token plain_token' meta meta' w w' response unique other e =
        refused token plain_token' meta' w' (
          spent token plain_token w w' response unique other
            ((refresh-Refreshed env prisma token plain_token meta w).holds response w' e))

    -- `refresh` returns only for a token that is stored, unrevoked and unexpired, whose user is
    -- active and an active member of its tenant, which is active; and the answer is for that user
    -- and tenant, with the new token.
    pub refresh_checked :
        (token plain_token : String) (meta : AuthRequestMeta) (w w' : World env)
        (response : AuthResponseDto)
        → refresh env token meta plain_token w ≡ (ok response, w')
        → (stored : RefreshToken) × (1
            ≤ tally env.prisma refresh_token
                (λ r.
                  may_use env token r
                  && (ltb w.now r.expires_at
                      && (r.user_id == stored.user_id && r.tenant_id == stored.tenant_id)))
                w.db)
          × (1 ≤ tally env.prisma user (λ u. u.id == stored.user_id && u.active) w.db)
          × (1
              ≤ tally env.prisma tenant_membership
                  (λ m.
                    m.user_id == stored.user_id && (m.tenant_id == stored.tenant_id && m.active))
                  w.db)
          × (1 ≤ tally env.prisma tenant (λ t. t.id == stored.tenant_id && t.active) w.db)
          × (response.user.id ≡ stored.user_id)
          × (response.current_tenant_id ≡ stored.tenant_id)
          × (response.refresh_token ≡ plain_token)
    refresh_checked token plain_token meta w w' response e =
        let x = (refresh-Refreshed env prisma token plain_token meta w).holds response w' e in
        let (passes, counted) =
          prisma.find_first-some refresh_token (may_use env token) [] w.db x.stored x.found in
        let (owned, user_counted) =
          prisma.find_first-some user (λ u. u.id == x.stored.user_id) [] w.db x.u x.owner in
        let (member, active) =
          assert_membership-IsMember env prisma x.stored.user_id x.stored.tenant_id w x.member in
        (
          x.stored,
          counted _ (
              ground (
                arith,
                passes,
                x.fresh,
                (eq_iff x.stored.user_id _).1 refl,
                (eq_iff x.stored.tenant_id _).1 refl,
              )),
          user_counted _ (ground (arith, owned, x.enabled)),
          member,
          active,
          x.issued.user ∙ (eq_iff _ _).0 owned,
          x.issued.current,
          x.issued.plain,
        )
