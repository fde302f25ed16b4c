-- ===== src/Auth/Refreshed.antt =====
-- `refresh` of src/auth/auth.service.ts, step by step: what has happened when it returns.
use nestjs_scaffold.Base.{
  ℕ, String, true, false, not, some, [], ◌≡◌, ap, ◌∙◌, subst, arith, ◌==◌, eqb, leb, Bool-cases,
  inl, inr,
}
use nestjs_scaffold.Exec.{
  ok, throw_if, throw_if_state, Returns, Returns-bind, Returns-read, Returns-throw, pure-eq-ok,
}
use nestjs_scaffold.Schema.{User, RefreshToken, refresh_token, user}
use nestjs_scaffold.Prisma.Laws.{PrismaLaws}
use nestjs_scaffold.Env.{Env, World, find_or_throw}
use nestjs_scaffold.Auth.Tokens.{AuthRequestMeta, rotate, revoke, revoke_access_tokens}
use nestjs_scaffold.Auth.Service.{
  assert_membership, issue_auth_response, usable_token, assert_unexpired, settle_rotation, refresh,
}
use nestjs_scaffold.Auth.Responses.{AuthResponseDto}
use nestjs_scaffold.Auth.Issue.{Issued, issue_auth_response-Issued}
use nestjs_scaffold.Auth.Checks.{
  holds_token, may_use, usable_token_state, find_or_throw-found, find_or_throw_state,
  assert_unexpired_state, assert_membership_state, usable_token-found, throw_if-passes,
  assert_unexpired-passes,
}

module _ (env : Env) where
  -- What has been checked when `refresh` returns.
  pub record Refreshed (token plain_token : String) (w : World env) (response : AuthResponseDto)
      (w' : World env) : Type 0 where
    pub stored : RefreshToken
    pub found : env.prisma.find_first refresh_token (may_use env token) [] w.db ≡ some stored
    pub u : User
    pub owner : env.prisma.find_first user (λ (x : User). x.id == stored.user_id) [] w.db ≡ some u
    pub fresh : leb stored.expires_at w.now ≡ false
    pub enabled : u.active ≡ true
    pub member : (assert_membership env stored.user_id stored.tenant_id w).0 ≡ ok tt
    pub w₁ : World env
    pub issued : Issued env u stored.tenant_id plain_token w response w₁
    pub replacement : RefreshToken
    pub stored_replacement :
        env.prisma.find_first refresh_token (holds_token env response.refresh_token) [] w₁.db
        ≡ some replacement
    pub w₂ : World env
    pub won : rotate env stored.id replacement.id w₁ ≡ (ok 1, w₂)
    pub revoked : revoke_access_tokens env stored.user_id w₂ ≡ (ok tt, w')

  settle-won :
      (stored : RefreshToken) (replacement_id : String) (n : ℕ) (w : World env)
      → Returns
          (λ _ w'. (n ≡ 1) × (revoke_access_tokens env stored.user_id w ≡ (ok tt, w')))
          (settle_rotation env stored replacement_id n w)
  unfolding settle_rotation
  settle-won stored replacement_id n w = elim (Bool-cases (eqb n 1)) [
    | inl one ↦ rw one (record { holds = λ _ w' e. (ground arith, e) })
    | inr other ↦
        rw other (Returns-bind (revoke env replacement_id) _ w λ r w₁ _. Returns-throw _ w₁)
  ]

  module _ (prisma : PrismaLaws env.prisma) where
    pub refresh-Refreshed :
        (token plain_token : String) (meta : AuthRequestMeta) (w : World env)
        → Returns (Refreshed token plain_token w) (refresh env token meta plain_token w)
    unfolding refresh
    refresh-Refreshed token plain_token meta w =
        Returns-read (usable_token env token) _ w (usable_token_state env token w) λ stored a.
          Returns-read (find_or_throw env user (λ x. x.id == stored.user_id)) _ w
            (find_or_throw_state env user _ w)
            λ u b.
              Returns-read (assert_unexpired env stored) _ w (assert_unexpired_state env stored w)
                λ _ c. Returns-read (throw_if (not u.active) _) _ w (throw_if_state _ _ w) λ _ d.
                  Returns-read (assert_membership env stored.user_id stored.tenant_id) _ w
                    (assert_membership_state env _ _ w)
                    λ _ m.
                      Returns-bind (issue_auth_response env u stored.tenant_id meta plain_token) _ w
                        λ response w₁ i.
                          Returns-read
                            (find_or_throw env refresh_token
                              (holds_token env response.refresh_token))
                            _ w₁ (find_or_throw_state env refresh_token _ w₁)
                            λ replacement r.
                              Returns-bind (rotate env stored.id replacement.id) _ w₁
                                λ n w₂ rotated.
                                  Returns-bind (settle_rotation env stored replacement.id n) _ w₂
                                    λ _ w₃ settled. record {
                                      holds = λ response' w' e.
                                          let (same, end) = pure-eq-ok _ _ _ _ e in
                                          let (one, done) =
                                            (settle-won stored replacement.id n w₂).holds tt w₃
                                              settled in
                                          let result : Refreshed token plain_token w response w₃ =
                                            record {
                                              stored = stored;
                                              found = usable_token-found env token w w stored a;
                                              u = u;
                                              owner = (find_or_throw-found env user _ w w u b).0;
                                              fresh = assert_unexpired-passes env stored w w c;
                                              enabled = ground (
                                                arith,
                                                throw_if-passes env (not u.active) _ w w d,
                                              );
                                              member = ap (λ x. x.0) m;
                                              w₁ = w₁;
                                              issued =
                                                  (issue_auth_response-Issued env prisma u
                                                      stored.tenant_id plain_token meta w).holds
                                                    response w₁ i;
                                              replacement = replacement;
                                              stored_replacement =
                                                  (find_or_throw-found env refresh_token _ w₁ w₁
                                                    replacement r).0;
                                              w₂ = w₂;
                                              won = rotated ∙ ap (λ k. (ok k, w₂)) one;
                                              revoked = done;
                                            } in
                                          subst (λ v. Refreshed token plain_token w response' v) end
                                            (subst (λ x. Refreshed token plain_token w x w₃) same
                                              result);
                                    }
