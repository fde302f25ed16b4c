-- ===== src/Auth/Cleanup.antt =====
-- `cleanupExpiredTokens` of src/auth/auth.service.ts: what it deletes and what it keeps.
use nestjs_scaffold.Base.{
  ℕ, ◌-◌, ◌*◌, String, Bool, true, false, Option, none, some, [], ◌≡◌, refl, ◌∙◌, arith, ◌&&◌, ◌||◌,
  or_else, ltb, is_some, count-ext, count-false, if◌then◌else◌, Bool-cases, inl, inr,
}
use nestjs_scaffold.Exec.{ok}
use nestjs_scaffold.Schema.{RefreshToken, refresh_token}
use nestjs_scaffold.Prisma.Laws.{PrismaLaws, tally}
use nestjs_scaffold.Env.{Env, World}
use nestjs_scaffold.Auth.Tokens.{is_before, is_stale, cleanup_expired_tokens}
use nestjs_scaffold.Auth.Checks.{may_use}

before_unrevoked : (t : Option ℕ) (cutoff : ℕ) → is_some t ≡ false → is_before t cutoff ≡ false
before_unrevoked none cutoff absent = refl
before_unrevoked (some t) cutoff absent = cc

-- A token that was revoked before is deleted, whether it has expired or not.
revoked_before :
    (t : Option ℕ) (cutoff : ℕ) (expired : Bool)
    → (if expired || is_before t cutoff then false else is_some t && ltb (or_else t 0) cutoff)
      ≡ false
revoked_before none cutoff expired = ground arith
revoked_before (some t) cutoff expired = ground arith

module _ (env : Env) (prisma : PrismaLaws env.prisma) where
  deleted-tally :
      (w : World env) (q : RefreshToken → Bool)
      → tally env.prisma refresh_token q (cleanup_expired_tokens env w).1.db
        ≡ tally env.prisma refresh_token
            (λ r. if is_stale env (w.now - 30 * 86400000) r then false else q r)
            w.db
  unfolding cleanup_expired_tokens
  deleted-tally w q =
      prisma.delete_many-tally refresh_token (is_stale env (w.now - 30 * 86400000)) q w.db

  kept :
      (token : String) (now : ℕ) (r : RefreshToken)
      → (if is_stale env (now - 30 * 86400000) r
          then false
          else may_use env token r && ltb now r.expires_at)
        ≡ (may_use env token r && ltb now r.expires_at)
  kept token now r = elim (Bool-cases (is_some r.revoked_at)) [
    | inl revoked ↦ ground (arith, revoked)
    | inr unrevoked ↦
        ground (arith, unrevoked, before_unrevoked r.revoked_at (now - 30 * 86400000) unrevoked)
  ]

  -- The clean-up returns, leaves no token that expired or was revoked more than thirty days ago, and
  -- deletes none that may be used: neither revoked nor expired.
  pub cleanup_expired_tokens_lem :
      (token : String) (w : World env)
      → let w' = (cleanup_expired_tokens env w).1 in
        ((cleanup_expired_tokens env w).0 ≡ ok tt)
        × (tally env.prisma refresh_token (λ r. ltb r.expires_at (w.now - 30 * 86400000)) w'.db ≡ 0)
        × (tally env.prisma refresh_token
              (λ r. is_some r.revoked_at && ltb (or_else r.revoked_at 0) (w.now - 30 * 86400000))
              w'.db
            ≡ 0)
        × (tally env.prisma refresh_token (λ r. may_use env token r && ltb w.now r.expires_at) w'.db
            ≡ tally env.prisma refresh_token
                (λ r. may_use env token r && ltb w.now r.expires_at)
                w.db)
  unfolding cleanup_expired_tokens
  cleanup_expired_tokens_lem token w =
      let rows = env.prisma.find_many refresh_token (λ _. true) [] w.db in
      (
        refl,
        deleted-tally w _ ∙ count-ext _ (λ _. false) rows (λ r. ground arith) ∙ count-false rows,
        deleted-tally w _
            ∙ count-ext _ (λ _. false) rows
                (λ r.
                  revoked_before r.revoked_at (w.now - 30 * 86400000)
                    (ltb r.expires_at (w.now - 30 * 86400000)))
            ∙ count-false rows,
        deleted-tally w _ ∙ count-ext _ _ rows (λ r. kept token w.now r),
      )
