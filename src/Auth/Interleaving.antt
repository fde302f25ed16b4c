-- ===== src/Auth/Interleaving.antt =====
-- Calls of src/auth/auth.service.ts that run at the same time: their accesses to the table of the
-- refresh tokens in any order, with anything else that leaves that table alone between them.
use nestjs_scaffold.Base.{
  ℕ, ◌+◌, ◌-◌, ◌*◌, ◌≤◌, String, Bool, true, false, some, [], ◌≡◌, ◌≢◌, ap, ◌∙◌, arith, ◌==◌, ◌&&◌,
  eq_iff, count-le, count-false, count-ext, subst,
}
use nestjs_scaffold.Exec.{ok}
use nestjs_scaffold.Schema.{RefreshToken, refresh_token}
use nestjs_scaffold.Prisma.Laws.{PrismaLaws, tally}
use nestjs_scaffold.Env.{Env, World}
use nestjs_scaffold.Env.Writes.{write-eq-ok}
use nestjs_scaffold.Auth.Tokens.{
  AuthRequestMeta, is_unrevoked, is_stale, new_token, create_refresh_token, rotate, revoke,
  cleanup_expired_tokens,
}
use nestjs_scaffold.Auth.Rotation.{rotate-tally}

module _ (env : Env) where
  abbrev pub stored_under : String → RefreshToken → Bool
  stored_under id r = r.id == id

  abbrev pub unrevoked_under : String → RefreshToken → Bool
  unrevoked_under id r = r.id == id && is_unrevoked r

  -- One access, with the number of rows that it has rotated of a given token.
  pub data Move (id : String) : ℕ → World env → World env → Type 0 where
    rotated :
        (replacement_id : String) (n : ℕ) (w w' : World env)
        → rotate env id replacement_id w ≡ (ok n, w')
        → Move id n w w'
    rotated_other :
        (other replacement_id : String) (n : ℕ) (w w' : World env)
        → other ≢ id
        → rotate env other replacement_id w ≡ (ok n, w')
        → Move id 0 w w'
    issued :
        (user_id tenant_id plain_token : String) (meta : AuthRequestMeta) (r : RefreshToken)
        (w w' : World env)
        → create_refresh_token env user_id tenant_id meta plain_token w ≡ (ok r, w')
        → r.id ≢ id
        → Move id 0 w w'
    revoked :
        (other : String) (r : RefreshToken) (w w' : World env)
        → tally env.prisma refresh_token (stored_under other) w.db ≤ 1
        → revoke env other w ≡ (ok r, w')
        → Move id 0 w w'
    cleaned : (w w' : World env) → cleanup_expired_tokens env w ≡ (ok tt, w') → Move id 0 w w'
    elsewhere :
        (w w' : World env)
        → ((q : RefreshToken → Bool)
            → tally env.prisma refresh_token q w'.db ≡ tally env.prisma refresh_token q w.db)
        → Move id 0 w w'

  -- Some accesses, with the number of rows that they have rotated of the token.
  pub data Run (id : String) : ℕ → World env → World env → Type 0 where
    done : (w : World env) → Run id 0 w w
    after : (m n : ℕ) (w w₁ w' : World env) → Run id m w w₁ → Move id n w₁ w' → Run id (m + n) w w'

  module _ (prisma : PrismaLaws env.prisma) (id : String) where
    rotated-bounded :
        (replacement_id : String) (n : ℕ) (w w' : World env)
        → rotate env id replacement_id w ≡ (ok n, w')
        → n + tally env.prisma refresh_token (unrevoked_under id) w'.db
          ≤ tally env.prisma refresh_token (unrevoked_under id) w.db
    rotated-bounded replacement_id n w w' e =
        let (all, counted) = rotate-tally env prisma id replacement_id n w w' e in
        let rows = env.prisma.find_many refresh_token (λ _. true) [] w.db in
        let gone : tally env.prisma refresh_token (unrevoked_under id) w'.db ≡ 0 =
          counted (unrevoked_under id)
          ∙ count-ext _ (λ _. false) rows (λ r. ground arith)
          ∙ count-false rows in
        omega (arith, all, gone)

    rotated_other-bounded :
        (other replacement_id : String) (n : ℕ) (w w' : World env)
        → other ≢ id
        → rotate env other replacement_id w ≡ (ok n, w')
        → tally env.prisma refresh_token (unrevoked_under id) w'.db
          ≤ tally env.prisma refresh_token (unrevoked_under id) w.db
    rotated_other-bounded other replacement_id n w w' apart e =
        let (_, counted) = rotate-tally env prisma other replacement_id n w w' e in
        rw (counted (unrevoked_under id)) (
          count-le _ (unrevoked_under id) (env.prisma.find_many refresh_token (λ _. true) [] w.db)
            (λ r. ground arith))

    issued-bounded :
        (user_id tenant_id plain_token : String) (meta : AuthRequestMeta) (r : RefreshToken)
        (w w' : World env)
        → create_refresh_token env user_id tenant_id meta plain_token w ≡ (ok r, w')
        → r.id ≢ id
        → tally env.prisma refresh_token (unrevoked_under id) w'.db
          ≤ tally env.prisma refresh_token (unrevoked_under id) w.db
    unfolding create_refresh_token
    issued-bounded user_id tenant_id plain_token meta r w w' e apart =
        let row_of = new_token env user_id tenant_id meta plain_token w.now in
        let (_, counted) =
          prisma.create-tally refresh_token row_of w.db r w'.db
            (write-eq-ok env (env.prisma.create refresh_token row_of) w w' r e) in
        ground (arith, counted (unrevoked_under id), eq_iff r.id id)

    revoked-bounded :
        (other : String) (r : RefreshToken) (w w' : World env)
        → tally env.prisma refresh_token (stored_under other) w.db ≤ 1
        → revoke env other w ≡ (ok r, w')
        → tally env.prisma refresh_token (unrevoked_under id) w'.db
          ≤ tally env.prisma refresh_token (unrevoked_under id) w.db
    unfolding revoke
    revoked-bounded other r w w' unique e =
        let set =
          λ (x : RefreshToken). let y : RefreshToken = record x { revoked_at = some w.now } in y in
        rw
          (prisma.update-tally refresh_token (stored_under other) set w.db r w'.db
            (write-eq-ok env (env.prisma.update refresh_token (stored_under other) set) w w' r e)
            unique (unrevoked_under id))
          (count-le _ (unrevoked_under id) (env.prisma.find_many refresh_token (λ _. true) [] w.db)
            (λ r. ground arith))

    cleaned-bounded :
        (w w' : World env)
        → cleanup_expired_tokens env w ≡ (ok tt, w')
        → tally env.prisma refresh_token (unrevoked_under id) w'.db
          ≤ tally env.prisma refresh_token (unrevoked_under id) w.db
    unfolding cleanup_expired_tokens
    cleaned-bounded w w' e =
        let old = is_stale env (w.now - 30 * 86400000) in
        subst
          (λ d.
            tally env.prisma refresh_token (unrevoked_under id) d
            ≤ tally env.prisma refresh_token (unrevoked_under id) w.db)
          (ap (λ x. x.1.db) e)
          (rw (prisma.delete_many-tally refresh_token old (unrevoked_under id) w.db) (
            count-le _ (unrevoked_under id) (env.prisma.find_many refresh_token (λ _. true) [] w.db)
              (λ r. ground arith)))

    Move-bounded :
        (n : ℕ) (w w' : World env)
        → Move id n w w'
        → n + tally env.prisma refresh_token (unrevoked_under id) w'.db
          ≤ tally env.prisma refresh_token (unrevoked_under id) w.db
    Move-bounded _ _ _ (rotated s n w w' e) = rotated-bounded s n w w' e
    Move-bounded _ _ _ (rotated_other o s k w w' a e) =
        omega (arith, rotated_other-bounded o s k w w' a e)
    Move-bounded _ _ _ (issued u t p m r w w' e a) =
        omega (arith, issued-bounded u t p m r w w' e a)
    Move-bounded _ _ _ (revoked o r w w' u e) = omega (arith, revoked-bounded o r w w' u e)
    Move-bounded _ _ _ (cleaned w w' e) = omega (arith, cleaned-bounded w w' e)
    Move-bounded _ _ _ (elsewhere w w' same) = omega (arith, same (unrevoked_under id))

    Run-bounded :
        (n : ℕ) (w w' : World env)
        → Run id n w w'
        → n + tally env.prisma refresh_token (unrevoked_under id) w'.db
          ≤ tally env.prisma refresh_token (unrevoked_under id) w.db
    Run-bounded _ _ _ (done w) = omega arith
    Run-bounded _ _ _ (after m n w w₁ w' run move) =
        omega (arith, Run-bounded m w w₁ run, Move-bounded n w₁ w' move)

    -- However the rotations, issues, revocations and clean-ups of concurrent calls interleave, the
    -- rotations of a token whose id is unique in the table revoke one row at most, all together, and
    -- no more than were unrevoked at the start. New tokens get other ids, and a revocation is of an
    -- id that is unique.
    pub rotations_interleaved :
        (n : ℕ) (w w' : World env)
        → tally env.prisma refresh_token (stored_under id) w.db ≤ 1
        → Run id n w w'
        → (n ≤ 1) × (n ≤ tally env.prisma refresh_token (unrevoked_under id) w.db)
    rotations_interleaved n w w' unique run =
        let some_left =
          count-le (unrevoked_under id) (stored_under id)
            (env.prisma.find_many refresh_token (λ _. true) [] w.db) (λ r. ground arith) in
        (
          omega (arith, Run-bounded n w w' run, some_left, unique),
          omega (arith, Run-bounded n w w' run),
        )
