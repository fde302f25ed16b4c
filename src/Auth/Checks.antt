-- ===== src/Auth/Checks.antt =====
-- The checks of src/auth/auth.service.ts that read only: what holds when they pass.
use nestjs_scaffold.Base.{
  ◌≤◌, String, Bool, true, false, some, [], ◌≡◌, refl, ap, ◌∙◌, subst, arith, ◌==◌, ◌&&◌, eq_iff,
  leb, Option-cases, inl, inr,
}
use nestjs_scaffold.Exec.{Result, ok, err, throw_if, throw_if_state, Error, pure-eq-ok, forbidden}
use nestjs_scaffold.Schema.{
  Model, Row, RefreshToken, TenantMembership, refresh_token, tenant_membership, tenant,
}
use nestjs_scaffold.Prisma.Laws.{PrismaLaws, tally}
use nestjs_scaffold.Access.{exists_row}
use nestjs_scaffold.Access.Loading.{exists_row-tally}
use nestjs_scaffold.Env.{Env, World, find_or_throw}
use nestjs_scaffold.Auth.Tokens.{is_unrevoked, hash_refresh_token}
use nestjs_scaffold.Auth.Service.{is_open, assert_membership, usable_token, assert_unexpired}

module _ (env : Env) where
  -- A row under which a token is stored, and one under which it may be used.
  abbrev pub holds_token : String → RefreshToken → Bool
  holds_token token r = r.token_hash == hash_refresh_token env token

  abbrev pub may_use : String → RefreshToken → Bool
  may_use token r = holds_token token r && is_unrevoked r

  pub usable_token_state : (token : String) (w : World env) → (usable_token env token w).1 ≡ w
  unfolding usable_token
  usable_token_state token w = ground arith

  pub find_or_throw-found :
      (m : Model) (q : Row m → Bool) (w w' : World env) (r : Row m)
      → find_or_throw env m q w ≡ (ok r, w')
      → (env.prisma.find_first m q [] w.db ≡ some r) × (w ≡ w')
  find_or_throw-found m q w w' r e = elim (Option-cases (env.prisma.find_first m q [] w.db)) [
    | inl missing ↦ cc
    | inr (r', found) ↦
        let (same, end) = pure-eq-ok r' r w w' (rw found at e) in (found ∙ ap some same, end)
  ]

  pub find_or_throw_state :
      (m : Model) (q : Row m → Bool) (w : World env) → (find_or_throw env m q w).1 ≡ w
  find_or_throw_state m q w = ground arith

  pub assert_unexpired_state :
      (stored : RefreshToken) (w : World env) → (assert_unexpired env stored w).1 ≡ w
  unfolding assert_unexpired
  assert_unexpired_state stored w = throw_if_state _ _ w

  pub assert_membership_state :
      (user_id tenant_id : String) (w : World env)
      → (assert_membership env user_id tenant_id w).1 ≡ w
  unfolding assert_membership
  assert_membership_state user_id tenant_id w = throw_if_state _ _ w

  pub usable_token-found :
      (token : String) (w w' : World env) (r : RefreshToken)
      → usable_token env token w ≡ (ok r, w')
      → env.prisma.find_first refresh_token (may_use token) [] w.db ≡ some r
  unfolding usable_token
  usable_token-found token w w' r e =
      elim (Option-cases (env.prisma.find_first refresh_token (may_use token) [] w.db)) [
        | inl missing ↦ cc
        | inr (r', found) ↦
            let (same, end) = pure-eq-ok r' r w w' (rw found at e) in found ∙ ap some same
      ]

  pub throw_if-passes :
      (b : Bool) (e : Error) (w w' : World env) → throw_if b e w ≡ (ok tt, w') → b ≡ false
  throw_if-passes false e w w' h = refl
  throw_if-passes true e w w' h = cc

  pub assert_unexpired-passes :
      (stored : RefreshToken) (w w' : World env)
      → assert_unexpired env stored w ≡ (ok tt, w')
      → leb stored.expires_at w.now ≡ false
  unfolding assert_unexpired
  assert_unexpired-passes stored w w' h = throw_if-passes _ _ w w' h

  module _ (prisma : PrismaLaws env.prisma) where
    pub assert_membership-IsMember :
        (user_id tenant_id : String) (w : World env)
        → (assert_membership env user_id tenant_id w).0 ≡ ok tt
        → (1
            ≤ tally env.prisma tenant_membership
                (λ m. m.user_id == user_id && (m.tenant_id == tenant_id && m.active))
                w.db)
          × (1 ≤ tally env.prisma tenant (λ t. t.id == tenant_id && t.active) w.db)
    unfolding assert_membership
    assert_membership-IsMember user_id tenant_id w e =
        let test = λ (m : TenantMembership).
          m.user_id == user_id && (m.tenant_id == tenant_id && is_open env w.db m) in
        elim (Option-cases (env.prisma.find_first tenant_membership test [] w.db)) [
          | inl missing ↦
              let thrown : Path (Result {0} Unit)
                  (err (forbidden "User is not a member of this tenant")) (ok tt) =
                rw missing at e in
              cc
          | inr (m, found) ↦
              let (passes, counted) =
                prisma.find_first-some tenant_membership test [] w.db m found in
              let of_tenant : m.tenant_id ≡ tenant_id = (eq_iff _ _).0 (ground arith) in
              (
                counted _ (ground arith),
                exists_row-tally env.prisma prisma tenant _ w.db (
                    subst
                      (λ i. exists_row env.prisma w.db tenant (λ t. t.id == i && t.active) ≡ true)
                      of_tenant (ground arith)),
              )
        ]
