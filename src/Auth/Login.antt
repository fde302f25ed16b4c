-- ===== src/Auth/Login.antt =====
-- `login` of src/auth/auth.service.ts: who gets in, and that a refusal does not tell why.
use nestjs_scaffold.Base.{
  ◌⊎◌, ◌≤◌, String, true, false, Option, none, some, ◌≡◌, refl, ap, ◌∙◌, subst, arith, ◌==◌, ◌&&◌,
  truthy, or_else, Bool-cases, inl, inr,
}
use nestjs_scaffold.Exec.{
  Result, ok, err, Returns, Returns-bind, Returns-read, pure-eq-ok, unauthorized,
}
use nestjs_scaffold.Schema.{User, tenant_membership, tenant}
use nestjs_scaffold.Prisma.Laws.{PrismaLaws, tally}
use nestjs_scaffold.Env.{Env, World}
use nestjs_scaffold.Users.{find_by_email_with_password}
use nestjs_scaffold.Auth.Tokens.{AuthRequestMeta}
use nestjs_scaffold.Auth.Service.{
  accepts_password, check_credentials, assert_membership, resolve_requested_tenant, login,
}
use nestjs_scaffold.Auth.Responses.{LoginDto, AuthResponseDto}
use nestjs_scaffold.Auth.Issue.{Issued, issue_auth_response-Issued}
use nestjs_scaffold.Auth.Checks.{assert_membership_state, assert_membership-IsMember}

module _ (env : Env) where
  check_credentials-accepted :
      (password : String) (o : Option User) (w w' : World env) (u : User)
      → check_credentials env password o w ≡ (ok u, w')
      → (o ≡ some u) × (accepts_password env password u ≡ true)
  unfolding check_credentials
  check_credentials-accepted password none w w' u e = cc
  check_credentials-accepted password (some v) w w' u e =
      elim (Bool-cases (accepts_password env password v)) [
        | inl good ↦
            let (same, _) = pure-eq-ok v u w w' (rw good at e) in
            (ap some same, subst (λ x. accepts_password env password x ≡ true) same good)
        | inr bad ↦
            let thrown : Path (Result User × World env)
                (err (unauthorized "Invalid credentials"), w) (ok u, w') =
              rw bad at e in
            cc
      ]

  check_credentials_state :
      (password : String) (o : Option User) (w : World env)
      → (check_credentials env password o w).1 ≡ w
  unfolding check_credentials
  check_credentials_state password none w = refl
  check_credentials_state password (some u) w = ground arith

  check_credentials-refused :
      (password : String) (o : Option User) (w : World env)
      → ((u : User) → o ≡ some u → accepts_password env password u ≡ false)
      → check_credentials env password o w ≡ (err (unauthorized "Invalid credentials"), w)
  unfolding check_credentials
  check_credentials-refused password none w wrong = refl
  check_credentials-refused password (some u) w wrong = rw (wrong u refl) refl

  find_by_email_with_password_state :
      (email : String) (w : World env) → (find_by_email_with_password env email w).1 ≡ w
  unfolding find_by_email_with_password
  find_by_email_with_password_state email w = refl

  -- Who has logged in, from the state in which the tenant has been resolved.
  pub record LoggedIn (dto : LoginDto) (plain_token : String) (w : World env)
      (response : AuthResponseDto) (w' : World env) : Type 0 where
    pub tenant_id : String
    pub w₁ : World env
    pub resolved : resolve_requested_tenant env dto.tenant_slug w ≡ (ok tenant_id, w₁)
    pub u : User
    pub found : (find_by_email_with_password env dto.email w₁).0 ≡ ok (some u)
    pub accepted : accepts_password env dto.password u ≡ true
    pub member : (assert_membership env u.id tenant_id w₁).0 ≡ ok tt
    pub issued : Issued env u tenant_id plain_token w₁ response w'

  -- An unknown email, a disabled user, a user without a password and a wrong password are refused
  -- alike, once the tenant is resolved: the same error, and nothing has changed since.
  pub login_refused :
      (dto : LoginDto) (meta : AuthRequestMeta) (plain_token tenant_id : String) (o : Option User)
      (w w₁ : World env)
      → resolve_requested_tenant env dto.tenant_slug w ≡ (ok tenant_id, w₁)
      → (find_by_email_with_password env dto.email w₁).0 ≡ ok o
      → ((u : User)
          → o ≡ some u
          → (u.active ≡ false)
            ⊎ ((truthy u.password_hash ≡ false)
                ⊎ (env.compare_password dto.password (or_else u.password_hash "") ≡ false)))
      → login env dto meta plain_token w ≡ (err (unauthorized "Invalid credentials"), w₁)
  unfolding login
  login_refused dto meta plain_token tenant_id o w w₁ resolved found wrong =
      let read : find_by_email_with_password env dto.email w₁ ≡ (ok o, w₁) =
        λ i. (found i, find_by_email_with_password_state dto.email w₁ i) in
      rw
        (
          resolved,
          read,
          check_credentials-refused dto.password o w₁ (λ u there. ground (arith, wrong u there)),
        )
        refl

  module _ (prisma : PrismaLaws env.prisma) where
    login-LoggedIn :
        (dto : LoginDto) (meta : AuthRequestMeta) (plain_token : String) (w : World env)
        → Returns (LoggedIn dto plain_token w) (login env dto meta plain_token w)
    unfolding login
    login-LoggedIn dto meta plain_token w =
        Returns-bind (resolve_requested_tenant env dto.tenant_slug) _ w λ tenant_id w₁ t.
          Returns-read (find_by_email_with_password env dto.email) _ w₁
            (find_by_email_with_password_state dto.email w₁)
            λ o f.
              Returns-read (check_credentials env dto.password o) _ w₁
                (check_credentials_state dto.password o w₁)
                λ u c.
                  Returns-read (assert_membership env u.id tenant_id) _ w₁
                    (assert_membership_state env u.id tenant_id w₁)
                    λ _ m. record {
                      holds = λ response w' e.
                          let (some_u, good) =
                            check_credentials-accepted dto.password o w₁ w₁ u c in
                          record {
                            tenant_id = tenant_id;
                            w₁ = w₁;
                            resolved = t;
                            u = u;
                            found = ap (λ x. x.0) f ∙ ap ok some_u;
                            accepted = good;
                            member = ap (λ x. x.0) m;
                            issued =
                                (issue_auth_response-Issued env prisma u tenant_id plain_token meta
                                    w₁).holds
                                  response w' e;
                          };
                    }

    -- `login` returns only for an active user whose stored hash accepts the password and who is an
    -- active member of the requested tenant, which is active; the answer is for that user and tenant.
    pub login_checked :
        (dto : LoginDto) (meta : AuthRequestMeta) (plain_token : String) (w w' : World env)
        (response : AuthResponseDto)
        → login env dto meta plain_token w ≡ (ok response, w')
        → (x : LoggedIn dto plain_token w response w') × (x.u.active ≡ true)
          × (env.compare_password dto.password (or_else x.u.password_hash "") ≡ true)
          × (truthy x.u.password_hash ≡ true)
          × (1
              ≤ tally env.prisma tenant_membership
                  (λ m. m.user_id == x.u.id && (m.tenant_id == x.tenant_id && m.active))
                  x.w₁.db)
          × (1 ≤ tally env.prisma tenant (λ t. t.id == x.tenant_id && t.active) x.w₁.db)
          × (response.user.id ≡ x.u.id)
          × (response.current_tenant_id ≡ x.tenant_id)
    login_checked dto meta plain_token w w' response e =
        let x = (login-LoggedIn dto meta plain_token w).holds response w' e in
        let (member, active) =
          assert_membership-IsMember env prisma x.u.id x.tenant_id x.w₁ x.member in
        (
          x,
          ground (arith, x.accepted),
          ground (arith, x.accepted),
          ground (arith, x.accepted),
          member,
          active,
          x.issued.user,
          x.issued.current,
        )
