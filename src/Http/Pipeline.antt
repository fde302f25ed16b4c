-- ===== src/Http/Pipeline.antt =====
-- The guards that src/app.module.ts lists, in their order, before the method of a controller runs. The
-- throttling guard, which comes first, is of @nestjs/throttler.
use nestjs_scaffold.Base.{
  ℕ, String, Bool, true, false, Option, none, some, List, [], ◌∷◌, ◌≡◌, inl, inr, refl, ap, ◌∙◌,
  arith, if◌then◌else◌, Bool-cases,
}
use nestjs_scaffold.Exec.{
  Result, ok, err, continue, ◌>>=◌, ◌>>◌, pure, or_throw, unauthorized, failure,
}
use nestjs_scaffold.Env.{Env, World, Action}
use nestjs_scaffold.Tenancy.{set_tenant_id}
use nestjs_scaffold.RedisService.{get}
use nestjs_scaffold.Roles.Frame.{db-get_user_access}
use nestjs_scaffold.Guards.{RequestUser, roles_guard, permissions_guard, tenant_guard}
use nestjs_scaffold.Auth.Tokens.{AuthenticatedUser, validate, check_issued, check_stamps}
use nestjs_scaffold.Http.Context.{HttpRequest}

-- What the decorators of a method, or else of its controller, say.
pub record Route : Type 0 where
  pub is_public : Bool
  pub tenant_required : Bool
  pub roles : List String
  pub permissions : List String

-- `@Permissions(code)` on a method of a controller without other decorators
abbrev pub requires : String → Route
requires code = record {
  is_public = false;
  tenant_required = true;
  roles = [];
  permissions = code ∷ [];
}

abbrev pub request_user : Option AuthenticatedUser → Option RequestUser
request_user none = none
request_user (some u) = some (record { sub = u.sub; tenant_id = u.tenant_id })

module _ (env : Env) where
  -- `JwtAuthGuard.canActivate`, with the user that it leaves in the request
  unfoldable pub jwt_auth_guard : Route → HttpRequest → Action env (Option AuthenticatedUser)
  jwt_auth_guard route req = if route.is_public then pure none else (do
    payload ← or_throw req.token (unauthorized "Unauthorized")
    user ← validate env payload
    pure (some user))

  -- The guards in the order of the providers.
  unfoldable pub authorize : Route → HttpRequest → Action env (Option AuthenticatedUser)
  authorize route req = do
    user ← jwt_auth_guard route req
    tenant_guard env route.tenant_required (request_user user)
    roles_guard env route.roles (request_user user)
    permissions_guard env route.permissions (request_user user)
    pure user

  unfoldable pub serve :
      {A : Type 0} → Route → HttpRequest → (Option AuthenticatedUser → Action env A) → Action env A
  serve route req method = do user ← authorize route req; method user

  -- `user.sub` of `@CurrentUser()`
  abbrev pub current_user : Option AuthenticatedUser → Action env AuthenticatedUser
  current_user user = or_throw user (failure "Cannot read properties of undefined (reading 'sub')")

  continued :
      {A B : Type 0} (r : Result A) (f : A → Action env B) (v w : World env)
      → v.db ≡ w.db
      → ((a : A) (u : World env) → (f a u).1.db ≡ u.db)
      → (continue r f v).1.db ≡ w.db
  continued (ok a) f v w first next = next a v ∙ first
  continued (err e) f v w first next = first

  -- Two calls that leave the database as it is, one after the other.
  db-bind :
      {A B : Type 0} (m : Action env A) (f : A → Action env B) (w : World env)
      → (m w).1.db ≡ w.db
      → ((a : A) (u : World env) → (f a u).1.db ≡ u.db)
      → ((m >>= f) w).1.db ≡ w.db
  db-bind m f w first next = continued (m w).0 f (m w).1 w first next

  check_issued_state :
      (payload : AuthenticatedUser) (iat : Option ℕ) (w : World env)
      → (check_issued env payload iat w).1 ≡ w
  unfolding check_stamps get
  check_issued_state payload none w = refl
  check_issued_state payload (some iat) w = ground arith

  pub validate_state :
      (payload : AuthenticatedUser) (w : World env) → (validate env payload w).1 ≡ w
  unfolding validate
  validate_state payload w = ground (arith, check_issued_state payload payload.iat w)

  db-jwt_auth_guard :
      (route : Route) (req : HttpRequest) (w : World env) → (jwt_auth_guard route req w).1.db ≡ w.db
  unfolding jwt_auth_guard
  db-jwt_auth_guard route req w = elim (Bool-cases route.is_public) [
    | inl open_route ↦ rw open_route refl
    | inr closed ↦ rw closed (
        db-bind (or_throw req.token (unauthorized "Unauthorized")) _ w (ground arith) λ payload u.
          db-bind (validate env payload) _ u
            (ap (λ (v : World env). v.db) (validate_state payload u)) λ _ _. refl)
  ]

  pub db-tenant_guard :
      (required : Bool) (user : Option RequestUser) (w : World env)
      → (tenant_guard env required user w).1.db ≡ w.db
  unfolding tenant_guard set_tenant_id
  db-tenant_guard required user w = ground arith

  pub db-roles_guard :
      (required : List String) (user : Option RequestUser) (w : World env)
      → (roles_guard env required user w).1.db ≡ w.db
  unfolding roles_guard
  db-roles_guard [] user w = refl
  db-roles_guard (r ∷ required) none w = refl
  db-roles_guard (r ∷ required) (some u) w =
      ground (arith, db-get_user_access env u.sub u.tenant_id w)

  db-permissions_guard :
      (required : List String) (user : Option RequestUser) (w : World env)
      → (permissions_guard env required user w).1.db ≡ w.db
  unfolding permissions_guard
  db-permissions_guard [] user w = refl
  db-permissions_guard (r ∷ required) none w = refl
  db-permissions_guard (r ∷ required) (some u) w =
      ground (arith, db-get_user_access env u.sub u.tenant_id w)

  pub db-authorize :
      (route : Route) (req : HttpRequest) (w : World env) → (authorize route req w).1.db ≡ w.db
  unfolding authorize
  db-authorize route req w =
      db-bind (jwt_auth_guard route req) _ w (db-jwt_auth_guard route req w) λ user u.
        db-bind (tenant_guard env route.tenant_required (request_user user)) _ u
          (db-tenant_guard _ _ u)
          λ _ v.
            db-bind (roles_guard env route.roles (request_user user)) _ v (db-roles_guard _ _ v)
              λ _ x.
                db-bind (permissions_guard env route.permissions (request_user user)) _ x
                  (db-permissions_guard _ _ x) λ _ y. refl
