-- ===== src/Http/Protection.antt =====
-- What a request has to be to get through the guards of src/app.module.ts.
use nestjs_scaffold.Base.{
  String, Bool, true, false, not, Option, some, List, [], ◌∷◌, ◌≡◌, ◌⊎◌, inl, inr, refl, sym, ap,
  ◌∙◌, subst, arith, any, includes, Bool-cases, Option-cases,
}
use nestjs_scaffold.Constants.{system_admin_role}
use nestjs_scaffold.Exec.{
  ok, throw_if, forbidden, Returns, Returns-bind, Returns-read, Returns-throw, pure-eq-ok,
  throw_if_state,
}
use nestjs_scaffold.Env.{Env, World, Action, UserAccess}
use nestjs_scaffold.Access.{get_user_access}
use nestjs_scaffold.RedisService.{get}
use nestjs_scaffold.Guards.{roles_guard, permissions_guard, tenant_guard}
use nestjs_scaffold.Auth.Tokens.{AuthenticatedUser, validate, check_stamps}
use nestjs_scaffold.Auth.Checks.{throw_if-passes}
use nestjs_scaffold.Http.Context.{HttpRequest}
use nestjs_scaffold.Http.Pipeline.{
  Route, request_user, jwt_auth_guard, authorize, serve, db-authorize, validate_state,
}

module _ (env : Env) where
  validate-active :
      (payload u : AuthenticatedUser) (w w' : World env)
      → validate env payload w ≡ (ok u, w')
      → (payload.active ≡ true) × (u ≡ payload)
  unfolding validate check_stamps get
  validate-active payload u w w' e = ground arith

  -- The user of a route that is not public.
  jwt_auth_guard-Returns :
      (route : Route) (req : HttpRequest) (w : World env)
      → route.is_public ≡ false
      → Returns
          (λ user w'.
            (u : AuthenticatedUser) × (user ≡ some u)
            × (req.token ≡ some u)
            × (u.active ≡ true)
            × (w' ≡ w))
          (jwt_auth_guard env route req w)
  unfolding jwt_auth_guard
  jwt_auth_guard-Returns route req w closed = elim (Option-cases req.token) [
    | inl missing ↦ rw (closed, missing) (Returns-throw _ w)
    | inr (payload, there) ↦
        rw (closed, there)
          (Returns-read (validate env payload) _ w (validate_state env payload w) λ u v. record {
            holds = λ user w' e.
                let (same, end) = pure-eq-ok _ _ _ _ e in
                let (active, own) = validate-active payload u w w v in
                (payload, sym same ∙ ap some own, refl, active, sym end);
          })
  ]

  -- The access with which a route that requires permissions has been passed.
  pub record IsPermitted (required : List String) (u : AuthenticatedUser) (w : World env)
      (w' : World env) : Type 0 where
    pub access : UserAccess
    pub read : get_user_access env u.sub u.tenant_id w ≡ (ok access, w')
    pub granted :
        (includes access.roles system_admin_role ≡ true)
        ⊎ (any (includes access.permissions) required ≡ true)

  permissions_guard-IsPermitted :
      (p : String) (required : List String) (u : AuthenticatedUser) (w : World env)
      → Returns
          (λ _ w'. IsPermitted (p ∷ required) u w w')
          (permissions_guard env (p ∷ required) (request_user (some u)) w)
  unfolding permissions_guard
  permissions_guard-IsPermitted p required u w =
      Returns-bind (get_user_access env u.sub u.tenant_id) _ w λ access w₁ read.
        elim (Bool-cases (includes access.roles system_admin_role)) [
          | inl admin ↦ rw admin (record {
            holds = λ b w' e.
                let (_, end) = pure-eq-ok true b w₁ w' e in
                record {
                  access = access;
                  read = read ∙ (λ i. (ok access, end i));
                  granted = inl admin;
                };
          })
          | inr other ↦ rw other (
              Returns-read
                (throw_if (not (any (includes access.permissions) (p ∷ required)))
                  (forbidden "Insufficient permission"))
                _ w₁ (throw_if_state _ _ w₁)
                λ _ passed. record {
                  holds = λ b w' e.
                      let (_, end) = pure-eq-ok true b w₁ w' e in
                      record {
                        access = access;
                        read = read ∙ (λ i. (ok access, end i));
                        granted = inr (
                            ground (
                              arith,
                              throw_if-passes env
                                  (not (any (includes access.permissions) (p ∷ required)))
                                  (forbidden "Insufficient permission") w₁ w₁ passed,
                            ));
                      };
                })
        ]

  -- The access with which a route has passed the guard of the roles, where it requires any.
  abbrev pub IsHeld : List String → AuthenticatedUser → World env → Type 0
  IsHeld required u w' =
      (required ≡ [])
      ⊎ ((access : UserAccess) × (w : World env) × (get_user_access env u.sub u.tenant_id w
            ≡ (ok access, w'))
          × ((includes access.roles system_admin_role ≡ true)
              ⊎ (any (includes access.roles) required ≡ true)))

  roles_guard-IsHeld :
      (required : List String) (u : AuthenticatedUser) (w : World env)
      → Returns (λ _ w'. IsHeld required u w') (roles_guard env required (request_user (some u)) w)
  unfolding roles_guard
  roles_guard-IsHeld [] u w = record { holds = λ b w' e. inl refl }
  roles_guard-IsHeld (r ∷ required) u w =
      Returns-bind (get_user_access env u.sub u.tenant_id) _ w λ access w₁ read.
        elim (Bool-cases (includes access.roles system_admin_role)) [
          | inl admin ↦ rw admin (record {
            holds = λ b w' e.
                let (_, end) = pure-eq-ok true b w₁ w' e in
                inr (access, w, read ∙ (λ i. (ok access, end i)), inl admin);
          })
          | inr other ↦ rw other (
              Returns-read
                (throw_if (not (any (includes access.roles) (r ∷ required)))
                  (forbidden "Insufficient role"))
                _ w₁ (throw_if_state _ _ w₁)
                λ _ passed. record {
                  holds = λ b w' e.
                      let (_, end) = pure-eq-ok true b w₁ w' e in
                      inr (
                        access,
                        w,
                        read ∙ (λ i. (ok access, end i)),
                        inr (
                            ground (
                              arith,
                              throw_if-passes env (not (any (includes access.roles) (r ∷ required)))
                                  (forbidden "Insufficient role") w₁ w₁ passed,
                            )),
                      );
                })
        ]

  guarded-IsHeld :
      (required : List String) (user : Option AuthenticatedUser) (u : AuthenticatedUser) (b : Bool)
      (w w' : World env)
      → user ≡ some u
      → roles_guard env required (request_user user) w ≡ (ok b, w')
      → IsHeld required u w'
  guarded-IsHeld required user u b w w' is_u m =
      (roles_guard-IsHeld required u w).holds b w'
        (sym (λ i. roles_guard env required (request_user (is_u i)) w) ∙ m)

  required-IsPermitted :
      (required : List String) (user : Option AuthenticatedUser) (p : String) (others : List String)
      (u : AuthenticatedUser) (b : Bool) (w w' : World env)
      → required ≡ p ∷ others
      → user ≡ some u
      → permissions_guard env required (request_user user) w ≡ (ok b, w')
      → IsPermitted required u w w'
  required-IsPermitted required user p others u b w w' needs is_u m =
      subst (λ qs. IsPermitted qs u w w') (sym needs)
        ((permissions_guard-IsPermitted p others u w).holds b w'
          (sym (λ i. permissions_guard env (needs i) (request_user (is_u i)) w) ∙ m))

  -- How a request has come through the guards to the method: the user is that of its token, active,
  -- and permitted; and nothing has been written to the database.
  pub record IsServed {A : Type 0} (route : Route) (req : HttpRequest)
      (method : Option AuthenticatedUser → Action env A) (w : World env) (a : A) (w' : World env)
      : Type 0 where
    pub u : AuthenticatedUser
    pub token : req.token ≡ some u
    pub active : u.active ≡ true
    pub before : World env
    pub after : World env
    pub held : IsHeld route.roles u before
    pub permitted : IsPermitted route.permissions u before after
    pub unwritten : after.db ≡ w.db
    pub ran : method (some u) after ≡ (ok a, w')

  authorize-Returns :
      (route : Route) (req : HttpRequest) (p : String) (required : List String) (w : World env)
      → route.is_public ≡ false
      → route.permissions ≡ p ∷ required
      → Returns
          (λ user w'.
            (u : AuthenticatedUser) × (before : World env) × (user ≡ some u)
            × (req.token ≡ some u)
            × (u.active ≡ true)
            × IsHeld route.roles u before
            × IsPermitted route.permissions u before w')
          (authorize env route req w)
  unfolding authorize
  authorize-Returns route req p required w closed needs =
      Returns-bind (jwt_auth_guard env route req) _ w λ user w₁ j.
        Returns-bind (tenant_guard env route.tenant_required (request_user user)) _ w₁ λ _ w₂ _.
          Returns-bind (roles_guard env route.roles (request_user user)) _ w₂ λ d w₃ roled.
            Returns-bind (permissions_guard env route.permissions (request_user user)) _ w₃
              λ b w₄ m. record {
                holds = λ user' w' e.
                    let (same, end) = pure-eq-ok user user' w₄ w' e in
                    let (u, is_u, token, active, _) =
                      (jwt_auth_guard-Returns route req w closed).holds user w₁ j in
                    let permitted =
                      required-IsPermitted route.permissions user p required u b w₃ w₄ needs is_u
                        m in
                    (
                      u,
                      w₃,
                      sym same ∙ is_u,
                      token,
                      active,
                      guarded-IsHeld route.roles user u d w₂ w₃ is_u roled,
                      subst (λ v. IsPermitted route.permissions u w₃ v) end permitted,
                    );
              }

  serve-Returns :
      {A : Type 0} (route : Route) (req : HttpRequest)
      (method : Option AuthenticatedUser → Action env A) (p : String) (required : List String)
      (w : World env)
      → route.is_public ≡ false
      → route.permissions ≡ p ∷ required
      → Returns (IsServed route req method w) (serve env route req method w)
  unfolding serve
  serve-Returns route req method p required w closed needs =
      Returns-bind (authorize env route req) method w λ user w₁ through. record {
        holds = λ a w' e.
            let (u, before, is_u, token, active, held, permitted) =
              (authorize-Returns route req p required w closed needs).holds user w₁ through in
            record {
              u = u;
              token = token;
              active = active;
              before = before;
              after = w₁;
              held = held;
              permitted = permitted;
              unwritten = sym (ap (λ x. x.1.db) through) ∙ db-authorize env route req w;
              ran = sym (λ i. method (is_u i) w₁) ∙ e;
            };
      }

  -- A method behind permissions runs only for a request whose token is that of an active user who
  -- has one of them, and one of the roles of the method where it names any, or has the role of a
  -- system administrator, in the token's tenant; and the guards have written nothing to the database
  -- before it runs.
  pub serve-IsServed :
      {A : Type 0} (route : Route) (req : HttpRequest)
      (method : Option AuthenticatedUser → Action env A) (p : String) (required : List String)
      (w w' : World env) (a : A)
      → route.is_public ≡ false
      → route.permissions ≡ p ∷ required
      → serve env route req method w ≡ (ok a, w')
      → IsServed route req method w a w'
  serve-IsServed route req method p required w w' a closed needs e =
      (serve-Returns route req method p required w closed needs).holds a w' e

  -- Who gets to a method that requires a permission: the user of the token, who is active and has it,
  -- or is a system administrator, in the token's tenant.
  pub record IsAllowed (required : List String) (req : HttpRequest) : Type 0 where
    pub u : AuthenticatedUser
    pub token : req.token ≡ some u
    pub active : u.active ≡ true
    pub before : World env
    pub after : World env
    pub permitted : IsPermitted required u before after

  pub serve-IsAllowed :
      {A : Type 0} (route : Route) (req : HttpRequest)
      (method : Option AuthenticatedUser → Action env A) (code : String) (w w' : World env) (a : A)
      → route.is_public ≡ false
      → route.permissions ≡ code ∷ []
      → serve env route req method w ≡ (ok a, w')
      → IsAllowed (code ∷ []) req
  serve-IsAllowed route req method code w w' a closed needs e =
      let x = serve-IsServed route req method code [] w w' a closed needs e in
      record {
        u = x.u;
        token = x.token;
        active = x.active;
        before = x.before;
        after = x.after;
        permitted = subst (λ ps. IsPermitted ps x.u x.before x.after) needs x.permitted;
      }
