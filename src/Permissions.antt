-- ===== src/Permissions.antt =====
-- src/permissions/permissions.service.ts: the permissions that an actor may assign.
use nestjs_scaffold.Base.{
  String, Bool, List, [], ◌∷◌, true, false, not, ◌&&◌, ◌||◌, ◌≡◌, ◌∙◌, ap, sym, arith, includes,
  count, count-ext, count-false,
}
use nestjs_scaffold.Constants.{system_admin_role}
use nestjs_scaffold.Exec.{◌>>=◌, ok, Returns, Returns-bind, pure-eq-ok}
use nestjs_scaffold.Schema.{Permission, permission}
use nestjs_scaffold.Prisma.{asc}
use nestjs_scaffold.Prisma.Laws.{PrismaLaws, tally}
use nestjs_scaffold.Env.{Env, World, Action, UserAccess, query}
use nestjs_scaffold.Tenancy.{require_tenant_id}
use nestjs_scaffold.Access.{get_user_access}

-- The `where` of `findAll`, for the actor's access.
abbrev pub is_assignable : UserAccess → Permission → Bool
is_assignable access q =
    q.enabled && (includes access.roles system_admin_role || includes access.permissions q.code)

module _ (env : Env) where
  unfoldable pub find_all : String → Action env (List Permission)
  find_all actor_id = do
    tenant_id ← require_tenant_id env
    access ← get_user_access env actor_id tenant_id
    query env (env.prisma.find_many permission (is_assignable access) (asc "code" ∷ []))

  -- What `findAll` has answered from: the actor's access in the request's tenant, and for every test
  -- as many rows as pass it among the permissions that are enabled and that the actor holds.
  pub record IsListed (actor_id : String) (w : World env) (listed : List Permission)
      (w' : World env) : Type 0 where
    pub tenant_id : String
    pub access : UserAccess
    pub in_tenant : World env
    pub tenant : require_tenant_id env w ≡ (ok tenant_id, in_tenant)
    pub read : get_user_access env actor_id tenant_id in_tenant ≡ (ok access, w')
    pub counted :
        (q : Permission → Bool)
        → count q listed
          ≡ tally env.prisma permission
              (λ p.
                (p.enabled
                  && (includes access.roles "system_admin" || includes access.permissions p.code))
                && q p)
              w'.db
    pub enabled : count (λ p. not p.enabled) listed ≡ 0
    pub held :
        includes access.roles "system_admin" ≡ false
        → count (λ p. not (includes access.permissions p.code)) listed ≡ 0

  abbrev rows : World env → List Permission
  rows w = env.prisma.find_many permission (λ _. true) [] w.db

  module _ (prisma : PrismaLaws env.prisma) where
    find_all-Returns :
        (actor_id : String) (w : World env) → Returns (IsListed actor_id w) (find_all actor_id w)
    unfolding find_all
    find_all-Returns actor_id w = Returns-bind (require_tenant_id env) _ w λ tenant_id w₁ t.
        Returns-bind (get_user_access env actor_id tenant_id) _ w₁ λ access w₂ r. record {
          holds = λ listed w' e.
              let (same, end) = pure-eq-ok _ _ w₂ w' e in
              let answered = λ (q : Permission → Bool).
                ap (count q) (sym same)
                ∙ prisma.find_many-count permission (is_assignable access) q (asc "code" ∷ []) w₂.db
                ∙ ap
                    (λ (v : World env).
                      tally env.prisma permission (λ p. is_assignable access p && q p) v.db)
                    end in
              record {
                tenant_id = tenant_id;
                access = access;
                in_tenant = w₁;
                tenant = t;
                read = r ∙ (λ i. (ok access, end i));
                counted = answered;
                enabled =
                    answered (λ p. not p.enabled)
                    ∙ count-ext _ (λ _. false) (rows w') (λ p. ground arith)
                    ∙ count-false (rows w');
                held = λ ordinary.
                    answered (λ p. not (includes access.permissions p.code))
                    ∙ count-ext _ (λ _. false) (rows w') (λ p. ground (arith, ordinary))
                    ∙ count-false (rows w');
              };
        }

    -- The permissions that `findAll` lists are exactly those that are enabled and that the actor
    -- holds in the request's tenant, or all enabled ones for a system administrator.
    pub find_all-IsListed :
        (actor_id : String) (w w' : World env) (listed : List Permission)
        → find_all actor_id w ≡ (ok listed, w')
        → IsListed actor_id w listed w'
    find_all-IsListed actor_id w w' listed e = (find_all-Returns actor_id w).holds listed w' e
