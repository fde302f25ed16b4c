-- ===== src/Roles/Definitions.antt =====
-- Which roles src/roles/roles.service.ts lets a request change: its own tenant's, with codes of
-- their own, and never a built-in role.
use nestjs_scaffold.Base.{
  List, [], truthy, String, true, false, Option, none, some, ◌≡◌, ◌∙◌, ap, ◌≢◌, ◌⊎◌, inl, inr,
  arith, ◌==◌, ◌&&◌, eq_iff, includes, or_else, Option-cases,
}
use nestjs_scaffold.Constants.{built_in_role_codes}
use nestjs_scaffold.Exec.{Error, ok, err, forbidden, conflict, Returns, Returns-read, when}
use nestjs_scaffold.Schema.{Role, role}
use nestjs_scaffold.Prisma.Laws.{PrismaLaws}
use nestjs_scaffold.Env.{Env, World, Action}
use nestjs_scaffold.Tenancy.{current_tenant, require_tenant_id}
use nestjs_scaffold.Access.{in_scope}
use nestjs_scaffold.Roles.Checks.{assert_definition_mutable, assert_code_is_custom, find_scoped}
use nestjs_scaffold.Roles.Service.{CreateRoleDto, UpdateRoleDto, create, update, remove}
use nestjs_scaffold.Roles.Frame.{db-find_scoped}

abbrev immutable : Error
immutable = forbidden "Built-in roles cannot be modified or deleted"

module _ (env : Env) where
  -- A role that is built in or belongs to no tenant can be neither updated nor removed: both calls
  -- are refused, and they change nothing.
  pub built_in_immutable :
      (id : String) (dto : UpdateRoleDto) (r : Role) (w : World env)
      → find_scoped env id w ≡ (ok r, w)
      → (r.built_in ≡ true) ⊎ (truthy r.tenant_id ≡ false)
      → (update env id dto w ≡ (err immutable, w)) × (remove env id w ≡ (err immutable, w))
  unfolding update remove assert_definition_mutable
  built_in_immutable id dto r w found shared = ground arith

  -- No role gets a reserved code, by a creation or by an update: the call is refused, and it
  -- changes nothing.
  pub reserved_code_refused :
      (id actor_id tenant_id : String) (c : CreateRoleDto) (u : UpdateRoleDto) (r : Role)
      (w : World env)
      → require_tenant_id env w ≡ (ok tenant_id, w)
      → find_scoped env id w ≡ (ok r, w)
      → r.built_in ≡ false
      → truthy r.tenant_id ≡ true
      → truthy u.code ≡ true
      → includes built_in_role_codes c.code ≡ true
      → includes built_in_role_codes (or_else u.code "") ≡ true
      → (create env c actor_id w ≡ (err (conflict "Built-in role codes are reserved"), w))
        × (update env id u w ≡ (err (conflict "Built-in role codes are reserved"), w))
  unfolding create update assert_definition_mutable assert_code_is_custom
  reserved_code_refused id actor_id tenant_id c u r w tenant found custom own given rc ru =
      (rw (tenant, rc), rw (found, custom, own, given, ru))

  module _ (laws : PrismaLaws env.prisma) where
    found_first :
        (id : String) (r : Role) (w : World env)
        → find_scoped env id w ≡ (ok r, w)
        → (truthy (current_tenant env w) ≡ true)
          × (env.prisma.find_first role
                (λ s. s.id == id && in_scope env.prisma w.db (or_else (current_tenant env w) "") s)
                []
                w.db
              ≡ some r)
    unfolding find_scoped
    found_first id r w e = ground arith

    same_tenant :
        (t : String) (own : Option String)
        → truthy own ≡ true
        → (t == or_else own "") ≡ true
        → some t ≡ own
    same_tenant t none there e = cc
    same_tenant t (some u) there e = ap some ((eq_iff t u).0 e)

    -- A role that is found for a request has the id asked for, and is global or of the tenant of
    -- the request.
    pub find_scoped_in_tenant :
        (id : String) (r : Role) (w : World env)
        → find_scoped env id w ≡ (ok r, w)
        → (r.id ≡ id) × ((r.tenant_id ≡ none) ⊎ (r.tenant_id ≡ current_tenant env w))
    find_scoped_in_tenant id r w e =
        let (there, first) = found_first id r w e in
        let (passes, _) = laws.find_first-some role _ [] w.db r first in
        let own = or_else (current_tenant env w) "" in
        (
          (eq_iff r.id id).0 (ground arith),
          elim (Option-cases r.tenant_id) [
            | inl global ↦ inl global
            | inr (t, of) ↦
                let same : (t == own) ≡ true = ground arith in
                inr (of ∙ same_tenant t (current_tenant env w) there same)
          ],
        )

    mutable_state : (r : Role) (w : World env) → (assert_definition_mutable env r w).1 ≡ w
    unfolding assert_definition_mutable
    mutable_state r w = ground arith

    mutable_role :
        (r : Role) (w : World env)
        → assert_definition_mutable env r w ≡ (ok tt, w)
        → (r.tenant_id ≢ none) × (r.built_in ≡ false)
    unfolding assert_definition_mutable
    mutable_role r w e = ground arith

    abbrev check_code : UpdateRoleDto → Action env Unit
    check_code dto = when (truthy dto.code) (assert_code_is_custom env (or_else dto.code ""))

    custom_state : (dto : UpdateRoleDto) (w : World env) → (check_code dto w).1 ≡ w
    unfolding assert_code_is_custom
    custom_state dto w = ground arith

    custom_code :
        (dto : UpdateRoleDto) (w : World env)
        → check_code dto w ≡ (ok tt, w)
        → (truthy dto.code && includes built_in_role_codes (or_else dto.code "")) ≡ false
    unfolding assert_code_is_custom
    custom_code dto w e = ground arith

    update_own :
        (id : String) (dto : UpdateRoleDto) (w : World env)
        → Returns
            (λ _ _.
              (r : Role) × (find_scoped env id w ≡ (ok r, w))
              × (r.built_in ≡ false)
              × (r.tenant_id ≡ current_tenant env w)
              × ((truthy dto.code && includes built_in_role_codes (or_else dto.code "")) ≡ false))
            (update env id dto w)
    unfolding update
    update_own id dto w = Returns-read (find_scoped env id) _ w (db-find_scoped env id w) λ r found.
        Returns-read (assert_definition_mutable env r) _ w (mutable_state r w) λ _ mutable.
          Returns-read (check_code dto) _ w (custom_state dto w) λ _ custom. record {
            holds = λ _ w' e.
                let (own, not_built_in) = mutable_role r w mutable in
                (
                  r,
                  found,
                  not_built_in,
                  elim (find_scoped_in_tenant id r w found).1 [
                    | inl global ↦ absurd (own global)
                    | inr same ↦ same
                  ],
                  custom_code dto w custom,
                );
          }

    -- When an update returns, the role was a custom role of the request's own tenant, and no
    -- reserved code has been asked for.
    pub update_own_tenant :
        (id : String) (dto : UpdateRoleDto) (w w' : World env) (a : Role × List String)
        → update env id dto w ≡ (ok a, w')
        → (r : Role) × (find_scoped env id w ≡ (ok r, w))
          × (r.built_in ≡ false)
          × (r.tenant_id ≡ current_tenant env w)
          × ((truthy dto.code && includes built_in_role_codes (or_else dto.code "")) ≡ false)
    update_own_tenant id dto w w' a e = (update_own id dto w).holds a w' e
