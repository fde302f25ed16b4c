-- ===== src/Guards/Decisions.antt =====
-- What the guards of src/common/guards let through.
use nestjs_scaffold.Base.{String, true, some, List, ◌∷◌, ◌≡◌, ◌↔◌, ◌⊎◌, arith, any, includes}
use nestjs_scaffold.Constants.{system_admin_role}
use nestjs_scaffold.Exec.{ok}
use nestjs_scaffold.Env.{Env, World, UserAccess}
use nestjs_scaffold.Access.{get_user_access}
use nestjs_scaffold.Guards.{RequestUser, permissions_guard, roles_guard}

module _ (env : Env) where
  -- A route that requires permissions lets an authenticated user through exactly if the user's
  -- access has one of them or the role of a system administrator.
  pub permissions_guard_iff :
      (p : String) (required : List String) (u : RequestUser) (a : UserAccess) (w : World env)
      → (get_user_access env u.sub u.tenant_id w).0 ≡ ok a
      → ((permissions_guard env (p ∷ required) (some u) w).0 ≡ ok true) ↔ (
          (includes a.roles system_admin_role ≡ true)
          ⊎ (any (includes a.permissions) (p ∷ required) ≡ true))
  unfolding permissions_guard
  permissions_guard_iff p required u a w read = ground arith

  -- A route that requires roles lets an authenticated user through exactly if the user's access has
  -- one of them or the role of a system administrator.
  pub roles_guard_iff :
      (r : String) (required : List String) (u : RequestUser) (a : UserAccess) (w : World env)
      → (get_user_access env u.sub u.tenant_id w).0 ≡ ok a
      → ((roles_guard env (r ∷ required) (some u) w).0 ≡ ok true) ↔ (
          (includes a.roles system_admin_role ≡ true)
          ⊎ (any (includes a.roles) (r ∷ required) ≡ true))
  unfolding roles_guard
  roles_guard_iff r required u a w read = ground arith
