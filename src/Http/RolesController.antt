-- ===== src/Http/RolesController.antt =====
-- src/roles/roles.controller.ts: who gets to each operation of the roles.
use nestjs_scaffold.Base.{String, Bool, true, List, [], ◌∷◌, ◌≡◌, refl}
use nestjs_scaffold.Exec.{◌>>=◌, ◌>>◌, pure, ok}
use nestjs_scaffold.Schema.{Role}
use nestjs_scaffold.Env.{Env, World, Action}
use nestjs_scaffold.Roles.Service as Service
use nestjs_scaffold.Roles.Service.{CreateRoleDto, UpdateRoleDto, MatrixEntry}
use nestjs_scaffold.Http.Context.{HttpRequest}
use nestjs_scaffold.Http.Pipeline.{requires, current_user, serve}
use nestjs_scaffold.Http.Protection.{IsAllowed, serve-IsAllowed}

module _ (env : Env) (req : HttpRequest) where
  unfoldable pub find_all : Action env (List (Role × List String))
  find_all = serve env (requires "role.read") req λ user. Service.find_all env

  unfoldable pub find_one : String → Action env (Role × List String)
  find_one id = serve env (requires "role.read") req λ user. Service.find_one env id

  unfoldable pub get_permission_matrix : String → Action env (List MatrixEntry)
  get_permission_matrix id =
      serve env (requires "permission.read") req
        λ user. do u ← current_user env user; Service.get_permission_matrix env id u.sub

  unfoldable pub create : CreateRoleDto → Action env (Role × List String)
  create dto =
      serve env (requires "role.create") req
        λ user. do u ← current_user env user; Service.create env dto u.sub

  unfoldable pub update : String → UpdateRoleDto → Action env (Role × List String)
  update id dto = serve env (requires "role.update") req λ user. Service.update env id dto

  unfoldable pub set_permissions : String → List String → Action env (List MatrixEntry)
  set_permissions id permission_ids =
      serve env (requires "role.assign_permissions") req
        λ user. do u ← current_user env user; Service.set_permissions env id permission_ids u.sub

  unfoldable pub set_permission : String → String → Bool → Action env (List MatrixEntry)
  set_permission id permission_id enabled =
      serve env (requires "role.assign_permissions") req λ user. do
        u ← current_user env user
        Service.set_permission env id permission_id enabled u.sub

  -- The answer is `{ deleted: true }`.
  unfoldable pub remove : String → Action env Bool
  remove id = serve env (requires "role.delete") req λ user. do Service.remove env id; pure true

  -- Each method of the controller returns only for a request that is allowed the permission of its
  -- decorator.
  pub roles_protected :
      (id permission_id : String) (ids : List String) (on : Bool) (create_dto : CreateRoleDto)
      (update_dto : UpdateRoleDto) (w w' : World env)
      → ((a : List (Role × List String))
          → find_all w ≡ (ok a, w')
          → IsAllowed env ("role.read" ∷ []) req)
        × ((a : Role × List String)
            → find_one id w ≡ (ok a, w')
            → IsAllowed env ("role.read" ∷ []) req)
        × ((a : List MatrixEntry)
            → get_permission_matrix id w ≡ (ok a, w')
            → IsAllowed env ("permission.read" ∷ []) req)
        × ((a : Role × List String)
            → create create_dto w ≡ (ok a, w')
            → IsAllowed env ("role.create" ∷ []) req)
        × ((a : Role × List String)
            → update id update_dto w ≡ (ok a, w')
            → IsAllowed env ("role.update" ∷ []) req)
        × ((a : List MatrixEntry)
            → set_permissions id ids w ≡ (ok a, w')
            → IsAllowed env ("role.assign_permissions" ∷ []) req)
        × ((a : List MatrixEntry)
            → set_permission id permission_id on w ≡ (ok a, w')
            → IsAllowed env ("role.assign_permissions" ∷ []) req)
        × ((a : Bool) → remove id w ≡ (ok a, w') → IsAllowed env ("role.delete" ∷ []) req)
  unfolding find_all find_one get_permission_matrix create update set_permissions set_permission
      remove
  roles_protected id permission_id ids on create_dto update_dto w w' = (
    λ a e. serve-IsAllowed env (requires "role.read") req _ "role.read" w w' a refl refl e,
    λ a e. serve-IsAllowed env (requires "role.read") req _ "role.read" w w' a refl refl e,
    λ a e.
        serve-IsAllowed env (requires "permission.read") req _ "permission.read" w w' a refl refl e,
    λ a e. serve-IsAllowed env (requires "role.create") req _ "role.create" w w' a refl refl e,
    λ a e. serve-IsAllowed env (requires "role.update") req _ "role.update" w w' a refl refl e,
    λ a e.
        serve-IsAllowed env (requires "role.assign_permissions") req _ "role.assign_permissions" w
          w' a refl refl e,
    λ a e.
        serve-IsAllowed env (requires "role.assign_permissions") req _ "role.assign_permissions" w
          w' a refl refl e,
    λ a e. serve-IsAllowed env (requires "role.delete") req _ "role.delete" w w' a refl refl e,
  )
