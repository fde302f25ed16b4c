-- ===== src/Http/UsersController.antt =====
-- src/users/users.controller.ts: who gets to each operation of the users.
use nestjs_scaffold.Base.{String, Bool, true, List, [], ◌∷◌, map, ◌≡◌, refl}
use nestjs_scaffold.Exec.{◌>>=◌, ◌>>◌, pure, ok}
use nestjs_scaffold.Schema.{User, Role}
use nestjs_scaffold.Env.{Env, World, Action}
use nestjs_scaffold.Users as Service
use nestjs_scaffold.Users.{CreateUserDto, UpdateUserDto}
use nestjs_scaffold.Auth.Responses.{UserResponseDto, from_entity}
use nestjs_scaffold.Http.Context.{HttpRequest}
use nestjs_scaffold.Http.Pipeline.{requires, current_user, serve}
use nestjs_scaffold.Http.Protection.{IsAllowed, serve-IsAllowed}

abbrev pub user_response : User × List Role → UserResponseDto
user_response (u, roles) = from_entity u (map (λ (r : Role). r.code) roles)

module _ (env : Env) (req : HttpRequest) where
  unfoldable pub create : CreateUserDto → Action env UserResponseDto
  create dto = serve env (requires "user.create") req λ user. do
    actor ← current_user env user
    u ← Service.create env dto actor.sub
    pure (user_response u)

  unfoldable pub find_all : Action env (List UserResponseDto)
  find_all =
      serve env (requires "user.read") req
        λ user. do users ← Service.find_all_for_tenant env; pure (map user_response users)

  unfoldable pub find_one : String → Action env UserResponseDto
  find_one id =
      serve env (requires "user.read") req
        λ user. do u ← Service.find_by_id_for_tenant env id; pure (user_response u)

  unfoldable pub update : String → UpdateUserDto → Action env UserResponseDto
  update id dto =
      serve env (requires "user.update") req
        λ user. do u ← Service.update env id dto; pure (user_response u)

  unfoldable pub set_roles : String → List String → Action env UserResponseDto
  set_roles id role_ids = serve env (requires "user.assign_roles") req λ user. do
    actor ← current_user env user
    u ← Service.set_roles env id role_ids actor.sub
    pure (user_response u)

  -- The answer is `{ deleted: true }`.
  unfoldable pub remove : String → Bool → Action env Bool
  remove id hard =
      serve env (requires "user.delete") req λ user. do Service.remove env id hard; pure true

  -- Each method of the controller returns only for a request that is allowed the permission of its
  -- decorator.
  pub users_protected :
      (id : String) (ids : List String) (hard : Bool) (create_dto : CreateUserDto)
      (update_dto : UpdateUserDto) (w w' : World env)
      → ((a : UserResponseDto)
          → create create_dto w ≡ (ok a, w')
          → IsAllowed env ("user.create" ∷ []) req)
        × ((a : List UserResponseDto)
            → find_all w ≡ (ok a, w')
            → IsAllowed env ("user.read" ∷ []) req)
        × ((a : UserResponseDto)
            → find_one id w ≡ (ok a, w')
            → IsAllowed env ("user.read" ∷ []) req)
        × ((a : UserResponseDto)
            → update id update_dto w ≡ (ok a, w')
            → IsAllowed env ("user.update" ∷ []) req)
        × ((a : UserResponseDto)
            → set_roles id ids w ≡ (ok a, w')
            → IsAllowed env ("user.assign_roles" ∷ []) req)
        × ((a : Bool) → remove id hard w ≡ (ok a, w') → IsAllowed env ("user.delete" ∷ []) req)
  unfolding create find_all find_one update set_roles remove
  users_protected id ids hard create_dto update_dto w w' = (
    λ a e. serve-IsAllowed env (requires "user.create") req _ "user.create" w w' a refl refl e,
    λ a e. serve-IsAllowed env (requires "user.read") req _ "user.read" w w' a refl refl e,
    λ a e. serve-IsAllowed env (requires "user.read") req _ "user.read" w w' a refl refl e,
    λ a e. serve-IsAllowed env (requires "user.update") req _ "user.update" w w' a refl refl e,
    λ a e.
        serve-IsAllowed env (requires "user.assign_roles") req _ "user.assign_roles" w w' a refl
          refl e,
    λ a e. serve-IsAllowed env (requires "user.delete") req _ "user.delete" w w' a refl refl e,
  )
