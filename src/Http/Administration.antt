-- ===== src/Http/Administration.antt =====
-- src/permissions/permissions.controller.ts, and who gets to the operations of the tenants in
-- src/tenancy/tenancy.controller.ts.
use nestjs_scaffold.Base.{String, Bool, List, [], ◌∷◌, Option, ◌≡◌, refl}
use nestjs_scaffold.Exec.{◌>>=◌, ok}
use nestjs_scaffold.Schema.{Permission}
use nestjs_scaffold.Env.{Env, World, Action}
use nestjs_scaffold.Permissions as Service
use nestjs_scaffold.Tenancy.Service.{CreateTenantDto}
use nestjs_scaffold.Http.Context.{HttpRequest}
use nestjs_scaffold.Http.Pipeline.{requires, current_user, serve}
use nestjs_scaffold.Http.Protection.{IsAllowed, serve-IsAllowed}
use nestjs_scaffold.Http.TenancyController.{
  TenantResponseDto, platform_route, find_all, create, find_one, update, remove,
}

module _ (env : Env) (req : HttpRequest) where
  unfoldable pub list_permissions : Action env (List Permission)
  list_permissions =
      serve env (requires "permission.read") req
        λ user. do u ← current_user env user; Service.find_all env u.sub

  -- The list of the permissions and each operation on the tenants return only for a request that is
  -- allowed the permission of its decorator.
  pub administration_protected :
      (id : String) (all hard : Bool) (dto : CreateTenantDto) (name : Option String)
      (w w' : World env)
      → ((a : List Permission)
          → list_permissions w ≡ (ok a, w')
          → IsAllowed env ("permission.read" ∷ []) req)
        × ((a : List TenantResponseDto)
            → find_all env req all w ≡ (ok a, w')
            → IsAllowed env ("tenant.read" ∷ []) req)
        × ((a : TenantResponseDto)
            → create env req dto w ≡ (ok a, w')
            → IsAllowed env ("tenant.create" ∷ []) req)
        × ((a : TenantResponseDto)
            → find_one env req id w ≡ (ok a, w')
            → IsAllowed env ("tenant.read" ∷ []) req)
        × ((a : TenantResponseDto)
            → update env req id name w ≡ (ok a, w')
            → IsAllowed env ("tenant.update" ∷ []) req)
        × ((a : Bool)
            → remove env req id hard w ≡ (ok a, w')
            → IsAllowed env ("tenant.delete" ∷ []) req)
  unfolding list_permissions find_all create find_one update remove
  administration_protected id all hard dto name w w' = (
    λ a e.
        serve-IsAllowed env (requires "permission.read") req _ "permission.read" w w' a refl refl e,
    λ a e.
        serve-IsAllowed env (platform_route "tenant.read") req _ "tenant.read" w w' a refl refl e,
    λ a e.
        serve-IsAllowed env (platform_route "tenant.create") req _ "tenant.create" w w' a refl refl
          e,
    λ a e.
        serve-IsAllowed env (platform_route "tenant.read") req _ "tenant.read" w w' a refl refl e,
    λ a e.
        serve-IsAllowed env (platform_route "tenant.update") req _ "tenant.update" w w' a refl refl
          e,
    λ a e.
        serve-IsAllowed env (platform_route "tenant.delete") req _ "tenant.delete" w w' a refl refl
          e,
  )
