-- ===== src/Http/TenancyController.antt =====
-- src/tenancy/tenancy.controller.ts: the operations of the tenants, for system administrators.
use nestjs_scaffold.Base.{String, Bool, true, false, List, [], ◌∷◌, map, Option}
use nestjs_scaffold.Exec.{◌>>=◌, ◌>>◌, pure}
use nestjs_scaffold.Schema.{Tenant}
use nestjs_scaffold.Env.{Env, Action}
use nestjs_scaffold.Constants.{system_admin_role}
use nestjs_scaffold.Tenancy.Service as Service
use nestjs_scaffold.Tenancy.Service.{CreateTenantDto}
use nestjs_scaffold.Http.Context.{HttpRequest}
use nestjs_scaffold.Http.Pipeline.{Route, current_user, serve}

-- src/tenancy/dto/tenant-response.dto.ts, without the timestamps
pub record TenantResponseDto : Type 0 where
  pub id : String
  pub slug : String
  pub name : String
  pub active : Bool

abbrev pub tenant_response : Tenant → TenantResponseDto
tenant_response t = record { id = t.id; slug = t.slug; name = t.name; active = t.active }

-- `@Roles('system_admin')`, `@TenantRequired(false)` and the permission of the method
abbrev pub platform_route : String → Route
platform_route code = record {
  is_public = false;
  tenant_required = false;
  roles = system_admin_role ∷ [];
  permissions = code ∷ [];
}

module _ (env : Env) (req : HttpRequest) where
  unfoldable pub find_all : Bool → Action env (List TenantResponseDto)
  find_all include_inactive =
      serve env (platform_route "tenant.read") req λ user. do
        tenants ← Service.find_all env include_inactive
        pure (map tenant_response tenants)

  unfoldable pub create : CreateTenantDto → Action env TenantResponseDto
  create dto = serve env (platform_route "tenant.create") req λ user. do
    actor ← current_user env user
    t ← Service.create env dto actor.sub
    pure (tenant_response t)

  unfoldable pub find_one : String → Action env TenantResponseDto
  find_one id =
      serve env (platform_route "tenant.read") req
        λ user. do t ← Service.find_by_id env id; pure (tenant_response t)

  unfoldable pub update : String → Option String → Action env TenantResponseDto
  update id name =
      serve env (platform_route "tenant.update") req
        λ user. do t ← Service.update env id name; pure (tenant_response t)

  -- The answer is `{ deleted: true }`.
  unfoldable pub remove : String → Bool → Action env Bool
  remove id hard =
      serve env (platform_route "tenant.delete") req
        λ user. do Service.remove env id hard; pure true
