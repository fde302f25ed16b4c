-- ===== src/Samples/Tests/HttpTests.antt =====
-- Requests, and the permissions that are seeded, at the rows in memory.
use nestjs_scaffold.Base.{
  ℕ, true, not, Option, some, none, [], ◌≡◌, ◌≤◌, refl, ◌==◌, includes, if◌then◌else◌,
}
use nestjs_scaffold.Exec.{ok, err, pure, unauthorized, forbidden}
use nestjs_scaffold.Schema.{permission}
use nestjs_scaffold.Prisma.Laws.{tally}
use nestjs_scaffold.Env.{Env, World, Action}
use nestjs_scaffold.RedisService.{get, set, set_with_options, get_json, set_json}
use nestjs_scaffold.Access.{access_of, load_access, get_user_access}
use nestjs_scaffold.Tenancy.{set_tenant_id}
use nestjs_scaffold.Tenancy.Service.{resolve_tenant_id, look_up_tenant_id}
use nestjs_scaffold.Guards.{tenant_guard, roles_guard, permissions_guard}
use nestjs_scaffold.Auth.Tokens.{AuthenticatedUser, validate, check_stamps}
use nestjs_scaffold.Seed.{
  permission_codes, upsert_permission, delete_other_permissions, seed_permissions,
}
use nestjs_scaffold.Seed.Permissions.{is_enabled, seed_permissions_lem}
use nestjs_scaffold.Roles.Service.{CreateRoleDto, UpdateRoleDto}
use nestjs_scaffold.Users.{CreateUserDto, UpdateUserDto}
use nestjs_scaffold.Tenancy.Service.{CreateTenantDto}
use nestjs_scaffold.Http.Context.{HttpRequest, use_context}
use nestjs_scaffold.Http.Subdomain.{use_context-subdomain}
use nestjs_scaffold.Http.Pipeline.{requires, jwt_auth_guard, authorize, serve}
use nestjs_scaffold.Http.Protection.{IsServed, serve-IsServed}
use nestjs_scaffold.Http.Anonymous.{anonymous_refused}
use nestjs_scaffold.Http.RolesController as Roles
use nestjs_scaffold.Http.UsersController as Users
use nestjs_scaffold.Http.TenancyController as Tenants
use nestjs_scaffold.Http.AuthController as Auth
use nestjs_scaffold.Http.Administration.{list_permissions}
use nestjs_scaffold.Samples.Database.{in_memory_laws}
use nestjs_scaffold.Samples.World.{env, start}
use nestjs_scaffold.Samples.Accounts.{signed_in}

abbrev anonymous_request : HttpRequest
anonymous_request = record {
  request_id = none;
  tenant_id = none;
  host = some "acme.example.test";
  forwarded_for = none;
  user_agent = none;
  ip = some "127.0.0.1";
  remote_address = none;
  token = none;
}

abbrev ann_request : HttpRequest
ann_request = record anonymous_request {
  token = some (record { sub = "u1"; tenant_id = "t1"; email = none; active = true; iat = some 1 });
}

abbrev count_one : Option AuthenticatedUser → Action env ℕ
count_one user = pure 1

abbrev served : World env
served = (serve env (requires "user.read") ann_request count_one signed_in).1

served_run : serve env (requires "user.read") ann_request count_one signed_in ≡ (ok 1, served)
unfolding serve authorize jwt_auth_guard validate check_stamps tenant_guard set_tenant_id
    roles_guard permissions_guard get_user_access load_access access_of get_json set_json get set
    set_with_options
served_run = refl

serve-IsServed_example :
    IsServed env (requires "user.read") ann_request count_one signed_in 1 served
serve-IsServed_example =
    serve-IsServed env (requires "user.read") ann_request count_one "user.read" [] signed_in served
      1 refl refl served_run

not_permitted :
    (authorize env (requires "role.update") ann_request signed_in).0
    ≡ err (forbidden "Insufficient permission")
unfolding authorize jwt_auth_guard validate check_stamps tenant_guard set_tenant_id roles_guard
    permissions_guard get_user_access load_access access_of get_json set_json get set
    set_with_options
not_permitted = refl

abbrev by_subdomain : Env
by_subdomain = record env {
  get_text = λ name. if name == "app.tenantResolution" then some "subdomain" else none;
}

abbrev outside : World by_subdomain
outside = record { db = start.db; keys = start.keys; store = none; now = start.now }

abbrev resolved : World by_subdomain
resolved = (resolve_tenant_id by_subdomain "acme" outside).1

resolved_run : resolve_tenant_id by_subdomain "acme" outside ≡ (ok (some "t1"), resolved)
unfolding resolve_tenant_id look_up_tenant_id get set set_with_options
resolved_run = refl

use_context-subdomain_example : use_context by_subdomain anonymous_request "q1" outside ≡ (
  ok tt,
  record resolved { store = some (record { request_id = "q1"; tenant_id = some "t1" }) },
)
use_context-subdomain_example =
    use_context-subdomain by_subdomain anonymous_request "q1" "acme" "example.test" "t1" outside
      resolved refl refl refl refl refl refl resolved_run refl

abbrev seeded : World env
seeded = (seed_permissions env start).1

seeded_run : seed_permissions env start ≡ (ok tt, seeded)
unfolding seed_permissions upsert_permission delete_other_permissions
seeded_run = refl

seed_permissions_example :
    (1 ≤ tally env.prisma permission (is_enabled "tenant.delete") seeded.db)
    × (tally env.prisma permission (λ q. not (includes permission_codes q.code)) seeded.db ≡ 0)
seed_permissions_example =
    seed_permissions_lem env in_memory_laws "tenant.delete" start seeded refl seeded_run

abbrev new_role : CreateRoleDto
new_role = record { code = "auditor"; name = "Auditor"; description = none; permission_ids = none }

abbrev no_change : UpdateRoleDto
no_change = record { code = none; name = none; description = none; enabled = none }

abbrev new_user : CreateUserDto
new_user = record { email = "bob@acme.test"; name = "Bob"; password = "secret"; role_ids = [] }

abbrev same_user : UpdateUserDto
same_user = record { email = none; name = none; password = none }

abbrev new_tenant : CreateTenantDto
new_tenant = record { slug = "beta"; name = "Beta" }

anonymous_refused_example :
    (Roles.find_all env anonymous_request start ≡ (err (unauthorized "Unauthorized"), start))
    × (Roles.find_one env anonymous_request "r1" start ≡ (err (unauthorized "Unauthorized"), start))
    × (Roles.get_permission_matrix env anonymous_request "r1" start
        ≡ (err (unauthorized "Unauthorized"), start))
    × (Roles.create env anonymous_request new_role start
        ≡ (err (unauthorized "Unauthorized"), start))
    × (Roles.update env anonymous_request "r1" no_change start
        ≡ (err (unauthorized "Unauthorized"), start))
    × (Roles.set_permissions env anonymous_request "r1" [] start
        ≡ (err (unauthorized "Unauthorized"), start))
    × (Roles.set_permission env anonymous_request "r1" "p1" true start
        ≡ (err (unauthorized "Unauthorized"), start))
    × (Roles.remove env anonymous_request "r1" start ≡ (err (unauthorized "Unauthorized"), start))
    × (Users.create env anonymous_request new_user start
        ≡ (err (unauthorized "Unauthorized"), start))
    × (Users.find_all env anonymous_request start ≡ (err (unauthorized "Unauthorized"), start))
    × (Users.find_one env anonymous_request "r1" start ≡ (err (unauthorized "Unauthorized"), start))
    × (Users.update env anonymous_request "r1" same_user start
        ≡ (err (unauthorized "Unauthorized"), start))
    × (Users.set_roles env anonymous_request "r1" [] start
        ≡ (err (unauthorized "Unauthorized"), start))
    × (Users.remove env anonymous_request "r1" true start
        ≡ (err (unauthorized "Unauthorized"), start))
    × (Tenants.find_all env anonymous_request true start
        ≡ (err (unauthorized "Unauthorized"), start))
    × (Tenants.create env anonymous_request new_tenant start
        ≡ (err (unauthorized "Unauthorized"), start))
    × (Tenants.find_one env anonymous_request "r1" start
        ≡ (err (unauthorized "Unauthorized"), start))
    × (Tenants.update env anonymous_request "r1" none start
        ≡ (err (unauthorized "Unauthorized"), start))
    × (Tenants.remove env anonymous_request "r1" true start
        ≡ (err (unauthorized "Unauthorized"), start))
    × (list_permissions env anonymous_request start ≡ (err (unauthorized "Unauthorized"), start))
    × (Auth.switch_tenant env anonymous_request "r1" "p1" start
        ≡ (err (unauthorized "Unauthorized"), start))
    × (Auth.my_access env anonymous_request start ≡ (err (unauthorized "Unauthorized"), start))
    × (Auth.my_tenants env anonymous_request start ≡ (err (unauthorized "Unauthorized"), start))
anonymous_refused_example =
    anonymous_refused env anonymous_request start "r1" "p1" [] true none new_role no_change new_user
      same_user new_tenant refl
