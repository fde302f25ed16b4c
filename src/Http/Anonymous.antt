-- ===== src/Http/Anonymous.antt =====
-- Requests without a token at the methods of the controllers that are not public.
use nestjs_scaffold.Base.{String, Bool, false, List, Option, none, ◌≡◌, refl}
use nestjs_scaffold.Exec.{err, unauthorized}
use nestjs_scaffold.Env.{Env, World, Action}
use nestjs_scaffold.Roles.Service.{CreateRoleDto, UpdateRoleDto}
use nestjs_scaffold.Users.{CreateUserDto, UpdateUserDto}
use nestjs_scaffold.Tenancy.Service.{CreateTenantDto}
use nestjs_scaffold.Auth.Tokens.{AuthenticatedUser}
use nestjs_scaffold.Http.Context.{HttpRequest}
use nestjs_scaffold.Http.Pipeline.{Route, jwt_auth_guard, authorize, serve}
use nestjs_scaffold.Http.RolesController as Roles
use nestjs_scaffold.Http.UsersController as Users
use nestjs_scaffold.Http.TenancyController as Tenants
use nestjs_scaffold.Http.AuthController as Auth
use nestjs_scaffold.Http.Administration.{list_permissions}

module _ (env : Env) (req : HttpRequest) (w : World env) where
  serve-anonymous :
      {A : Type 0} (route : Route) (method : Option AuthenticatedUser → Action env A)
      → route.is_public ≡ false
      → req.token ≡ none
      → serve env route req method w ≡ (err (unauthorized "Unauthorized"), w)
  unfolding serve authorize jwt_auth_guard
  serve-anonymous route method closed anonymous = rw (closed, anonymous) refl

  -- Without a token, every operation on roles, users, tenants and permissions is refused, and so are
  -- the switch to another tenant and the questions for one's access and tenants: all with the same
  -- error, and without a change.
  pub anonymous_refused :
      (id other : String) (ids : List String) (on : Bool) (name : Option String)
      (new_role : CreateRoleDto) (role : UpdateRoleDto) (new_user : CreateUserDto)
      (user : UpdateUserDto) (new_tenant : CreateTenantDto)
      → req.token ≡ none
      → (Roles.find_all env req w ≡ (err (unauthorized "Unauthorized"), w))
        × (Roles.find_one env req id w ≡ (err (unauthorized "Unauthorized"), w))
        × (Roles.get_permission_matrix env req id w ≡ (err (unauthorized "Unauthorized"), w))
        × (Roles.create env req new_role w ≡ (err (unauthorized "Unauthorized"), w))
        × (Roles.update env req id role w ≡ (err (unauthorized "Unauthorized"), w))
        × (Roles.set_permissions env req id ids w ≡ (err (unauthorized "Unauthorized"), w))
        × (Roles.set_permission env req id other on w ≡ (err (unauthorized "Unauthorized"), w))
        × (Roles.remove env req id w ≡ (err (unauthorized "Unauthorized"), w))
        × (Users.create env req new_user w ≡ (err (unauthorized "Unauthorized"), w))
        × (Users.find_all env req w ≡ (err (unauthorized "Unauthorized"), w))
        × (Users.find_one env req id w ≡ (err (unauthorized "Unauthorized"), w))
        × (Users.update env req id user w ≡ (err (unauthorized "Unauthorized"), w))
        × (Users.set_roles env req id ids w ≡ (err (unauthorized "Unauthorized"), w))
        × (Users.remove env req id on w ≡ (err (unauthorized "Unauthorized"), w))
        × (Tenants.find_all env req on w ≡ (err (unauthorized "Unauthorized"), w))
        × (Tenants.create env req new_tenant w ≡ (err (unauthorized "Unauthorized"), w))
        × (Tenants.find_one env req id w ≡ (err (unauthorized "Unauthorized"), w))
        × (Tenants.update env req id name w ≡ (err (unauthorized "Unauthorized"), w))
        × (Tenants.remove env req id on w ≡ (err (unauthorized "Unauthorized"), w))
        × (list_permissions env req w ≡ (err (unauthorized "Unauthorized"), w))
        × (Auth.switch_tenant env req id other w ≡ (err (unauthorized "Unauthorized"), w))
        × (Auth.my_access env req w ≡ (err (unauthorized "Unauthorized"), w))
        × (Auth.my_tenants env req w ≡ (err (unauthorized "Unauthorized"), w))
  unfolding Roles.find_all Roles.find_one Roles.get_permission_matrix Roles.create Roles.update
      Roles.set_permissions Roles.set_permission Roles.remove Users.create Users.find_all
      Users.find_one Users.update Users.set_roles Users.remove Tenants.find_all Tenants.create
      Tenants.find_one Tenants.update Tenants.remove list_permissions Auth.switch_tenant
      Auth.my_access Auth.my_tenants
  anonymous_refused id other ids on name new_role role new_user user new_tenant anonymous = (
    serve-anonymous _ _ refl anonymous,
    serve-anonymous _ _ refl anonymous,
    serve-anonymous _ _ refl anonymous,
    serve-anonymous _ _ refl anonymous,
    serve-anonymous _ _ refl anonymous,
    serve-anonymous _ _ refl anonymous,
    serve-anonymous _ _ refl anonymous,
    serve-anonymous _ _ refl anonymous,
    serve-anonymous _ _ refl anonymous,
    serve-anonymous _ _ refl anonymous,
    serve-anonymous _ _ refl anonymous,
    serve-anonymous _ _ refl anonymous,
    serve-anonymous _ _ refl anonymous,
    serve-anonymous _ _ refl anonymous,
    serve-anonymous _ _ refl anonymous,
    serve-anonymous _ _ refl anonymous,
    serve-anonymous _ _ refl anonymous,
    serve-anonymous _ _ refl anonymous,
    serve-anonymous _ _ refl anonymous,
    serve-anonymous _ _ refl anonymous,
    serve-anonymous _ _ refl anonymous,
    serve-anonymous _ _ refl anonymous,
    serve-anonymous _ _ refl anonymous,
  )
