-- ===== src/Http/AuthController.antt =====
-- src/auth/auth.controller.ts. The random digits of a code and of a refresh token are arguments.
use nestjs_scaffold.Base.{String, Bool, true, false, List, [], ◌<>◌}
use nestjs_scaffold.Exec.{◌>>=◌, ◌>>◌, pure}
use nestjs_scaffold.Env.{Env, Action, UserAccess}
use nestjs_scaffold.Auth.Service as Service
use nestjs_scaffold.Auth.Responses.{
  LoginDto, EmailCodeLoginDto, PhoneCodeLoginDto, AuthResponseDto, AuthTenantDto,
}
use nestjs_scaffold.Verification.{send}
use nestjs_scaffold.Http.Context.{HttpRequest, get_request_meta}
use nestjs_scaffold.Http.Pipeline.{Route, current_user, serve}

-- `@Public()` and none, on the controller's `@TenantRequired(false)`
abbrev pub public_route : Route
public_route = record { is_public = true; tenant_required = false; roles = []; permissions = [] }

abbrev pub private_route : Route
private_route = record { is_public = false; tenant_required = false; roles = []; permissions = [] }

module _ (env : Env) (req : HttpRequest) where
  unfoldable pub login : LoginDto → String → Action env AuthResponseDto
  login dto plain_token =
      serve env public_route req
        λ user. Service.login env dto (get_request_meta env req) plain_token

  unfoldable pub login_by_email_code : EmailCodeLoginDto → String → Action env AuthResponseDto
  login_by_email_code dto plain_token =
      serve env public_route req
        λ user. Service.login_by_email_code env dto (get_request_meta env req) plain_token

  unfoldable pub login_by_phone_code : PhoneCodeLoginDto → String → Action env AuthResponseDto
  login_by_phone_code dto plain_token =
      serve env public_route req
        λ user. Service.login_by_phone_code env dto (get_request_meta env req) plain_token

  -- The answer is `{ sent: true }`.
  unfoldable pub send_email_code : String → String → Action env Bool
  send_email_code email digits =
      serve env public_route req
        λ user. do send env "email" (env.trim (env.to_lower email)) digits; pure true

  unfoldable pub send_phone_code : String → String → String → Action env Bool
  send_phone_code country_code phone digits =
      serve env public_route req
        λ user. do send env "phone" (country_code <> env.strip_blanks phone) digits; pure true

  unfoldable pub switch_tenant : String → String → Action env AuthResponseDto
  switch_tenant tenant_id plain_token = serve env private_route req λ user. do
    u ← current_user env user
    Service.switch_tenant env u.sub tenant_id (get_request_meta env req) plain_token

  unfoldable pub my_access : Action env UserAccess
  my_access =
      serve env private_route req
        λ user. do u ← current_user env user; Service.my_access env u.sub u.tenant_id

  unfoldable pub my_tenants : Action env (List AuthTenantDto)
  my_tenants =
      serve env private_route req λ user. do u ← current_user env user; Service.my_tenants env u.sub

  unfoldable pub refresh : String → String → Action env AuthResponseDto
  refresh token plain_token =
      serve env public_route req
        λ user. Service.refresh env token (get_request_meta env req) plain_token

  -- The answer is `{ revoked: true }`.
  unfoldable pub logout : String → Action env Bool
  logout token = serve env public_route req λ user. do Service.logout env token; pure true
