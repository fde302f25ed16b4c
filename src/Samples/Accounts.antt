-- ===== src/Samples/Accounts.antt =====
-- A user with a password and a refresh token, in memory, and the answer that she gets.
use nestjs_scaffold.Base.{true, some, none, [], ◌∷◌}
use nestjs_scaffold.Schema.{User, RefreshToken, user, refresh_token}
use nestjs_scaffold.Env.{World}
use nestjs_scaffold.Auth.Tokens.{AuthRequestMeta}
use nestjs_scaffold.Auth.Responses.{AuthResponseDto, selected}
use nestjs_scaffold.Samples.Tables.{put}
use nestjs_scaffold.Samples.World.{env, start, ann, tables, acme}

abbrev pub browser : AuthRequestMeta
browser = record { ip_address = some "127.0.0.1"; user_agent = none }

abbrev pub ann_with_password : User
ann_with_password = record ann { password_hash = some "secret" }

abbrev pub old_token : RefreshToken
old_token = record {
  id = "k1";
  tenant_id = "t1";
  user_id = "u1";
  token_hash = "old";
  expires_at = 2000;
  revoked_at = none;
  replaced_by_token_id = none;
  user_agent = none;
  ip_address = none;
}

abbrev pub signed_in : World env
signed_in = record start {
  db = put user (ann_with_password ∷ []) (put refresh_token (old_token ∷ []) tables);
}

abbrev pub answer : AuthResponseDto
answer = record {
  access_token = "u1";
  refresh_token = "plain";
  user = record {
    id = "u1";
    email = some "ann@acme.test";
    phone = none;
    country_code = none;
    name = "Ann";
    active = true;
    roles = "editor" ∷ [];
  };
  current_tenant_id = "t1";
  tenants = selected acme ∷ [];
  roles = "editor" ∷ [];
  permissions = "user.read" ∷ [];
}
