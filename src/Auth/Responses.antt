-- ===== src/Auth/Responses.antt =====
-- What the operations of src/auth/auth.service.ts are given and what they answer: src/auth/dto and
-- src/users/dto/user-response.dto.ts.
use nestjs_scaffold.Base.{String, Bool, Option, none, List, truthy, if◌then◌else◌}
use nestjs_scaffold.Schema.{User, Tenant}

pub record LoginDto : Type 0 where
  pub email : String
  pub password : String
  pub tenant_slug : Option String

pub record EmailCodeLoginDto : Type 0 where
  pub email : String
  pub code : String
  pub tenant_slug : Option String

pub record PhoneCodeLoginDto : Type 0 where
  pub country_code : String
  pub phone : String
  pub code : String
  pub tenant_slug : Option String

-- src/users/dto/user-response.dto.ts
pub record UserResponseDto : Type 0 where
  pub id : String
  pub email : Option String
  pub phone : Option String
  pub country_code : Option String
  pub name : String
  pub active : Bool
  pub roles : List String

-- src/auth/dto/auth-response.dto.ts
pub record AuthTenantDto : Type 0 where
  pub id : String
  pub slug : String
  pub name : String

pub record AuthResponseDto : Type 0 where
  pub access_token : String
  pub refresh_token : String
  pub user : UserResponseDto
  pub current_tenant_id : String
  pub tenants : List AuthTenantDto
  pub roles : List String
  pub permissions : List String

-- What `registerVerifiedUser` is given.
pub record VerifiedInput : Type 0 where
  pub email : Option String
  pub phone : Option String
  pub country_code : Option String
  pub name : String

-- `select: { tenant: { select: { id: true, slug: true, name: true } } }`
abbrev pub selected : Tenant → AuthTenantDto
selected t = record { id = t.id; slug = t.slug; name = t.name }

abbrev pub if_truthy : Option String → Option String
if_truthy o = if truthy o then o else none

-- `UserResponseDto.fromEntity`, with the codes of the roles
unfoldable pub from_entity : User → List String → UserResponseDto
from_entity u roles = record {
  id = u.id;
  email = if_truthy u.email;
  phone = if_truthy u.phone;
  country_code = if_truthy u.country_code;
  name = u.name;
  active = u.active;
  roles = roles;
}
