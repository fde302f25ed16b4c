-- ===== src/Schema.antt =====
-- The tables of prisma/schema.prisma: one record for each model, and the type of the rows of each
-- table. Timestamps are milliseconds; `updatedAt` and, where nothing reads it, `createdAt`, which
-- the database fills in, are left out.
use nestjs_scaffold.Base.{ℕ, String, Bool, Option}

pub record Tenant : Type 0 where
  pub id : String
  pub slug : String
  pub name : String
  pub active : Bool

pub record User : Type 0 where
  pub id : String
  pub email : Option String
  pub phone : Option String
  pub country_code : Option String
  pub name : String
  pub password_hash : Option String
  pub active : Bool

pub record TenantMembership : Type 0 where
  pub user_id : String
  pub tenant_id : String
  pub active : Bool

pub record Role : Type 0 where
  pub id : String
  pub tenant_id : Option String
  pub code : String
  pub name : String
  pub description : String
  pub built_in : Bool
  pub enabled : Bool

pub record Permission : Type 0 where
  pub id : String
  pub code : String
  pub name : String
  pub enabled : Bool

pub record RolePermission : Type 0 where
  pub role_id : String
  pub permission_id : String
  pub enabled : Bool

pub record UserRoleAssignment : Type 0 where
  pub user_id : String
  pub tenant_id : String
  pub role_id : String

pub record RefreshToken : Type 0 where
  pub id : String
  pub tenant_id : String
  pub user_id : String
  pub token_hash : String
  pub expires_at : ℕ
  pub revoked_at : Option ℕ
  pub replaced_by_token_id : Option String
  pub user_agent : Option String
  pub ip_address : Option String

pub record OutboxEvent : Type 0 where
  pub id : String
  pub tenant_id : String
  pub aggregate_type : String
  pub aggregate_id : String
  pub routing_key : String
  pub created_at : ℕ

pub record ProcessedEvent : Type 0 where
  pub event_id : String
  pub routing_key : String
  pub processed_at : ℕ
  pub expires_at : ℕ

pub data Model : Type 0 where
  tenant user tenant_membership role permission role_permission user_role_assignment : Model
  refresh_token outbox_event processed_event : Model

abbrev pub Row : Model → Type 0
Row tenant = Tenant
Row user = User
Row tenant_membership = TenantMembership
Row role = Role
Row permission = Permission
Row role_permission = RolePermission
Row user_role_assignment = UserRoleAssignment
Row refresh_token = RefreshToken
Row outbox_event = OutboxEvent
Row processed_event = ProcessedEvent
