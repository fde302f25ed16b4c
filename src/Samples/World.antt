-- ===== src/Samples/World.antt =====
-- An environment with the services in memory, and the rows and keys that the tests start from.
use nestjs_scaffold.Base.{
  eqb, not, ◌==◌, if◌then◌else◌, ◌<◌, arith, true, false, none, some, [], ◌∷◌,
}
use nestjs_scaffold.Schema.{
  Tenant, User, TenantMembership, Role, Permission, RolePermission, UserRoleAssignment, tenant,
  user, tenant_membership, role, permission, role_permission, user_role_assignment,
}
use nestjs_scaffold.Json.{Json, obj, str, field, end}
use nestjs_scaffold.Queue.Delivery.{published_body}
use nestjs_scaffold.Env.{Env, World}
use nestjs_scaffold.RedisService.Laws.{JsonLaws}
use nestjs_scaffold.Samples.Tables.{Tables, put}
use nestjs_scaffold.Samples.Database.{in_memory}
use nestjs_scaffold.Samples.Keyspace.{in_memory_scan, in_memory_redis}
use nestjs_scaffold.Samples.Codec.{print, parse, parse-print, print-truthy}

abbrev pub details : Json
details = obj (
    field "userId" (str "u1") (
      field "tenantId" (str "t1") (
        field "email" (str "ann@acme.test")
          (field "occurredAt" (str "1970-01-01T00:00:00.000Z") end))))

-- A published event, and a message whose body has no id.
abbrev pub welcome : Json
welcome = published_body "e1" "user.created" details "1970-01-01T00:00:00.000Z"

abbrev pub anonymous : Json
anonymous = obj (field "routingKey" (str "user.created") (field "payload" details end))

abbrev pub env : Env
env = record {
  prisma = in_memory;
  redis = in_memory_redis;
  get_text = λ name. if name == "JWT_SECRET" then some "k" else none;
  get_number = λ name. none;
  get_flag = λ name. none;
  scan_rounds = 3;
  print_access = print;
  parse_access = parse;
  parse_json = λ text.
      if text == "welcome"
      then some welcome
      else if text == "anonymous"
      then some anonymous
      else none;
  string_of = λ v. "42";
  iso_string = λ t. "1970-01-01T00:00:00.000Z";
  text_of_number = λ n. if eqb n 1 then "1" else "0";
  to_lower = λ text. text;
  trim = λ text. text;
  strip_blanks = λ text. text;
  number_of_text = λ text. if text == "1" then some 1 else if text == "0" then some 0 else none;
  compare_password = λ password hash. password == hash;
  sha256 = λ text. text;
  sign = λ sub tenant email active lifetime now. sub;
  hash_password = λ password rounds. password;
  hmac = λ secret text. text;
  deliver = λ channel target code. not (target == "nowhere");
}

pub enough_rounds : in_memory_scan.remaining "0" < env.scan_rounds
unfolding in_memory_scan
enough_rounds = omega arith

pub json_laws : JsonLaws env
json_laws = record { parse-print = parse-print; print-truthy = print-truthy }

abbrev pub acme : Tenant
acme = record { id = "t1"; slug = "acme"; name = "Acme"; active = true }

abbrev pub ann : User
ann = record {
  id = "u1";
  email = some "ann@acme.test";
  phone = none;
  country_code = none;
  name = "Ann";
  password_hash = none;
  active = true;
}

abbrev pub membership : TenantMembership
membership = record { user_id = "u1"; tenant_id = "t1"; active = true }

abbrev pub editor : Role
editor = record {
  id = "r1";
  tenant_id = some "t1";
  code = "editor";
  name = "Editor";
  description = "";
  built_in = false;
  enabled = true;
}

abbrev pub member : Role
member = record {
  id = "r2";
  tenant_id = none;
  code = "member";
  name = "Member";
  description = "";
  built_in = true;
  enabled = true;
}

abbrev pub user_read : Permission
user_read = record { id = "p1"; code = "user.read"; name = "Read users"; enabled = true }

abbrev pub role_read : Permission
role_read = record { id = "p2"; code = "role.read"; name = "Read roles"; enabled = true }

abbrev pub editor_reads : RolePermission
editor_reads = record { role_id = "r1"; permission_id = "p1"; enabled = true }

abbrev pub ann_edits : UserRoleAssignment
ann_edits = record { user_id = "u1"; tenant_id = "t1"; role_id = "r1" }

abbrev no_rows : Tables
no_rows m = []

abbrev pub tables : Tables
tables = put tenant (acme ∷ []) (
    put user (ann ∷ []) (
      put tenant_membership (membership ∷ []) (
        put role (editor ∷ member ∷ []) (
          put permission (user_read ∷ role_read ∷ []) (
            put role_permission (editor_reads ∷ [])
              (put user_role_assignment (ann_edits ∷ []) no_rows))))))

abbrev pub start : World env
start = record {
  db = tables;
  keys = [];
  store = some (record { request_id = "q1"; tenant_id = some "t1" });
  now = 1000;
}
