-- ===== src/Constants.antt =====
-- src/common/constants.ts: the key prefixes, role codes and permission codes.
use nestjs_scaffold.Base.{String, List, [], ◌∷◌}

abbrev pub last_logout_prefix : String
last_logout_prefix = "lastLogoutAt:"

abbrev pub tenant_deactivated_prefix : String
tenant_deactivated_prefix = "tenantDeactivatedAt:"

abbrev pub tenant_slug_cache_prefix : String
tenant_slug_cache_prefix = "tenantSlug:"

abbrev pub access_cache_prefix : String
access_cache_prefix = "auth:access:"

abbrev pub system_admin_role : String
system_admin_role = "system_admin"

-- `RESERVED_ROLE_CODES` of src/roles/roles.service.ts holds the same codes.
abbrev pub built_in_role_codes : List String
built_in_role_codes = "system_admin" ∷ "admin" ∷ "member" ∷ "viewer" ∷ []

pub record BuiltInPermission : Type 0 where
  pub code : String
  pub name : String

abbrev entry : String → String → BuiltInPermission
entry code name = record { code = code; name = name }

abbrev pub built_in_permissions : List BuiltInPermission
built_in_permissions =
    entry "user.read" "查看用户"
    ∷ entry "user.create" "创建用户"
    ∷ entry "user.update" "更新用户"
    ∷ entry "user.delete" "删除用户"
    ∷ entry "user.assign_roles" "分配用户角色"
    ∷ entry "role.read" "查看角色"
    ∷ entry "role.create" "创建角色"
    ∷ entry "role.update" "更新角色"
    ∷ entry "role.delete" "删除角色"
    ∷ entry "role.assign_permissions" "配置角色权限"
    ∷ entry "permission.read" "查看权限字典"
    ∷ entry "tenant.read" "查看租户"
    ∷ entry "tenant.create" "创建租户"
    ∷ entry "tenant.update" "更新租户"
    ∷ entry "tenant.delete" "删除租户"
    ∷ entry "dead_letter.retry" "重试死信消息"
    ∷ []

abbrev pub tenant_admin_permissions : List String
tenant_admin_permissions =
    "user.read" ∷ "user.create" ∷ "user.update" ∷ "user.delete" ∷ "user.assign_roles" ∷ "role.read"
    ∷ "role.create" ∷ "role.update" ∷ "role.delete" ∷ "role.assign_permissions" ∷ "permission.read"
    ∷ []

abbrev pub platform_permission_codes : List String
platform_permission_codes = "tenant.read" ∷ "tenant.create" ∷ "tenant.update" ∷ "tenant.delete" ∷ []
