-- ===== src/Samples/Tests/RolesTests.antt =====
-- src/roles/roles.service.ts at the rows in memory.
use nestjs_scaffold.Base.{
  leb, not, String, true, false, some, none, ◌≡◌, ◌⊎◌, ◌↔◌, refl, arith, List, [], ◌∷◌, ◌&&◌,
  includes, truthy, or_else,
}
use nestjs_scaffold.Exec.{Result, ok, err}
use nestjs_scaffold.Schema.{Role, permission, role_permission}
use nestjs_scaffold.Prisma.Laws.{tally}
use nestjs_scaffold.Constants.{built_in_role_codes}
use nestjs_scaffold.Tenancy.{require_tenant_id}
use nestjs_scaffold.Env.{UserAccess, World}
use nestjs_scaffold.RedisService.{
  set, set_json, get, get_json, scan_loop, set_with_options, delete_by_pattern,
}
use nestjs_scaffold.Access.{access_of, load_access, get_user_access, invalidate_tenant}
use nestjs_scaffold.Roles.Checks.{
  is_platform, acts_as_admin, is_permission_configurable, assert_definition_mutable, find_scoped,
  assert_can_enable_permissions, assert_permission_target_configurable, invalidate_role_access,
}
use nestjs_scaffold.Roles.Service.{
  CreateRoleDto, UpdateRoleDto, MatrixEntry, update, set_permissions, upsert_all, upsert_binding,
  get_permission_matrix,
}
use nestjs_scaffold.Roles.Bindings.{grants}
use nestjs_scaffold.Roles.SetPermissions.{set_permissions_lem, set_permissions_no_escalation}
use nestjs_scaffold.Roles.Matrix.{configurable_iff}
use nestjs_scaffold.Roles.Definitions.{update_own_tenant}
use nestjs_scaffold.Samples.Database.{in_memory, in_memory_laws}
use nestjs_scaffold.Samples.World.{env, start, tables, editor, member}

abbrev reader : UserAccess
reader = record { roles = "editor" ∷ []; permissions = "user.read" ∷ [] }

abbrev entries_of : {A : Type 0} → Result (List A) → List A
entries_of (ok xs) = xs
entries_of (err e) = []

abbrev entries : List MatrixEntry
entries = entries_of (set_permissions env "r1" ("p1" ∷ []) "u1" start).0

abbrev after : World env
after = (set_permissions env "r1" ("p1" ∷ []) "u1" start).1

set_permissions_run : set_permissions env "r1" ("p1" ∷ []) "u1" start ≡ (ok entries, after)
unfolding set_permissions require_tenant_id find_scoped assert_permission_target_configurable
    get_user_access get_json get load_access access_of set_json set set_with_options
    assert_can_enable_permissions upsert_all upsert_binding invalidate_role_access invalidate_tenant
    delete_by_pattern scan_loop get_permission_matrix is_permission_configurable
set_permissions_run = refl

set_permissions_example :
    (r : Role) × (find_scoped env "r1" start ≡ (ok r, start))
    × (leb 1 (tally in_memory role_permission (grants r.id "p1") after.db) ≡ true)
set_permissions_example =
    set_permissions_lem env in_memory_laws "r1" ("p1" ∷ []) "u1" start after entries "p1"
      set_permissions_run (omega arith)

set_permissions_no_escalation_example :
    (tenant_id : String) × (actor : UserAccess) × (require_tenant_id env start
      ≡ (ok tenant_id, start))
    × ((get_user_access env "u1" tenant_id start).0 ≡ ok actor)
    × (tally in_memory permission
          (λ p. p.enabled && (includes ("p1" ∷ []) p.id && is_platform p.code))
          tables
        ≡ 0)
    × ((acts_as_admin actor ≡ true)
        ⊎ (tally in_memory permission
              (λ p.
                p.enabled && (includes ("p1" ∷ []) p.id && not (includes actor.permissions p.code)))
              tables
            ≡ 0))
set_permissions_no_escalation_example =
    set_permissions_no_escalation env in_memory_laws "r1" ("p1" ∷ []) "u1" start after entries
      set_permissions_run

found_editor : find_scoped env "r1" start ≡ (ok editor, start)
unfolding find_scoped require_tenant_id
found_editor = refl

found_member : find_scoped env "r2" start ≡ (ok member, start)
unfolding find_scoped require_tenant_id
found_member = refl

abbrev no_change : UpdateRoleDto
no_change = record { code = none; name = some "Editors"; description = none; enabled = none }

abbrev updated_of : {A : Type 0} → A → Result A → A
updated_of default (ok a) = a
updated_of default (err e) = default

abbrev renamed : Role × List String
renamed = updated_of (editor, []) (update env "r1" no_change start).0

update_run : update env "r1" no_change start ≡ (ok renamed, (update env "r1" no_change start).1)
unfolding update find_scoped require_tenant_id assert_definition_mutable invalidate_tenant
    delete_by_pattern scan_loop
update_run = refl

update_own_tenant_example :
    (r : Role) × (find_scoped env "r1" start ≡ (ok r, start))
    × (r.built_in ≡ false)
    × (r.tenant_id ≡ some "t1")
    × ((truthy no_change.code && includes built_in_role_codes (or_else no_change.code "")) ≡ false)
update_own_tenant_example =
    update_own_tenant env in_memory_laws "r1" no_change start (update env "r1" no_change start).1
      renamed update_run

abbrev takes_admin : UpdateRoleDto
takes_admin = record { code = some "admin"; name = none; description = none; enabled = none }

abbrev new_admin : CreateRoleDto
new_admin = record {
  code = "system_admin";
  name = "Admin";
  description = none;
  permission_ids = none;
}

tenant_run : require_tenant_id env start ≡ (ok "t1", start)
unfolding require_tenant_id
tenant_run = refl

reader_run : (get_user_access env "u1" "t1" start).0 ≡ ok reader
unfolding get_user_access get_json get load_access access_of set_json set set_with_options
reader_run = refl

configurable_example :
    (is_permission_configurable editor "role.read" false reader (acts_as_admin reader) ≡ true) ↔ (
      ((assert_permission_target_configurable env editor "u1" "t1" start).0 ≡ ok reader)
      × ((assert_can_enable_permissions env ("role.read" ∷ []) reader start).0 ≡ ok tt))
configurable_example = configurable_iff env editor "role.read" "u1" "t1" reader start reader_run
