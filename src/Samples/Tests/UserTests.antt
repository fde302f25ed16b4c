-- ===== src/Samples/Tests/UserTests.antt =====
-- src/users and src/tenancy at the rows in memory.
use nestjs_scaffold.Schema.{tenant}
use nestjs_scaffold.Base.{◌==◌, true, some, none, ◌≡◌, refl, [], ◌∷◌}
use nestjs_scaffold.Exec.{ok, err, not_found}
use nestjs_scaffold.Env.{World}
use nestjs_scaffold.RedisService.{get, set, set_with_options}
use nestjs_scaffold.Tenancy.{require_tenant_id}
use nestjs_scaffold.Tenancy.Service.{resolve_tenant_id, look_up_tenant_id}
use nestjs_scaffold.Tenancy.Slugs.{resolve_tenant_id_again}
use nestjs_scaffold.Users.{UpdateUserDto, find_by_id_for_tenant, update, set_roles, remove}
use nestjs_scaffold.Users.Isolation.{outsider_untouched}
use nestjs_scaffold.Samples.Database.{in_memory_laws}
use nestjs_scaffold.Samples.Keyspace.{in_memory_redis_laws}
use nestjs_scaffold.Samples.World.{env, start}

abbrev resolved : World env
resolved = (resolve_tenant_id env "acme" start).1

resolve_run : resolve_tenant_id env "acme" start ≡ (ok (some "t1"), resolved)
unfolding resolve_tenant_id look_up_tenant_id get set set_with_options
resolve_run = refl

abbrev emptied : World env
emptied = record resolved {
  db = (env.prisma.delete_many tenant (λ t. t.slug == "acme") resolved.db).1;
}

resolve_tenant_id_again_example : resolve_tenant_id env "acme" emptied ≡ (ok (some "t1"), emptied)
resolve_tenant_id_again_example =
    resolve_tenant_id_again env in_memory_redis_laws "acme" "t1" start resolved emptied.db refl
      resolve_run

abbrev new_name : UpdateUserDto
new_name = record { email = none; name = some "Bob"; password = none }

in_tenant : require_tenant_id env start ≡ (ok "t1", start)
unfolding require_tenant_id
in_tenant = refl

outsider_untouched_example :
    (find_by_id_for_tenant env "u9" start ≡ (err (not_found "User not found"), start))
    × (update env "u9" new_name start ≡ (err (not_found "User not found"), start))
    × (set_roles env "u9" ("r1" ∷ []) "u1" start ≡ (err (not_found "User not found"), start))
    × (remove env "u9" true start ≡ (err (not_found "User not found"), start))
outsider_untouched_example =
    outsider_untouched env in_memory_laws "u9" "t1" "u1" new_name ("r1" ∷ []) true start in_tenant
      refl
