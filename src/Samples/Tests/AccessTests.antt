-- ===== src/Samples/Tests/AccessTests.antt =====
-- src/access/access.service.ts at the rows in memory.
use Prim.Native.Char.{Char, code}
use text.Mathlib.TextLemmas.{head-eq_of_cons-eq, cons-append}
use nestjs_scaffold.Base.{
  Bool-cases, inl, inr, eq_iff, sym, not, is_some, is_text, ◌||◌, ap, ◌<>◌, ◌∙◌, ◌≤◌, String, ◌≡◌,
  ◌≢◌, refl, arith, [], ◌∷◌, ◌==◌, ◌&&◌,
}
use mathlib.Core.Bool.{false≢true}
use nestjs_scaffold.Exec.{ok}
use nestjs_scaffold.Schema.{role, user_role_assignment, tenant_membership, user, tenant}
use nestjs_scaffold.Prisma.Laws.{tally}
use nestjs_scaffold.Env.{UserAccess, World}
use nestjs_scaffold.RedisService.{set, set_json, get, get_json, set_with_options}
use nestjs_scaffold.Access.{access_of, cache_key, load_access, get_user_access, invalidate_tenant}
use nestjs_scaffold.Access.Loading.{load_access-IsMember}
use nestjs_scaffold.Access.Assigned.{load_access-assigned_roles}
use nestjs_scaffold.Access.Cache.{invalidate_tenant_lem}
use nestjs_scaffold.Samples.Database.{in_memory, in_memory_laws}
use nestjs_scaffold.Samples.Keyspace.{in_memory_redis_laws, in_memory_scan}
use nestjs_scaffold.Samples.World.{env, start, enough_rounds, tables}

abbrev reader : UserAccess
reader = record { roles = "editor" ∷ []; permissions = "user.read" ∷ [] }

abbrev after : World env
after = (load_access env "u1" "t1" start).1

load_access_run : load_access env "u1" "t1" start ≡ (ok reader, after)
unfolding load_access access_of set_json set set_with_options
load_access_run = refl

load_access-IsMember_example :
    (1
      ≤ tally in_memory tenant_membership
          (λ m. m.user_id == "u1" && m.tenant_id == "t1" && m.active)
          tables)
    × (1 ≤ tally in_memory user (λ u. u.id == "u1" && u.active) tables)
    × (1 ≤ tally in_memory tenant (λ t. t.id == "t1" && t.active) tables)
load_access-IsMember_example =
    load_access-IsMember env in_memory_laws "u1" "t1" start after reader load_access_run

one_role : (id : String) → tally in_memory role (λ r. r.id == id) tables ≤ 1
one_role id = elim (Bool-cases ("r1" == id)) [
  | inr other ↦ ground arith
  | inl first ↦ elim (Bool-cases ("r2" == id)) [
    | inr other ↦ ground arith
    | inl second ↦
        let same : "r1" ≡ "r2" = (eq_iff "r1" id).0 first ∙ sym ((eq_iff "r2" id).0 second) in
        absurd (false≢true ((eq_iff "r1" "r2").1 same))
  ]
]

load_access-assigned_roles_example :
    (role_id : String) × (1
      ≤ tally in_memory user_role_assignment
          (λ x. x.user_id == "u1" && (x.tenant_id == "t1" && x.role_id == role_id))
          tables)
    × (1
        ≤ tally in_memory role
            (λ r.
              r.id == role_id
              && (r.code == "editor"
                  && (r.enabled && (not (is_some r.tenant_id) || is_text r.tenant_id "t1"))))
            tables)
load_access-assigned_roles_example =
    load_access-assigned_roles env in_memory_laws "u1" "t1" "editor" start after reader one_role
      load_access_run refl

get_user_access_run : get_user_access env "u1" "t1" start ≡ (ok reader, after)
unfolding get_user_access get_json get load_access access_of set_json set set_with_options
get_user_access_run = refl

-- The keys of the logouts are no entries of the cache.
logout_key : (tenant_id user_id : String) → "lastLogoutAt:u1" ≢ cache_key env tenant_id user_id
logout_key tenant_id user_id e =
    let rest = tenant_id <> ":" <> user_id in
    let heads : Path Char "l" "a" = head-eq_of_cons-eq (e ∙ cons-append "a" "uth:access:" rest) in
    absurd (omega (arith, ap code heads))

invalidate_tenant_example :
    (get_user_access env "u1" "t1" (invalidate_tenant env "t1" after).1
      ≡ load_access env "u1" "t1" (invalidate_tenant env "t1" after).1)
    × (env.redis.get "lastLogoutAt:u1" (invalidate_tenant env "t1" after).1.keys
        ≡ env.redis.get "lastLogoutAt:u1" after.keys)
invalidate_tenant_example =
    invalidate_tenant_lem env in_memory_redis_laws in_memory_scan "t1" "u1" "lastLogoutAt:u1" after
      enough_rounds refl (logout_key "t1")
