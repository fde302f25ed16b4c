-- ===== src/Tenancy.antt =====
-- src/tenancy/tenancy-context.service.ts: the tenant of the request, in its AsyncLocalStorage. The
-- tenants themselves are in the children.
pub mod Service
pub mod Slugs
use nestjs_scaffold.Base.{String, Option, none, some, truthy, or_else, if◌then◌else◌}
use nestjs_scaffold.Exec.{ok, err, failure}
use nestjs_scaffold.Env.{Env, World, Action}

module _ (env : Env) where
  -- `get tenantId()`
  abbrev pub current_tenant : World env → Option String
  current_tenant w = elim w.store [ none ↦ none | some s ↦ s.tenant_id ]

  -- `setTenantId`: only where the request runs in a store
  unfoldable pub set_tenant_id : String → Action env Unit
  set_tenant_id tenant_id w = (
    ok tt,
    record w {
      store = elim w.store [
        | none ↦ none
        | some s ↦ some (record s { tenant_id = some tenant_id })
      ];
    },
  )

  unfoldable pub require_tenant_id : Action env String
  require_tenant_id w =
      if truthy (current_tenant w)
      then (ok (or_else (current_tenant w) ""), w)
      else (err (failure "Tenant context is missing"), w)
