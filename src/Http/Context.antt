-- ===== src/Http/Context.antt =====
-- src/common/middleware/request-context.middleware.ts, with `getRequestMeta` of
-- src/auth/auth.controller.ts and `getTracker` of src/common/guards/user-aware-throttler.guard.ts.
use Prim.Native.Char.{code}
use nestjs_scaffold.Base.{
  ℕ, String, Bool, false, not, Option, none, some, List, [], ◌∷◌, ◌&&◌, ◌||◌, ◌==◌, ◌<>◌, eqb,
  includes, coalesce, or_else, truthy, if◌then◌else◌,
}
use nestjs_scaffold.Exec.{◌>>=◌, pure}
use nestjs_scaffold.Env.{Env, Action}
use nestjs_scaffold.Tenancy.Service.{resolve_tenant_id}
use nestjs_scaffold.Auth.Tokens.{AuthRequestMeta, AuthenticatedUser}

-- `s.split(c)[0]`, and whether there is a second part; the separator is given by its code
abbrev pub first_part : ℕ → String → String
first_part c String.[] = String.[]
first_part c (String.◌∷◌ d s) =
    let rest = first_part c s in if eqb (code d) c then String.[] else String.◌∷◌ d rest

abbrev pub has_separator : ℕ → String → Bool
has_separator c String.[] = false
has_separator c (String.◌∷◌ d s) = eqb (code d) c || has_separator c s

abbrev pub skip_subdomains : List String
skip_subdomains = "api" ∷ "www" ∷ "app" ∷ "admin" ∷ []

-- `extractSubdomain` of a host that is there
unfoldable pub subdomain_of : String → Option String
subdomain_of host =
    let hostname = first_part b':' host in
    let candidate = first_part b'.' hostname in
    if host == "" || not (has_separator b'.' hostname)
    then none
    else if candidate == "" || includes skip_subdomains candidate
    then none
    else some candidate

abbrev pub extract_subdomain : Option String → Option String
extract_subdomain none = none
extract_subdomain (some host) = subdomain_of host

-- A header of Node, of which there may be several.
pub data HeaderValue : Type 0 where
  one : String → HeaderValue
  many : List String → HeaderValue

pub record HttpRequest : Type 0 where
  pub request_id : Option String
  pub tenant_id : Option String
  pub host : Option String
  pub forwarded_for : Option HeaderValue
  pub user_agent : Option HeaderValue
  pub ip : Option String
  pub remote_address : Option String
  -- What passport has read of the bearer token, if that is there, signed and not expired.
  pub token : Option AuthenticatedUser

abbrev first_text : List String → Option String
first_text [] = none
first_text (s ∷ rest) = some s

-- `Array.isArray(h) ? h[0] : h`
abbrev pub first_value : Option HeaderValue → Option String
first_value none = none
first_value (some (one s)) = some s
first_value (some (many xs)) = first_text xs

module _ (env : Env) where
  abbrev pub trimmed : Option String → Option String
  trimmed none = none
  trimmed (some s) = some (env.trim s)

  -- The tenant id of the request's header, after the subdomain has had its say.
  unfoldable pub requested_tenant : HttpRequest → Action env (Option String)
  requested_tenant req =
      if or_else (env.get_text "app.tenantResolution") "header" == "subdomain"
        && truthy (extract_subdomain req.host)
      then (do
        resolved ← resolve_tenant_id env (or_else (extract_subdomain req.host) "")
        pure (if truthy resolved then resolved else req.tenant_id))
      else pure req.tenant_id

  -- `use`; the id of a request that has none is given
  unfoldable pub use_context : HttpRequest → String → Action env Unit
  use_context req new_id = do
    raw ← requested_tenant req
    λ w. (pure tt) (record w {
      store = some (record { request_id = or_else req.request_id new_id; tenant_id = trimmed raw });
    })

  abbrev pub first_address : Option String → Option String
  first_address none = none
  first_address (some s) = some (env.trim (first_part b',' s))

  -- `getRequestMeta`
  unfoldable pub get_request_meta : HttpRequest → AuthRequestMeta
  get_request_meta req = record {
    ip_address =
        coalesce (first_address (first_value req.forwarded_for))
          (coalesce req.ip req.remote_address);
    user_agent = first_value req.user_agent;
  }

-- `getTracker`, from the fields `user.id` and `ip` of the request
unfoldable pub get_tracker : Option String → Option String → String
get_tracker user_id ip =
    if truthy user_id then "user:" <> or_else user_id "" else "ip:" <> or_else ip "unknown"
