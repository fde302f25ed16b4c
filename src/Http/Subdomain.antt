-- ===== src/Http/Subdomain.antt =====
-- The subdomain of a host in src/common/middleware/request-context.middleware.ts, and the tenant that a
-- request gets by it.
use Prim.Native.Char.{Char, code}
use text.Mathlib.TextLemmas.{nil-append, cons-append, append-nil, nil≢cons}
use nestjs_scaffold.Base.{
  ℕ, String, true, false, some, ◌≡◌, refl, sym, ap, ◌∙◌, arith, ◌||◌, ◌==◌, ◌<>◌, eq_iff, eqb,
  includes, or_else, truthy, Bool-cases, inl, inr,
}
use nestjs_scaffold.Exec.{ok}
use nestjs_scaffold.Env.{Env, World}
use nestjs_scaffold.Tenancy.Service.{resolve_tenant_id}
use nestjs_scaffold.Http.Context.{
  first_part, has_separator, skip_subdomains, subdomain_of, extract_subdomain, HttpRequest,
  requested_tenant, use_context,
}

-- A text without the separator is passed over.
first_part-append :
    (c : ℕ) (s t : String) → has_separator c s ≡ false → first_part c (s <> t) ≡ s <> first_part c t
first_part-append c String.[] t clean = rw (nil-append t, nil-append (first_part c t)) refl
first_part-append c (String.◌∷◌ d s) t clean = elim (Bool-cases (eqb (code d) c)) [
  | inl found ↦ absurd (ground (arith, found))
  | inr other ↦
      rw (cons-append d s t, cons-append d s (first_part c t), other)
        (ap (String.◌∷◌ d) (first_part-append c s t (ground (arith, other))))
]

has_separator-append :
    (c : ℕ) (s t : String) → has_separator c (s <> t) ≡ (has_separator c s || has_separator c t)
has_separator-append c String.[] t = rw (nil-append t) refl
has_separator-append c (String.◌∷◌ d s) t =
    rw (cons-append d s t) (ground (arith, has_separator-append c s t))

first_part-separator :
    (c : ℕ) (d : Char) (t : String)
    → eqb (code d) c ≡ true
    → first_part c (String.◌∷◌ d "" <> t) ≡ ""
first_part-separator c d t found = rw (cons-append d "" t, found) refl

append_there : (s t : String) → truthy (some s) ≡ true → (s <> t == "") ≡ false
append_there String.[] t there = absurd (ground arith)
append_there (String.◌∷◌ d s) t there = elim (Bool-cases (String.◌∷◌ d s <> t == "")) [
  | inl empty ↦
      absurd (nil≢cons (sym ((eq_iff (String.◌∷◌ d s <> t) "").0 empty) ∙ cons-append d s t))
  | inr full ↦ full
]

-- The name that a host starts with is its subdomain: when it has neither a dot nor a colon, is not
-- empty and is not one of the names that are skipped, whatever follows its dot.
pub subdomain_of-append :
    (name rest : String)
    → has_separator b'.' name ≡ false
    → has_separator b':' name ≡ false
    → truthy (some name) ≡ true
    → includes skip_subdomains name ≡ false
    → subdomain_of (name <> ("." <> rest)) ≡ some name
unfolding subdomain_of
subdomain_of-append name rest no_dot no_colon there taken =
    let hostname : first_part b':' (name <> ("." <> rest)) ≡ name <> ("." <> first_part b':' rest) =
      first_part-append b':' name ("." <> rest) no_colon
      ∙ ap (λ t. name <> t) (first_part-append b':' "." rest refl) in
    let dotted : has_separator b'.' (name <> ("." <> first_part b':' rest)) ≡ true =
      has_separator-append b'.' name _
      ∙ rw (no_dot, has_separator-append b'.' "." (first_part b':' rest)) refl in
    let candidate : first_part b'.' (name <> ("." <> first_part b':' rest)) ≡ name =
      first_part-append b'.' name _ no_dot
      ∙ ap (λ t. name <> t) (first_part-separator b'.' _ (first_part b':' rest) refl)
      ∙ append-nil name in
    let full : (name == "") ≡ false = ground arith in
    rw (hostname, append_there name ("." <> rest) there, dotted, candidate, taken, full) refl

module _ (env : Env) where
  -- Where tenants are resolved by subdomain, a request to the host that a tenant's slug starts runs
  -- in the tenant that the slug resolves to, whatever tenant its header asks for.
  pub use_context-subdomain :
      (req : HttpRequest) (new_id slug rest tenant_id : String) (w w₁ : World env)
      → env.get_text "app.tenantResolution" ≡ some "subdomain"
      → req.host ≡ some (slug <> ("." <> rest))
      → has_separator b'.' slug ≡ false
      → has_separator b':' slug ≡ false
      → truthy (some slug) ≡ true
      → includes skip_subdomains slug ≡ false
      → resolve_tenant_id env slug w ≡ (ok (some tenant_id), w₁)
      → truthy (some tenant_id) ≡ true
      → use_context env req new_id w ≡ (
        ok tt,
        record w₁ {
          store = some (record {
            request_id = or_else req.request_id new_id;
            tenant_id = some (env.trim tenant_id);
          });
        },
      )
  unfolding use_context requested_tenant
  use_context-subdomain req new_id slug rest tenant_id w w₁ mode host no_dot no_colon there taken
        resolved known =
      let found : extract_subdomain req.host ≡ some slug =
        ap extract_subdomain host ∙ subdomain_of-append slug rest no_dot no_colon there taken in
      rw (mode, found, there, resolved, known) refl
