-- ===== src/Notification/Choice.antt =====
-- Which provider src/notification/notification.module.ts chooses.
use nestjs_scaffold.Base.{false, ◌≡◌, ◌==◌, Bool-cases, inl, inr}
use nestjs_scaffold.Exec.{Result, ok, err, failure}
use nestjs_scaffold.Env.{Env}
use nestjs_scaffold.Notification.{
  Provider, aliyun, webhook, log, then_with, require_config, aliyun_config, provider_name,
  in_production, create_verification_code_delivery_provider,
}

module _ (env : Env) where
  then_with-not_log :
      {A : Type 0} (r : Result A) (f : A → Provider)
      → ((a : A) → f a ≡ log → ⊥)
      → then_with r (λ a. ok (f a)) ≡ ok log
      → ⊥
  then_with-not_log (ok a) f other e = other a (let same : f a ≡ log = cc in same)
  then_with-not_log (err x) f other e = cc

  -- In production the provider that writes codes to the log is never chosen: the choice fails, or it
  -- is a provider that delivers them.
  pub log_outside_production :
      create_verification_code_delivery_provider env ≡ ok log → in_production env ≡ false
  unfolding create_verification_code_delivery_provider
  log_outside_production e = elim (Bool-cases (provider_name env == "aliyun")) [
    | inl by_aliyun ↦
        absurd (then_with-not_log (aliyun_config env) aliyun (λ a h. cc) (rw by_aliyun at e))
    | inr other ↦ elim (Bool-cases (provider_name env == "webhook")) [
      | inl by_webhook ↦ absurd (
          then_with-not_log (require_config env "VERIFY_CODE_DELIVERY_WEBHOOK_URL") webhook
            (λ a h. cc) (rw (other, by_webhook) at e))
      | inr neither ↦ elim (Bool-cases (in_production env)) [
        | inl production ↦
            let failed : Path (Result Provider)
                (err (failure "A verification code delivery provider is required in production"))
                (ok log) =
              rw (other, neither, production) at e in
            absurd (let no : ⊥ = cc in no)
        | inr elsewhere ↦ elsewhere
      ]
    ]
  ]
