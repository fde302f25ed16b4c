-- ===== src/Notification.antt =====
-- src/notification: the choice of the provider that delivers codes, and the providers. The clients of
-- Aliyun, `fetch` and the templates are parameters.
pub mod Choice
use nestjs_scaffold.Base.{
  ℕ, ◌+◌, ◌-◌, ◌*◌, ◌/◌, String, Bool, true, false, not, Option, none, some, ◌==◌, ◌&&◌, is_some,
  is_text, or_else, or_text, truthy, ◌<>◌, if◌then◌else◌,
}
use nestjs_scaffold.Exec.{Result, ok, err, failure, service_unavailable}
use nestjs_scaffold.Env.{Env}

pub record AliyunVerificationCodeConfig : Type 0 where
  pub access_key_id : String
  pub access_key_secret : String
  pub sms_sign_name : String
  pub sms_template_code : String
  pub mail_from_address : String
  pub mail_from_name : String
  pub app_name : String
  pub code_ttl_minutes : ℕ

pub data Provider : Type 0 where
  aliyun : AliyunVerificationCodeConfig → Provider
  webhook : String → Provider
  log : Provider

abbrev pub then_with : {A B : Type 0} → Result A → (A → Result B) → Result B
then_with (ok a) f = f a
then_with (err e) f = err e

-- `Math.ceil(n / 60)`
abbrev pub ceil_minutes : ℕ → ℕ
ceil_minutes n = (n + 59) / 60

module _ (env : Env) where
  abbrev pub trimmed_text : String → Option String
  trimmed_text key =
      if is_some (env.get_text key) then some (env.trim (or_else (env.get_text key) "")) else none

  unfoldable pub require_config : String → Result String
  require_config key =
      if truthy (trimmed_text key)
      then ok (or_else (trimmed_text key) "")
      else err (failure (key <> " is required for the selected verification code provider"))

  abbrev pub app_name : String
  app_name = or_else (env.get_text "APP_NAME") "nestjs-scaffold"

  unfoldable pub aliyun_config : Result AliyunVerificationCodeConfig
  aliyun_config = then_with (require_config "ALIBABA_CLOUD_ACCESS_KEY_ID") λ id.
      then_with (require_config "ALIBABA_CLOUD_ACCESS_KEY_SECRET") λ secret.
        then_with (require_config "ALIYUN_SMS_SIGN_NAME") λ sign_name.
          then_with (require_config "ALIYUN_SMS_TEMPLATE_CODE") λ template.
            then_with (require_config "ALIYUN_MAIL_FROM_ADDRESS") λ address. ok (record {
              access_key_id = id;
              access_key_secret = secret;
              sms_sign_name = sign_name;
              sms_template_code = template;
              mail_from_address = address;
              mail_from_name =
                  if truthy (trimmed_text "ALIYUN_MAIL_FROM_NAME")
                  then or_else (trimmed_text "ALIYUN_MAIL_FROM_NAME") ""
                  else app_name;
              app_name = app_name;
              code_ttl_minutes =
                  ceil_minutes (or_else (env.get_number "VERIFY_CODE_TTL_SECONDS") 300);
            })

  -- The name of the provider, configured or by what else is configured.
  abbrev pub provider_name : String
  provider_name = or_else (env.get_text "VERIFY_CODE_PROVIDER") (
      if truthy (env.get_text "ALIBABA_CLOUD_ACCESS_KEY_ID")
      then "aliyun"
      else if truthy (env.get_text "VERIFY_CODE_DELIVERY_WEBHOOK_URL")
      then "webhook"
      else "log")

  abbrev pub in_production : Bool
  in_production = or_else (env.get_text "NODE_ENV") "development" == "production"

  unfoldable pub create_verification_code_delivery_provider : Result Provider
  create_verification_code_delivery_provider =
      if provider_name == "aliyun"
      then then_with aliyun_config (λ config. ok (aliyun config))
      else if provider_name == "webhook"
      then then_with (require_config "VERIFY_CODE_DELIVERY_WEBHOOK_URL") (λ url. ok (webhook url))
      else if in_production
      then err (failure "A verification code delivery provider is required in production")
      else ok log

-- What the providers call: the code of the reply of an SMS, whether a mail has a reply, and whether a
-- webhook answers with success; each by its target and the code.
pub record Clients : Type 0 where
  pub send_sms : AliyunVerificationCodeConfig → String → String → Option String
  pub single_send_mail : AliyunVerificationCodeConfig → String → String → Bool
  pub post : String → String → String → String → Bool

-- `deliver` of each provider
unfoldable pub deliver : Clients → Provider → String → String → String → Result {0} Unit
deliver clients (aliyun config) channel target code =
    if channel == "phone"
    then (if is_text (clients.send_sms config target code) "OK"
        then ok tt
        else err (service_unavailable "SMS delivery failed"))
    else (if clients.single_send_mail config target code
        then ok tt
        else err (service_unavailable "Email delivery failed"))
deliver clients (webhook url) channel target code =
    if clients.post url channel target code
    then ok tt
    else err (service_unavailable "Verification code provider rejected delivery")
deliver clients log channel target code = ok tt
