-- ===== src/Verification.antt =====
-- src/auth/verification-code.service.ts: codes that are sent to an address and used once.
pub mod Codes
use nestjs_scaffold.Base.{
  String, Bool, true, false, not, some, none, [], ◌∷◌, ◌<>◌, or_else, is_text, if◌then◌else◌,
}
use nestjs_scaffold.Exec.{
  ◌>>=◌, ◌>>◌, pure, throw, throw_if, or_throw, conflict, unauthorized, failure,
}
use nestjs_scaffold.Env.{Env, Action, command}
use nestjs_scaffold.RedisService.{for_seconds, set, delete}
use nestjs_scaffold.RedisService.Laws.{for_seconds_nx}

abbrev pub code_key : String → String → String
code_key channel target = "verify:code:" <> channel <> ":" <> target

abbrev pub cooldown_key : String → String → String
cooldown_key channel target = "verify:cooldown:" <> channel <> ":" <> target

module _ (env : Env) where
  -- `config.getOrThrow('JWT_SECRET')`
  unfoldable pub secret : Action env String
  secret = or_throw (env.get_text "JWT_SECRET") (failure "JWT_SECRET")

  unfoldable pub hash : String → Action env String
  unfolding secret
  hash code = do key ← secret; pure (env.hmac key code)

  -- The code that is sent, for the six digits that `randomInt` gives.
  abbrev pub chosen_code : String → String
  chosen_code digits = or_else (env.get_text "VERIFY_CODE_FIXED") digits

  -- The `try` of `send`: a delivery that fails takes both keys back.
  unfoldable pub deliver_code : String → String → String → Action env Unit
  deliver_code channel target code = if env.deliver channel target code then pure tt else (do
    delete env (code_key channel target ∷ cooldown_key channel target ∷ [])
    throw (failure "Delivery failed"))

  unfoldable pub send : String → String → String → Action env Unit
  send channel target digits = do
    allowed ←
        set env (cooldown_key channel target) "1"
          (for_seconds_nx (or_else (env.get_number "VERIFY_CODE_COOLDOWN_SECONDS") 60))
    throw_if (not allowed) (conflict "Verification code was sent too recently")
    hashed ← hash (chosen_code digits)
    set env (code_key channel target) hashed
        (for_seconds (or_else (env.get_number "VERIFY_CODE_TTL_SECONDS") 300))
    deliver_code channel target (chosen_code digits)

  -- The script of `consume`: one command that compares and deletes.
  abbrev pub compare_and_delete : String → String → env.redis.Keyspace → Bool × env.redis.Keyspace
  compare_and_delete key candidate ks =
      if is_text (env.redis.get key ks) candidate
      then (true, (env.redis.del (key ∷ []) ks).1)
      else (false, ks)

  unfoldable pub consume : String → String → String → Action env Unit
  consume channel target code = do
    candidate ← hash code
    consumed ← command env (compare_and_delete (code_key channel target) candidate)
    throw_if (not consumed) (unauthorized "Invalid or expired verification code")
