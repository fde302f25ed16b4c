-- ===== src/Samples/Tests/GuardTests.antt =====
-- The guards and the verification codes at sample requests.
use nestjs_scaffold.Base.{◌+◌, true, none, some, [], ◌∷◌, ◌≡◌, refl}
use nestjs_scaffold.Exec.{ok, err, unauthorized}
use nestjs_scaffold.Env.{World, UserAccess, TenantStore}
use nestjs_scaffold.RedisService.{set, set_json, get, get_json, set_with_options, delete}
use nestjs_scaffold.Access.{get_user_access, load_access, access_of}
use nestjs_scaffold.Guards.{RequestUser, tenant_guard}
use nestjs_scaffold.Verification.{secret, hash, deliver_code, send, consume}
use nestjs_scaffold.Verification.Codes.{consume_lem, consume_once, send-consume}
use nestjs_scaffold.Samples.Keyspace.{in_memory_redis_laws}
use nestjs_scaffold.Samples.World.{env, start}

abbrev ann_request : RequestUser
ann_request = record { sub = "u1"; tenant_id = "t1" }

abbrev reader : UserAccess
reader = record { roles = "editor" ∷ []; permissions = "user.read" ∷ [] }

reader_read : (get_user_access env "u1" "t1" start).0 ≡ ok reader
unfolding get_user_access get_json get load_access access_of set_json set set_with_options
reader_read = refl

abbrev request_store : TenantStore
request_store = record { request_id = "q1"; tenant_id = some "t1" }

abbrev admitted : World env
admitted = (tenant_guard env true (some ann_request) start).1

abbrev sent : World env
sent = (send env "email" "ann@acme.test" "123456" start).1

send_run : send env "email" "ann@acme.test" "123456" start ≡ (ok tt, sent)
unfolding send hash secret set set_with_options deliver_code delete
send_run = refl

abbrev later : World env
later = record sent { now = sent.now + 60000 }

send-consume_example : (consume env "email" "ann@acme.test" "123456" later).0 ≡ ok tt
send-consume_example =
    send-consume env in_memory_redis_laws "k" "email" "ann@acme.test" "123456" start sent later refl
      send_run refl

abbrev used : World env
used = (consume env "email" "ann@acme.test" "123456" sent).1

consume_run : consume env "email" "ann@acme.test" "123456" sent ≡ (ok tt, used)
unfolding consume send hash secret set set_with_options deliver_code delete
consume_run = refl

consume_once_example :
    (consume env "email" "ann@acme.test" "123456" used).0
    ≡ err (unauthorized "Invalid or expired verification code")
consume_once_example =
    consume_once env in_memory_redis_laws "k" "email" "ann@acme.test" "123456" sent used refl
      consume_run

consume_example :
    ((consume env "email" "ann@acme.test" "123456" start).0
      ≡ err (unauthorized "Invalid or expired verification code"))
    × (env.redis.get "x" (consume env "email" "ann@acme.test" "123456" start).1.keys ≡ none)
consume_example =
    consume_lem env in_memory_redis_laws "k" "email" "ann@acme.test" "123456" "x" start refl
