-- ===== src/Env.antt =====
-- What every service is given: the clients, the configuration and the libraries that it calls, all
-- parameters of the model; and the state that a request reads and writes.
pub mod Writes
use nestjs_scaffold.Base.{ℕ, String, Bool, Option, List, []}
use nestjs_scaffold.Exec.{Exec, Result, ok, err, or_throw, known_request}
use nestjs_scaffold.Schema.{Model, Row}
use nestjs_scaffold.Json.{Json}
use nestjs_scaffold.Prisma.{Prisma}
use nestjs_scaffold.Redis.{Redis}

-- The value cached for a user in a tenant (access/access.service.ts).
pub record UserAccess : Type 0 where
  pub roles : List String
  pub permissions : List String

pub record Env : Type 1 where
  pub prisma : Prisma
  pub redis : Redis
  -- `ConfigService.get`, by the type that the caller asks for
  pub get_text : String → Option String
  pub get_number : String → Option ℕ
  pub get_flag : String → Option Bool
  -- The rounds allowed to a SCAN loop.
  pub scan_rounds : ℕ
  -- `JSON.stringify` and `JSON.parse` at the type that is cached
  pub print_access : UserAccess → String
  pub parse_access : String → UserAccess
  -- `JSON.parse` of a message, none where it throws
  pub parse_json : String → Option Json
  -- `String(v)` of a value that is no text
  pub string_of : Json → String
  -- `new Date(t).toISOString()`
  pub iso_string : ℕ → String
  -- `String(n)`, and `toLowerCase` of a text
  pub text_of_number : ℕ → String
  pub to_lower : String → String
  -- `trim`, `replace(/\s/g, '')`, and `Number(s)`, none where it is NaN
  pub trim : String → String
  pub strip_blanks : String → String
  pub number_of_text : String → Option ℕ
  -- `bcrypt.hash` of a password with its rounds, and `bcrypt.compare`
  pub hash_password : String → ℕ → String
  pub compare_password : String → String → Bool
  -- the SHA-256 of a text, in hexadecimal
  pub sha256 : String → String
  -- `jwtService.signAsync` of a payload (sub, tenant, email, active) at a time, with its lifetime
  pub sign : String → String → Option String → Bool → String → ℕ → String
  -- the HMAC-SHA256 of a text under a secret, in hexadecimal
  pub hmac : String → String → String
  -- the delivery of a code by channel, target and code: whether the provider accepts it
  pub deliver : String → String → String → Bool

-- The store of a request (tenancy/tenancy-context.service.ts).
pub record TenantStore : Type 0 where
  pub request_id : String
  pub tenant_id : Option String

pub record World (env : Env) : Type 0 where
  pub db : env.prisma.Db
  pub keys : env.redis.Keyspace
  -- The request's store of AsyncLocalStorage, if it runs in one.
  pub store : Option TenantStore
  -- `Date.now()`, in milliseconds
  pub now : ℕ

abbrev pub Action : Env → Type 0 → Type 0
Action env A = Exec (World env) A

module _ (env : Env) where
  -- A read of the database.
  abbrev pub query : {A : Type 0} → (env.prisma.Db → A) → Action env A
  query f w = (ok (f w.db), w)

  -- A write, which Prisma may reject.
  abbrev pub written : {A : Type 0} → World env → Result (A × env.prisma.Db) → Result A × World env
  written w (ok (a, db)) = (ok a, record w { db = db })
  written w (err e) = (err e, w)

  abbrev pub write : {A : Type 0} → (env.prisma.Db → Result (A × env.prisma.Db)) → Action env A
  write f w = written w (f w.db)

  -- A Redis command that only reads, and one that writes.
  abbrev pub peek : {A : Type 0} → (env.redis.Keyspace → A) → Action env A
  peek f w = (ok (f w.keys), w)

  abbrev pub command : {A : Type 0} → (env.redis.Keyspace → A × env.redis.Keyspace) → Action env A
  command f w = let (a, keys) = f w.keys in (ok a, record w { keys = keys })

  -- `prisma.$transaction`
  abbrev pub transaction : {A : Type 0} → Action env A → Action env A
  transaction m w =
      let (r, w') = m w in
      elim r [
        | ok a ↦ (ok a, w')
        | err e ↦ (err e, record w' { db = env.prisma.rollback w.db w'.db })
      ]

  -- `findUniqueOrThrow`, `findFirstOrThrow`
  abbrev pub find_or_throw : (m : Model) → (Row m → Bool) → Action env (Row m)
  find_or_throw m w s = or_throw (env.prisma.find_first m w [] s.db) (known_request "P2025") s
