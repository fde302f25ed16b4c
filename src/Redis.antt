-- ===== src/Redis.antt =====
-- The Redis client (ioredis) that the services call: a parameter of the model. A keyspace holds the
-- texts stored under the keys with the seconds that they have left. A lazy client's connecting is
-- not modelled.
pub mod Laws
use nestjs_scaffold.Base.{ℕ, ℤ, String, Option, List}

-- The arguments of `client.set`: EX or PX with its amount, and NX or XX.
pub data Expiry : Type 0 where
  forever : Expiry
  ex px : ℕ → Expiry

pub data Condition : Type 0 where
  always nx xx : Condition

pub record SetCommand : Type 0 where
  pub key : String
  pub value : String
  pub expiry : Expiry
  pub condition : Condition

pub record Redis : Type 1 where
  pub Keyspace : Type 0
  pub get : String → Keyspace → Option String
  -- The reply is 'OK' or null.
  pub set : SetCommand → Keyspace → Option String × Keyspace
  pub del : List String → Keyspace → ℕ × Keyspace
  pub exists : String → Keyspace → ℕ
  pub expire : String → ℕ → Keyspace → ℕ × Keyspace
  -- Seconds; negative where there is no key or no expiry.
  pub ttl : String → Keyspace → ℤ
  pub incr : String → Keyspace → ℕ × Keyspace
  -- A cursor, a pattern and a count give the next cursor and some keys.
  pub scan : String → String → ℕ → Keyspace → String × List String
