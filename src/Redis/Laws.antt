-- ===== src/Redis/Laws.antt =====
-- What Redis documents of the commands, as hypotheses. Each describes the moment of the command.
use nestjs_scaffold.Base.{
  ℕ, ◌<◌, pos, String, Bool, true, not, none, some, List, ◌≡◌, ◌≢◌, ◌↔◌, ◌⊎◌, ◌==◌, ◌<>◌, is_some,
  includes, plain, if◌then◌else◌,
}
use nestjs_scaffold.Redis.{Redis, SetCommand, Condition, always, nx, xx, ex}

-- Whether SET stores its value, given whether the key is there.
abbrev pub accepts : Condition → Bool → Bool
accepts always there = true
accepts nx there = not there
accepts xx there = there

pub record RedisLaws (r : Redis) : Type 0 where
  pub get-set :
      (c : SetCommand) (j : String) (ks : r.Keyspace)
      → r.get j (r.set c ks).1 ≡ (
          if accepts c.condition (is_some (r.get c.key ks))
          then (if c.key == j then some c.value else r.get j ks)
          else r.get j ks)
  pub set_reply :
      (c : SetCommand) (ks : r.Keyspace)
      → (r.set c ks).0
        ≡ (if accepts c.condition (is_some (r.get c.key ks)) then some "OK" else none)
  pub get-del :
      (keys : List String) (j : String) (ks : r.Keyspace)
      → r.get j (r.del keys ks).1 ≡ (if includes keys j then none else r.get j ks)
  pub exists_lem :
      (k : String) (ks : r.Keyspace) → r.exists k ks ≡ (if is_some (r.get k ks) then 1 else 0)
  -- An unconditional SET with EX starts the countdown.
  pub ttl-set :
      (c : SetCommand) (ks : r.Keyspace) (n : ℕ)
      → c.condition ≡ always
      → c.expiry ≡ ex n
      → r.ttl c.key (r.set c ks).1 ≡ pos n
  pub ttl-set_ne :
      (c : SetCommand) (j : String) (ks : r.Keyspace)
      → c.key ≢ j
      → r.ttl j (r.set c ks).1 ≡ r.ttl j ks

-- SCAN, with the keys that a full iteration still has ahead of a cursor. An iteration from cursor 0
-- returns every key that is there throughout, and it ends.
pub record ScanLaws (r : Redis) : Type 1 where
  pub matches : String → String → Bool
  pub Ahead : String → String → Type 0
  pub remaining : String → ℕ
  pub from_start : (k : String) → Ahead "0" k
  pub covers :
      (cursor pattern k : String) (n : ℕ) (ks : r.Keyspace)
      → Ahead cursor k
      → is_some (r.get k ks) ≡ true
      → matches pattern k ≡ true
      → let (next, keys) = r.scan cursor pattern n ks in
        (includes keys k ≡ true) ⊎ ((next ≢ "0") × Ahead next k)
  pub returns_matches :
      (cursor pattern k : String) (n : ℕ) (ks : r.Keyspace)
      → includes (r.scan cursor pattern n ks).1 k ≡ true
      → matches pattern k ≡ true
  pub advances :
      (cursor pattern : String) (n : ℕ) (ks : r.Keyspace)
      → (r.scan cursor pattern n ks).0 ≢ "0"
      → remaining (r.scan cursor pattern n ks).0 < remaining cursor
  -- `*` matches any text, in a pattern with no other special character.
  pub star_suffix :
      (p k : String)
      → plain p ≡ true
      → (matches (p <> "*") k ≡ true) ↔ ((t : String) × (k ≡ p <> t))
  pub star_middle :
      (p s k : String)
      → plain p ≡ true
      → plain s ≡ true
      → (matches (p <> "*" <> s) k ≡ true) ↔ ((t : String) × (k ≡ p <> t <> s))
