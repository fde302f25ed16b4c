-- ===== src/Samples/Keyspace.antt =====
-- A Redis client over keys in memory, and the laws of Redis for it. Time does not pass in it.
use nestjs_scaffold.Base.{
  true, String, Bool, Option, none, some, List, [], ◌∷◌, map, ◌≡◌, refl, sym, ◌∙◌, inl, ◌==◌,
  eq_iff, ℤ, pos, negsuc, arith, is_some, count, includes, includes-filter, filter, if◌then◌else◌,
}
use nestjs_scaffold.Redis.{Redis, SetCommand, Expiry, forever, ex, px}
use nestjs_scaffold.Redis.Laws.{RedisLaws, ScanLaws, accepts}
use nestjs_scaffold.Samples.Glob.{glob, glob_suffix, glob_middle}

pub record Entry : Type 0 where
  pub key : String
  pub value : String
  pub expiry : Expiry

abbrev pub lookup : String → List Entry → Option Entry
lookup k [] = none
lookup k (e ∷ rest) = if e.key == k then some e else lookup k rest

abbrev value_of : Option Entry → Option String
value_of none = none
value_of (some e) = some e.value

abbrev seconds : Option Entry → ℤ
seconds none = negsuc 1
seconds (some e) = elim e.expiry [ forever ↦ negsuc 0 | ex n ↦ pos n | px n ↦ pos n ]

abbrev drop : (String → Bool) → List Entry → List Entry
drop gone [] = []
drop gone (e ∷ rest) = let others = drop gone rest in if gone e.key then others else e ∷ others

abbrev store : SetCommand → List Entry → List Entry
store c ks = record { key = c.key; value = c.value; expiry = c.expiry } ∷ ks

abbrev keys_of : List Entry → List String
keys_of ks = map (λ (e : Entry). e.key) ks

abbrev pub in_memory_redis : Redis
in_memory_redis = record {
  Keyspace = List Entry;
  get = λ k ks. value_of (lookup k ks);
  set = λ c ks.
      if accepts c.condition (is_some (lookup c.key ks))
      then (some "OK", store c ks)
      else (none, ks);
  del = λ keys ks. (count (λ (e : Entry). includes keys e.key) ks, drop (includes keys) ks);
  exists = λ k ks. if is_some (lookup k ks) then 1 else 0;
  expire = λ k n ks. (if is_some (lookup k ks) then 1 else 0, ks);
  ttl = λ k ks. seconds (lookup k ks);
  incr = λ k ks. (1, ks);
  scan = λ cursor pattern n ks. ("0", filter (glob pattern) (keys_of ks));
}

pub some_value : (o : Option Entry) → is_some (value_of o) ≡ is_some o
some_value none = refl
some_value (some e) = refl

lookup-drop :
    (gone : String → Bool) (k : String) (ks : List Entry)
    → lookup k (drop gone ks) ≡ (if gone k then none else lookup k ks)
lookup-drop gone k [] = ground arith
lookup-drop gone k (e ∷ rest) = ground (arith, lookup-drop gone k rest, eq_iff e.key k)

pub includes-keys : (k : String) (ks : List Entry) → is_some (lookup k ks) ≡ includes (keys_of ks) k
includes-keys k [] = refl
includes-keys k (e ∷ rest) = ground (arith, includes-keys k rest)

pub in_memory_redis_laws : RedisLaws in_memory_redis
in_memory_redis_laws = record {
  get-set = λ c j ks. rw (some_value (lookup c.key ks)) (ground arith);
  set_reply = λ c ks. rw (some_value (lookup c.key ks)) (ground arith);
  get-del = λ keys j ks. ground (arith, lookup-drop (includes keys) j ks);
  exists_lem = λ k ks. rw (some_value (lookup k ks)) refl;
  ttl-set = λ c ks n a e. ground (arith, eq_iff c.key c.key);
  ttl-set_ne = λ c j ks ne. ground (arith, eq_iff c.key j);
}

pub scanned-matches :
    (pattern k : String) (ks : List Entry)
    → includes (filter (glob pattern) (keys_of ks)) k ≡ true
    → glob pattern k ≡ true
scanned-matches pattern k ks found = ground (arith, includes-filter (glob pattern) (keys_of ks) k)

unfoldable pub in_memory_scan : ScanLaws in_memory_redis
in_memory_scan = record {
  matches = glob;
  Ahead = λ cursor k. Unit;
  remaining = λ cursor. 0;
  from_start = λ k. tt;
  covers = λ cursor pattern k n ks ahead there m. inl (
      includes-filter (glob pattern) (keys_of ks) k
      ∙ rw (sym (includes-keys k ks), m, sym (some_value (lookup k ks)), there) refl);
  returns_matches = λ cursor pattern k n ks found. scanned-matches pattern k ks found;
  advances = λ cursor pattern n ks ne. absurd (ne refl);
  star_suffix = λ p k literal. glob_suffix p k literal;
  star_middle = λ p s k hp hs. glob_middle p s k hp hs;
}
