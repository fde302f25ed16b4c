-- ===== src/Json.antt =====
-- The values that `JSON.parse` gives, and reading their properties.
use nestjs_scaffold.Base.{ℕ, String, Bool, true, false, Option, none, some, ◌==◌, if◌then◌else◌}

mutual
  pub data Json : Type 0 where
    null : Json
    bool : Bool → Json
    num : ℕ → Json
    str : String → Json
    arr : Items → Json
    obj : Fields → Json

  pub data Items : Type 0 where
    nil : Items
    cons : Json → Items → Items

  pub data Fields : Type 0 where
    end : Fields
    field : String → Json → Fields → Fields

abbrev pub lookup_field : String → Fields → Option Json
lookup_field k end = none
lookup_field k (field j v fs) = let rest = lookup_field k fs in if j == k then some v else rest

-- `v.k`, undefined where the value has no such property; reading a property of null throws, which
-- the callers test for.
abbrev pub prop : String → Json → Option Json
prop k (obj fs) = lookup_field k fs
prop k _ = none

-- `v?.k`
abbrev pub opt_prop : String → Option Json → Option Json
opt_prop k none = none
opt_prop k (some v) = prop k v

-- `typeof v === 'string' ? v : undefined`. The casts `as string` are read so too.
abbrev pub text_of : Option Json → Option String
text_of none = none
text_of (some (str s)) = some s
text_of (some _) = none

-- `typeof v === 'object'` and not null
abbrev pub is_object : Option Json → Bool
is_object none = false
is_object (some (obj _)) = true
is_object (some (arr _)) = true
is_object (some _) = false
