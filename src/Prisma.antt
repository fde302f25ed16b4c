-- ===== src/Prisma.antt =====
-- The Prisma client over the database, which the services call: a parameter of the model. A `where`
-- is a test on the rows of a table, `data` a function on them. `none` rows are told by `Option`,
-- and a call that Prisma rejects throws a known-request error: P2002 for a unique constraint, P2025
-- for a record that is not there. Failures of the connection are not modelled.
pub mod Laws
use nestjs_scaffold.Base.{ℕ, String, Bool, Option, List}
use nestjs_scaffold.Exec.{Result}
use nestjs_scaffold.Schema.{Model, Row}

pub data OrderBy : Type 0 where
  asc desc : String → OrderBy

pub record Prisma : Type 1 where
  pub Db : Type 0
  pub find_many : (m : Model) → (Row m → Bool) → List OrderBy → Db → List (Row m)
  pub find_first : (m : Model) → (Row m → Bool) → List OrderBy → Db → Option (Row m)
  -- The data of a new row is a function of the `uuid(7)` that is made for its id.
  pub create : (m : Model) → (String → Row m) → Db → Result (Row m × Db)
  -- The flag is `skipDuplicates`.
  pub create_many : (m : Model) → List (Row m) → Bool → Db → Result (ℕ × Db)
  pub update : (m : Model) → (Row m → Bool) → (Row m → Row m) → Db → Result (Row m × Db)
  pub update_many : (m : Model) → (Row m → Bool) → (Row m → Row m) → Db → Result (ℕ × Db)
  pub upsert :
      (m : Model) → (Row m → Bool) → (String → Row m) → (Row m → Row m) → Db → Result (Row m × Db)
  pub delete : (m : Model) → (Row m → Bool) → Db → Result (Row m × Db)
  pub delete_many : (m : Model) → (Row m → Bool) → Db → ℕ × Db
  -- The database after a failed transaction, from what it was before and when it failed.
  pub rollback : Db → Db → Db
