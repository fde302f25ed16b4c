-- ===== src/Env/Writes.antt =====
-- Calls of Prisma that return: what the client has answered, and that a transaction keeps it.
use nestjs_scaffold.Base.{◌≡◌, refl, arith}
use nestjs_scaffold.Exec.{Result, ok, err}
use nestjs_scaffold.Env.{Env, World, Action, written, write, transaction}

module _ (env : Env) {A : Type 0} where
  written-eq-ok :
      (r : Result (A × env.prisma.Db)) (w w' : World env) (a : A)
      → written env w r ≡ (ok a, w')
      → r ≡ ok (a, w'.db)
  written-eq-ok (ok (b, db)) w w' a e = ground arith
  written-eq-ok (err x) w w' a e = cc

  pub write-eq-ok :
      (f : env.prisma.Db → Result (A × env.prisma.Db)) (w w' : World env) (a : A)
      → write env f w ≡ (ok a, w')
      → f w.db ≡ ok (a, w'.db)
  write-eq-ok f w w' a e = written-eq-ok (f w.db) w w' a e

  written_rest :
      (r : Result (A × env.prisma.Db)) (w : World env)
      → (written env w r).1 ≡ record w { db = (written env w r).1.db }
  written_rest (ok (b, db)) w = refl
  written_rest (err x) w = refl

  -- Nothing but the database changes.
  pub write_rest :
      (f : env.prisma.Db → Result (A × env.prisma.Db)) (w : World env)
      → (write env f w).1 ≡ record w { db = (write env f w).1.db }
  write_rest f w = written_rest (f w.db) w

  kept :
      (r : Result A) (w₁ w w' : World env) (a : A)
      → (elim r as (λ _. Result A × World env) [
        | ok b ↦ (ok b, w₁)
        | err x ↦ (err x, record w₁ { db = env.prisma.rollback w.db w₁.db })
      ])
        ≡ (ok a, w')
      → (r ≡ ok a) × (w₁ ≡ w')
  kept (ok b) w₁ w w' a e = ground arith
  kept (err x) w₁ w w' a e = cc

  pub transaction-eq-ok :
      (m : Action env A) (w w' : World env) (a : A)
      → transaction env m w ≡ (ok a, w')
      → m w ≡ (ok a, w')
  transaction-eq-ok m w w' a e = let (r, s) = kept (m w).0 (m w).1 w w' a e in λ i. (r i, s i)
