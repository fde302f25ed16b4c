-- ===== src/Prisma/Laws.antt =====
-- What Prisma and the database document of the calls, as hypotheses. The contents of a table are
-- read as how many of its rows pass a test, which says nothing of their order.
use nestjs_scaffold.Base.{
  ℕ, ◌+◌, ◌≤◌, String, Bool, true, false, none, some, List, [], ◌≡◌, ◌≢◌, ◌⊎◌, ◌&&◌, count,
  if◌then◌else◌,
}
use nestjs_scaffold.Exec.{ok}
use nestjs_scaffold.Schema.{Model, Row}
use nestjs_scaffold.Prisma.{Prisma, OrderBy}

-- How many rows of a table pass a test.
abbrev pub tally : (p : Prisma) (m : Model) → (Row m → Bool) → p.Db → ℕ
tally p m q db = count q (p.find_many m (λ _. true) [] db)

pub record PrismaLaws (p : Prisma) : Type 0 where
  -- Reads
  pub find_many-count :
      (m : Model) (w q : Row m → Bool) (o : List OrderBy) (db : p.Db)
      → count q (p.find_many m w o db) ≡ tally p m (λ r. w r && q r) db
  pub find_first-none :
      (m : Model) (w : Row m → Bool) (o : List OrderBy) (db : p.Db)
      → p.find_first m w o db ≡ none
      → tally p m w db ≡ 0
  pub find_first-some :
      (m : Model) (w : Row m → Bool) (o : List OrderBy) (db : p.Db) (r : Row m)
      → p.find_first m w o db ≡ some r
      → (w r ≡ true) × ((q : Row m → Bool) → q r ≡ true → 1 ≤ tally p m q db)
  -- Writes
  pub create-tally :
      (m : Model) (data_of : String → Row m) (db : p.Db) (r : Row m) (db' : p.Db)
      → p.create m data_of db ≡ ok (r, db')
      → ((i : String) × (r ≡ data_of i))
        × ((q : Row m → Bool) → tally p m q db' ≡ (if q r then 1 else 0) + tally p m q db)
  pub create-others :
      (m n : Model) (data_of : String → Row m) (db : p.Db) (r : Row m) (db' : p.Db)
      → p.create m data_of db ≡ ok (r, db')
      → n ≢ m
      → (q : Row n → Bool) → tally p n q db' ≡ tally p n q db
  pub update_many-tally :
      (m : Model) (w : Row m → Bool) (f : Row m → Row m) (db : p.Db) (n : ℕ) (db' : p.Db)
      → p.update_many m w f db ≡ ok (n, db')
      → (n ≡ tally p m w db)
        × ((q : Row m → Bool) → tally p m q db' ≡ tally p m (λ r. q (if w r then f r else r)) db)
  -- An update by a key that is unique changes the row that has it.
  pub update-tally :
      (m : Model) (w : Row m → Bool) (f : Row m → Row m) (db : p.Db) (r : Row m) (db' : p.Db)
      → p.update m w f db ≡ ok (r, db')
      → tally p m w db ≤ 1
      → (q : Row m → Bool) → tally p m q db' ≡ tally p m (λ r. q (if w r then f r else r)) db
  -- An upsert by a unique key updates the rows that it finds, or else creates one.
  pub upsert-tally :
      (m : Model) (w : Row m → Bool) (c : String → Row m) (f : Row m → Row m) (db : p.Db)
      (r : Row m) (db' : p.Db)
      → p.upsert m w c f db ≡ ok (r, db')
      → ((1 ≤ tally p m w db)
          × ((q : Row m → Bool) → tally p m q db' ≡ tally p m (λ r. q (if w r then f r else r)) db))
        ⊎ ((tally p m w db ≡ 0)
            × (i : String) × ((q : Row m → Bool)
                → tally p m q db' ≡ (if q (c i) then 1 else 0) + tally p m q db))
  pub delete_many-tally :
      (m : Model) (w q : Row m → Bool) (db : p.Db)
      → tally p m q (p.delete_many m w db).1 ≡ tally p m (λ r. (if w r then false else q r)) db
  pub rollback_lem : (before failed : p.Db) → p.rollback before failed ≡ before
