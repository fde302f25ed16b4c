-- ===== src/Samples/Database.antt =====
-- A Prisma client over tables in memory, and the laws of Prisma for it.
use nestjs_scaffold.Base.{
  ◌+◌, ◌≤◌, String, Bool, true, false, not, Option, none, some, List, [], ◌∷◌, ◌++◌, map, ◌≡◌, refl,
  sym, ap, subst, ◌∙◌, ◌&&◌, inl, inr, arith, length, filter, count, if◌then◌else◌, Option-cases,
  Bool-cases,
}
use nestjs_scaffold.Exec.{Error, Result, ok, err, known_request}
use nestjs_scaffold.Schema.{Model, Row}
use nestjs_scaffold.Prisma.{Prisma}
use nestjs_scaffold.Prisma.Laws.{PrismaLaws, tally}
use nestjs_scaffold.Samples.Tables.{Tables, put, put_same, put_other}

module _ {A : Type 0} where
  abbrev first : (A → Bool) → List A → Option A
  first w [] = none
  first w (x ∷ xs) = if w x then some x else first w xs

  abbrev change : (A → Bool) → (A → A) → A → A
  change w f r = if w r then f r else r

  -- The answer of a change of one row, from the row that is found.
  abbrev changed : {D : Type 0} → Option A → (A → A × D) → Result (A × D) → Result (A × D)
  changed none f missing = missing
  changed (some r) f missing = ok (f r)

abbrev pub in_memory : Prisma
in_memory = record {
  Db = Tables;
  find_many = λ m w o db. filter w (db m);
  find_first = λ m w o db. first w (db m);
  create = λ m c db. ok (c "new", put m (c "new" ∷ db m) db);
  create_many = λ m rows skip db. ok (length rows, put m (rows ++ db m) db);
  update = λ m w f db.
      changed (first w (db m)) (λ r. (f r, put m (map (change w f) (db m)) db))
        (err (known_request "P2025"));
  update_many = λ m w f db. ok (count w (db m), put m (map (change w f) (db m)) db);
  upsert = λ m w c f db.
      changed (first w (db m)) (λ r. (f r, put m (map (change w f) (db m)) db))
        (ok (c "new", put m (c "new" ∷ db m) db));
  delete = λ m w db.
      changed (first w (db m)) (λ r. (r, put m (filter (λ x. not (w x)) (db m)) db))
        (err (known_request "P2025"));
  delete_many = λ m w db. (count w (db m), put m (filter (λ x. not (w x)) (db m)) db);
  rollback = λ before failed. before;
}

module _ {A : Type 0} where
  count-filter : (w q : A → Bool) (xs : List A) → count q (filter w xs) ≡ count (λ r. w r && q r) xs
  count-filter w q [] = refl
  count-filter w q (x ∷ xs) = ground (arith, count-filter w q xs)

  filter-true : (xs : List A) → filter (λ _. true) xs ≡ xs
  filter-true [] = refl
  filter-true (x ∷ xs) = ap (λ ys. x ∷ ys) (filter-true xs)

  count-change :
      (w q : A → Bool) (f : A → A) (xs : List A)
      → count q (map (change w f) xs) ≡ count (λ r. q (if w r then f r else r)) xs
  count-change w q f [] = refl
  count-change w q f (x ∷ xs) = ground (arith, count-change w q f xs)

  count-rest :
      (w q : A → Bool) (xs : List A)
      → count q (filter (λ x. not (w x)) xs) ≡ count (λ r. (if w r then false else q r)) xs
  count-rest w q [] = refl
  count-rest w q (x ∷ xs) = ground (arith, count-rest w q xs)

  first-none : (w : A → Bool) (xs : List A) → first w xs ≡ none → count w xs ≡ 0
  first-none w [] h = refl
  first-none w (x ∷ xs) h = ground (arith, first-none w xs)

  first-some :
      (w : A → Bool) (xs : List A) (r : A)
      → first w xs ≡ some r
      → (w r ≡ true) × ((q : A → Bool) → q r ≡ true → 1 ≤ count q xs)
  first-some w [] r h = cc
  first-some w (x ∷ xs) r h = elim (Bool-cases (w x)) [
    | inl passes ↦
        let here : x ≡ r = ground arith in
        subst (λ y. (w y ≡ true) × ((q : A → Bool) → q y ≡ true → 1 ≤ count q (x ∷ xs))) here
          (passes, λ q qx. ground arith)
    | inr fails ↦
        let (passes, counted) = first-some w xs r (ground arith) in
        (passes, λ q qr. omega (arith, counted q qr))
  ]

-- The rows of a table that has been written.
rows_put :
    (m : Model) (rows : List (Row m)) (db : Tables) (q : Row m → Bool)
    → tally in_memory m q (put m rows db) ≡ count q rows
rows_put m rows db q = ap (count q) (filter-true (put m rows db m) ∙ put_same m rows db)

rows_of : (m : Model) (db : Tables) (q : Row m → Bool) → tally in_memory m q db ≡ count q (db m)
rows_of m db q = ap (count q) (filter-true (db m))

returned : {A : Type 0} (x y : A) → Path (Result A) (ok x) (ok y) → x ≡ y
returned x y h = cc

-- The rows of a table after a write that put them there.
rows_after :
    {A : Type 0} (m : Model) (rows : List (Row m)) (db db' : Tables) (a b : A) (q : Row m → Bool)
    → Path (Result (A × Tables)) (ok (a, put m rows db)) (ok (b, db'))
    → tally in_memory m q db' ≡ count q rows
rows_after m rows db db' a b q h =
    subst (λ d. tally in_memory m q d ≡ count q rows) (ap (λ x. x.1) (returned _ _ h))
      (rows_put m rows db q)

value_after :
    {A : Type 0} (db db' : Tables) (a b : A)
    → Path (Result (A × Tables)) (ok (a, db)) (ok (b, db'))
    → b ≡ a
value_after db db' a b h = sym (ap (λ x. x.0) (returned _ _ h))

-- A row made by a function, at the front of its table.
made :
    (m : Model) (c : String → Row m) (db : Tables) (r : Row m) (db' : Tables)
    → in_memory.create m c db ≡ ok (r, db')
    → (q : Row m → Bool)
    → tally in_memory m q db' ≡ (if q (c "new") then 1 else 0) + tally in_memory m q db
made m c db r db' h q =
    rows_after m _ db db' (c "new") r q h
    ∙ ap (λ n. (if q (c "new") then 1 else 0) + n) (sym (rows_of m db q))

changed_rows :
    (m : Model) (w : Row m → Bool) (f : Row m → Row m) (db db' : Tables) {A : Type 0} (a b : A)
    → Path (Result (A × Tables)) (ok (a, put m (map (change w f) (db m)) db)) (ok (b, db'))
    → (q : Row m → Bool)
    → tally in_memory m q db' ≡ tally in_memory m (λ r. q (if w r then f r else r)) db
changed_rows m w f db db' a b h q =
    rows_after m _ db db' a b q h ∙ count-change w q f (db m) ∙ sym (rows_of m db _)

refused : {A : Type 0} (e : Error) (x : A) → Path (Result A) (err e) (ok x) → ⊥
refused e x h = cc

pub in_memory_laws : PrismaLaws in_memory
in_memory_laws = record {
  find_many-count = λ m w q o db. count-filter w q (db m) ∙ sym (rows_of m db _);
  find_first-none = λ m w o db h. rows_of m db w ∙ first-none w (db m) h;
  find_first-some = λ m w o db r h.
      let (passes, counted) = first-some w (db m) r h in
      (passes, λ q qr. subst (λ n. 1 ≤ n) (sym (rows_of m db q)) (counted q qr));
  create-tally = λ m c db r db' h.
      let same = value_after _ db' (c "new") r h in
      (
        ("new", same),
        λ q.
            subst (λ x. tally in_memory m q db' ≡ (if q x then 1 else 0) + tally in_memory m q db)
              (sym same) (made m c db r db' h q),
      );
  create-others = λ m n c db r db' h other q.
      subst (λ d. tally in_memory n q d ≡ tally in_memory n q db) (ap (λ x. x.1) (returned _ _ h))
        (ap (λ rows. count q (filter (λ _. true) rows)) (put_other m n _ db other));
  update_many-tally = λ m w f db n db' h.
      (value_after _ db' _ n h ∙ sym (rows_of m db w), changed_rows m w f db db' _ n h);
  update-tally = λ m w f db r db' h few. elim (Option-cases (first w (db m))) [
    | inl missing ↦
        let lost : Path (Result (Row m × Tables)) (err (known_request "P2025")) (ok (r, db')) =
          rw missing at h in
        absurd (refused _ _ lost)
    | inr (x, found) ↦ changed_rows m w f db db' (f x) r (rw found at h)
  ];
  upsert-tally = λ m w c f db r db' h. elim (Option-cases (first w (db m))) [
    | inl missing ↦
        inr
          (rows_of m db w ∙ first-none w (db m) missing, "new", made m c db r db' (rw missing at h))
    | inr (x, found) ↦
        let (passes, counted) = first-some w (db m) x found in
        inl (
          subst (λ n. 1 ≤ n) (sym (rows_of m db w)) (counted w passes),
          changed_rows m w f db db' (f x) r (rw found at h),
        )
  ];
  delete_many-tally = λ m w q db. rows_put m _ db q ∙ count-rest w q (db m) ∙ sym (rows_of m db _);
  rollback_lem = λ before failed. refl;
}
