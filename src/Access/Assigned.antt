-- ===== src/Access/Assigned.antt =====
-- The roles of an access that src/access/access.service.ts reads from the database: which rows they
-- come from.
use nestjs_scaffold.Base.{
  false, ◌≤◌, String, Bool, true, not, none, some, Option, List, [], ◌∷◌, ◌++◌, ◌≡◌, refl, sym, ap,
  ◌∙◌, arith, ◌==◌, ◌&&◌, ◌||◌, eq_iff, any, flat_map, includes, is_some, is_text, count, count-ext,
  count-false, count-le, count-split, Bool-cases, inl, inr,
}
use nestjs_scaffold.Exec.{ok}
use nestjs_scaffold.Schema.{Role, UserRoleAssignment, role, user_role_assignment}
use nestjs_scaffold.Prisma.{Prisma}
use nestjs_scaffold.Prisma.Laws.{PrismaLaws, tally}
use nestjs_scaffold.Env.{Env, World, UserAccess}
use nestjs_scaffold.Access.{to_list, exists_row, in_scope, assigned_roles, load_access}
use nestjs_scaffold.Access.Loading.{exists_row-tally, access_of_lem, load_access_computed}

any_append :
    {A : Type 0} (q : A → Bool) (xs ys : List A) → any q (xs ++ ys) ≡ (any q xs || any q ys)
any_append q [] ys = ground arith
any_append q (x ∷ xs) ys = ground (arith, any_append q xs ys)

-- What is in a concatenation comes from an element, which every test that it passes counts.
found_in :
    {A B : Type 0} (q : B → Bool) (f : A → List B) (xs : List A)
    → any q (flat_map f xs) ≡ true
    → (x : A) × (any q (f x) ≡ true) × ((t : A → Bool) → t x ≡ true → 1 ≤ count t xs)
found_in q f [] h = absurd cc
found_in q f (x ∷ xs) h = elim (Bool-cases (any q (f x))) [
  | inl here ↦ (x, here, λ t passes. ground arith)
  | inr elsewhere ↦
      let (y, there, counted) =
        found_in q f xs (ground (arith, any_append q (f x) (flat_map f xs))) in
      (y, there, λ t passes. omega (arith, counted t passes))
]

in_option :
    {B : Type 0} (q : B → Bool) (o : Option B)
    → any q (to_list o) ≡ true
    → (b : B) × (o ≡ some b) × (q b ≡ true)
in_option q none h = absurd cc
in_option q (some b) h = (b, refl, ground arith)

module _ (p : Prisma) (laws : PrismaLaws p) where
  -- The row of an id that is unique passes what some row of that id passes.
  only_row :
      (db : p.Db) (i : String) (good : Role → Bool) (r : Role)
      → tally p role (λ x. x.id == i) db ≤ 1
      → 1 ≤ tally p role (λ x. x.id == i && good x) db
      → (r.id == i) ≡ true
      → ((t : Role → Bool) → t r ≡ true → 1 ≤ tally p role t db)
      → good r ≡ true
  only_row db i good r unique there is_i counted = elim (Bool-cases (good r)) [
    | inl passes ↦ passes
    | inr fails ↦
        let bad = λ (x : Role). x.id == i && not (good x) in
        let other : 1 ≤ tally p role bad db = counted bad (ground arith) in
        let both =
          count-split (λ (x : Role). x.id == i && good x) bad (λ x. x.id == i)
            (p.find_many role (λ _. true) [] db) (λ x h. (ground arith, ground arith))
            (λ x h. ground arith) in
        absurd (omega (arith, unique, there, other, both))
  ]

  -- The rows of a query pass its test.
  passes_where :
      (db : p.Db) (w : UserRoleAssignment → Bool) (x : UserRoleAssignment)
      → ((t : UserRoleAssignment → Bool)
          → t x ≡ true
          → 1 ≤ count t (p.find_many user_role_assignment w [] db))
      → w x ≡ true
  passes_where db w x counted = elim (Bool-cases (w x)) [
    | inl passes ↦ passes
    | inr fails ↦
        let rows = p.find_many user_role_assignment (λ _. true) [] db in
        let nothing =
          laws.find_many-count user_role_assignment w (λ y. not (w y)) [] db
          ∙ count-ext (λ y. w y && not (w y)) (λ _. false) rows (λ y. ground arith)
          ∙ count-false rows in
        absurd (omega (arith, nothing, counted (λ y. not (w y)) (ground arith)))
  ]

  counted_rows :
      (db : p.Db) (w t : UserRoleAssignment → Bool)
      → 1 ≤ count t (p.find_many user_role_assignment w [] db)
      → 1 ≤ tally p user_role_assignment t db
  counted_rows db w t some_there =
      let rows = p.find_many user_role_assignment (λ _. true) [] db in
      omega (
        arith,
        some_there,
        laws.find_many-count user_role_assignment w t [] db,
        count-le (λ y. w y && t y) t rows (λ y h. ground arith),
      )

  assigned :
      (db : p.Db) (user_id tenant_id c : String)
      → ((i : String) → tally p role (λ r. r.id == i) db ≤ 1)
      → any (λ r. r.code == c) (assigned_roles p db user_id tenant_id) ≡ true
      → (role_id : String) × (1
          ≤ tally p user_role_assignment
              (λ x. x.user_id == user_id && (x.tenant_id == tenant_id && x.role_id == role_id))
              db)
        × (1
            ≤ tally p role
                (λ r.
                  r.id == role_id
                  && (r.code == c
                      && (r.enabled
                          && (not (is_some r.tenant_id) || is_text r.tenant_id tenant_id))))
                db)
  assigned db user_id tenant_id c unique h =
      let w = λ (a : UserRoleAssignment).
        a.user_id == user_id
        && a.tenant_id == tenant_id
        && exists_row p db role
            (λ r. r.id == a.role_id && r.enabled && in_scope p db tenant_id r) in
      let (x, in_role, counted) =
        found_in (λ (r : Role). r.code == c)
          (λ (a : UserRoleAssignment). to_list (p.find_first role (λ r. r.id == a.role_id) [] db))
          (p.find_many user_role_assignment w [] db) h in
      let passes : w x ≡ true = passes_where db w x counted in
      let (r, found, code) =
        in_option (λ (r : Role). r.code == c) (p.find_first role (λ r. r.id == x.role_id) [] db)
          in_role in
      let (is_id, row) = laws.find_first-some role (λ r. r.id == x.role_id) [] db r found in
      let good = λ (r : Role). r.enabled && in_scope p db tenant_id r in
      let usable =
        exists_row-tally p laws role
          (λ r. r.id == x.role_id && r.enabled && in_scope p db tenant_id r) db
          (ground (arith, passes)) in
      let rows = p.find_many role (λ _. true) [] db in
      let same =
        count-ext (λ (r : Role). r.id == x.role_id && r.enabled && in_scope p db tenant_id r)
          (λ r. r.id == x.role_id && good r) rows (λ r. ground arith) in
      let enabled : good r ≡ true =
        only_row db x.role_id good r (unique x.role_id) (omega (arith, usable, same)) is_id row in
      (
        x.role_id,
        counted_rows db w
            (λ y. y.user_id == user_id && (y.tenant_id == tenant_id && y.role_id == x.role_id))
            (counted _ (ground (arith, passes, (eq_iff x.role_id x.role_id).1 refl))),
        row _ (ground (arith, is_id, code, enabled)),
      )

module _ (env : Env) (prisma : PrismaLaws env.prisma) where
  -- Where the ids of the roles are unique, every role of an access that is read from the database is
  -- assigned to the user in the tenant, and is the code of an enabled role that is global or the
  -- tenant's own.
  pub load_access-assigned_roles :
      (user_id tenant_id c : String) (w w' : World env) (a : UserAccess)
      → ((i : String) → tally env.prisma role (λ r. r.id == i) w.db ≤ 1)
      → load_access env user_id tenant_id w ≡ (ok a, w')
      → includes a.roles c ≡ true
      → (role_id : String) × (1
          ≤ tally env.prisma user_role_assignment
              (λ x. x.user_id == user_id && (x.tenant_id == tenant_id && x.role_id == role_id))
              w.db)
        × (1
            ≤ tally env.prisma role
                (λ r.
                  r.id == role_id
                  && (r.code == c
                      && (r.enabled
                          && (not (is_some r.tenant_id) || is_text r.tenant_id tenant_id))))
                w.db)
  load_access-assigned_roles user_id tenant_id c w w' a unique e held =
      let roles = assigned_roles env.prisma w.db user_id tenant_id in
      let computed = load_access_computed env prisma user_id tenant_id w w' a e in
      assigned env.prisma prisma w.db user_id tenant_id c unique (
        sym (access_of_lem env.prisma w.db roles c).0
        ∙ ap (λ (x : UserAccess). includes x.roles c) (sym computed)
        ∙ held)
