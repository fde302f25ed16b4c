-- ===== src/Roles/Bindings.antt =====
-- The bindings that src/roles/roles.service.ts writes: after the transaction of `setPermissions`
-- the role grants, of the permissions listed, exactly those selected.
use nestjs_scaffold.Base.{
  ℕ, ◌≤◌, String, Bool, true, false, List, [], ◌∷◌, ◌≡◌, sym, ap, subst, ◌∙◌, inl, inr, arith, ◌==◌,
  eq_iff, ◌&&◌, any, count, includes, count-ext, count-le, count-false, Bool-cases,
}
use nestjs_scaffold.Exec.{Result, ok, Returns, Returns-bind, for_each}
use nestjs_scaffold.Schema.{RolePermission, Permission, role_permission}
use nestjs_scaffold.Prisma.Laws.{PrismaLaws, tally}
use nestjs_scaffold.Env.{Env, World, write}
use nestjs_scaffold.Env.Writes.{write-eq-ok, transaction-eq-ok}
use nestjs_scaffold.Roles.Service.{is_binding, binding, upsert_binding, upserts, upsert_all}

-- An enabled binding of the role to the permission.
abbrev pub grants : String → String → RolePermission → Bool
grants role_id permission_id b = is_binding role_id permission_id b && b.enabled

module _ (env : Env) (laws : PrismaLaws env.prisma) where
  -- The call of `rolePermission.upsert`.
  abbrev upsert_row :
      String → String → Bool → env.prisma.Db → Result (RolePermission × env.prisma.Db)
  upsert_row role_id permission_id enabled =
      env.prisma.upsert role_permission (is_binding role_id permission_id)
        (λ _. binding role_id permission_id enabled) (λ b. record b { enabled = enabled })

  abbrev count_bindings : (RolePermission → Bool) → env.prisma.Db → ℕ
  count_bindings q db = tally env.prisma role_permission q db

  -- The role grants the permission, or does not.
  abbrev pub IsGranted : String → String → Bool → env.prisma.Db → Type 0
  IsGranted role_id permission_id enabled db =
      (enabled ≡ true → 1 ≤ tally env.prisma role_permission (grants role_id permission_id) db)
      × (enabled ≡ false → tally env.prisma role_permission (grants role_id permission_id) db ≡ 0)

  -- A test that says nothing of the rows of one binding.
  abbrev Avoids : String → String → (RolePermission → Bool) → Type 0
  Avoids role_id permission_id q =
      (b : RolePermission) → is_binding role_id permission_id b ≡ true → q b ≡ false

  upsert-IsGranted :
      (role_id permission_id : String) (enabled : Bool) (db db' : env.prisma.Db)
      (r : RolePermission)
      → upsert_row role_id permission_id enabled db ≡ ok (r, db')
      → IsGranted role_id permission_id enabled db'
        × ((q : RolePermission → Bool)
            → Avoids role_id permission_id q
            → count_bindings q db' ≡ count_bindings q db)
  upsert-IsGranted role_id permission_id enabled db db' r e =
      let W = is_binding role_id permission_id in
      let G = grants role_id permission_id in
      let rows = env.prisma.find_many role_permission (λ _. true) [] db in
      elim (laws.upsert-tally role_permission W (λ _. binding role_id permission_id enabled)
        (λ b. record b { enabled = enabled }) db r db' e) [
          | inl (there, moved) ↦
              let after : count_bindings G db' ≡ count (λ b. W b && enabled) rows =
                moved G ∙ count-ext _ _ rows (λ b. ground arith) in
              (
                (
                  λ on.
                      rw (after, on, count-ext (λ b. W b && true) W rows (λ b. ground arith)) there,
                  λ off.
                      rw (after, off)
                        (count-ext (λ b. W b && false) (λ _. false) rows (λ b. ground arith)
                          ∙ count-false rows),
                ),
                λ q avoids.
                    moved q
                    ∙ count-ext _ _ rows
                        (λ b. ground (arith, avoids b, avoids (record b { enabled = enabled }))),
              )
          | inr (nobody, i, added) ↦
              let new = binding role_id permission_id enabled in
              let bound : W new ≡ true =
                ground (arith, eq_iff role_id role_id, eq_iff permission_id permission_id) in
              (
                (
                  λ on. ground (arith, added G, bound),
                  λ off.
                      let none_before : count_bindings G db ≤ count_bindings W db =
                        count-le G W rows (λ b. ground arith) in
                      ground (arith, added G, nobody, none_before),
                ),
                λ q avoids. ground (arith, added q, avoids new bound),
              )
        ]

  -- One upsert of `setPermissions` or `setPermission`.
  pub upsert_binding-IsGranted :
      (role_id permission_id : String) (enabled : Bool) (w : World env)
      → Returns
          (λ _ w'.
            IsGranted role_id permission_id enabled w'.db
            × ((q : RolePermission → Bool)
                → Avoids role_id permission_id q
                → count_bindings q w'.db ≡ count_bindings q w.db))
          (upsert_binding env role_id permission_id enabled w)
  unfolding upsert_binding
  upsert_binding-IsGranted role_id permission_id enabled w =
      Returns-bind (write env (upsert_row role_id permission_id enabled)) _ w λ r w₁ wrote. record {
        holds = λ _ w' e. subst Outcome (ap (λ x. x.1.db) e) (
            upsert-IsGranted role_id permission_id enabled w.db w₁.db r
              (write-eq-ok env (upsert_row role_id permission_id enabled) w w₁ r wrote));
      }
    where
      Outcome : env.prisma.Db → Type 0
      Outcome db' =
          IsGranted role_id permission_id enabled db'
          × ((q : RolePermission → Bool)
              → Avoids role_id permission_id q
              → count_bindings q db' ≡ count_bindings q w.db)

  IsGranted-same :
      (role_id permission_id : String) (enabled : Bool) (db db' : env.prisma.Db)
      → count_bindings (grants role_id permission_id) db'
        ≡ count_bindings (grants role_id permission_id) db
      → IsGranted role_id permission_id enabled db
      → IsGranted role_id permission_id enabled db'
  IsGranted-same role_id permission_id enabled db db' same g =
      (λ on. rw same (g.0 on), λ off. rw same (g.1 off))

  -- What a loop of upserts over the permissions has done.
  abbrev Settles : String → List String → List Permission → env.prisma.Db → env.prisma.Db → Type 0
  Settles role_id selected qs db db' =
      ((i : String)
        → (any (λ q. q.id == i) qs ≡ true → IsGranted role_id i (includes selected i) db')
          × (any (λ q. q.id == i) qs ≡ false
              → count_bindings (grants role_id i) db' ≡ count_bindings (grants role_id i) db))
      × ((q : RolePermission → Bool)
          → ((i : String) → Avoids role_id i q)
          → count_bindings q db' ≡ count_bindings q db)

  grants-Avoids : (role_id i j : String) → (i == j) ≡ false → Avoids role_id i (grants role_id j)
  grants-Avoids role_id i j ne b bound =
      ground (arith, eq_iff b.permission_id i, eq_iff b.permission_id j, eq_iff i j)

  Settles-cons :
      (role_id : String) (selected : List String) (p : Permission) (qs : List Permission)
      (db db₁ db' : env.prisma.Db)
      → IsGranted role_id p.id (includes selected p.id) db₁
      → ((q : RolePermission → Bool)
          → Avoids role_id p.id q
          → count_bindings q db₁ ≡ count_bindings q db)
      → Settles role_id selected qs db₁ db'
      → Settles role_id selected (p ∷ qs) db db'
  Settles-cons role_id selected p qs db db₁ db' set others (rest, frame) = (
    λ i. elim (Bool-cases (p.id == i)) [
      | inl here ↦
          let at_i =
            subst (λ j. IsGranted role_id j (includes selected j) db₁) ((eq_iff p.id i).0 here)
              set in
          (
            λ _. elim (Bool-cases (any (λ q. q.id == i) qs)) [
              | inl again ↦ (rest i).0 again
              | inr last ↦
                  IsGranted-same role_id i (includes selected i) db₁ db' ((rest i).1 last) at_i
            ],
            λ nowhere. cc,
          )
      | inr elsewhere ↦ (
        λ later. (rest i).0 (ground arith),
        λ nowhere.
            (rest i).1 (ground arith)
            ∙ others (grants role_id i) (grants-Avoids role_id p.id i elsewhere),
      )
    ],
    λ q avoids. frame q avoids ∙ others q (avoids p.id),
  )

  for_each-Settles :
      (role_id : String) (selected : List String) (qs : List Permission) (w : World env)
      → Returns
          (λ _ w'. Settles role_id selected qs w.db w'.db)
          (for_each qs (λ q. upsert_binding env role_id q.id (includes selected q.id)) w)
  for_each-Settles role_id selected [] w = record {
    holds = λ _ w' e.
        let same : w'.db ≡ w.db = sym (ap (λ x. x.1.db) e) in
        (
          λ i. (λ h. cc, λ _. ap (λ db. count_bindings (grants role_id i) db) same),
          λ q _. ap (λ db. count_bindings q db) same,
        );
  }
  for_each-Settles role_id selected (p ∷ qs) w =
      Returns-bind (upsert_binding env role_id p.id (includes selected p.id)) _ w λ _ w₁ done.
        let (set, others) =
          (upsert_binding-IsGranted role_id p.id (includes selected p.id) w).holds _ w₁ done in
        record {
          holds = λ _ w' e.
              Settles-cons role_id selected p qs w.db w₁.db w'.db set others
                ((for_each-Settles role_id selected qs w₁).holds _ w' e);
        }

  -- After the transaction of `setPermissions` the role grants, of the permissions given, exactly
  -- those that are selected, and the bindings of other roles are as they were.
  pub upsert_all-Settles :
      (role_id : String) (selected : List String) (qs : List Permission) (w w' : World env)
      → upsert_all env role_id selected qs w ≡ (ok tt, w')
      → Settles role_id selected qs w.db w'.db
  unfolding upsert_all
  upsert_all-Settles role_id selected qs w w' e =
      (for_each-Settles role_id selected qs w).holds _ w'
        (transaction-eq-ok env (upserts env role_id selected qs) w w' tt e)
