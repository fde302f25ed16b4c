-- ===== src/Seed/Permissions.antt =====
-- The permissions after `seedAccessModel` of src/database/seed.service.ts.
use nestjs_scaffold.Base.{
  ◌≤◌, String, Bool, true, false, not, List, [], ◌∷◌, map, ◌≡◌, refl, sym, ap, ◌∙◌, subst, arith,
  ◌&&◌, ◌==◌, eq_iff, includes, count-ext, count-le, count-false, if◌then◌else◌, Bool-cases, inl,
  inr,
}
use nestjs_scaffold.Constants.{BuiltInPermission, built_in_permissions}
use nestjs_scaffold.Exec.{ok, for_each, Returns, Returns-bind, pure-eq-ok}
use nestjs_scaffold.Schema.{Permission, permission}
use nestjs_scaffold.Prisma.Laws.{PrismaLaws, tally}
use nestjs_scaffold.Env.{Env, World, write}
use nestjs_scaffold.Env.Writes.{write-eq-ok}
use nestjs_scaffold.Seed.{
  permission_codes, upsert_permission, delete_other_permissions, seed_permissions,
}

-- A permission that is enabled under a code.
abbrev pub is_enabled : String → Permission → Bool
is_enabled code q = q.code == code && q.enabled

outside : (b : Bool) → (if not b then false else not b) ≡ false
outside true = refl
outside false = refl

module _ (env : Env) (prisma : PrismaLaws env.prisma) where
  upserted :
      (b : BuiltInPermission) (r : Permission) (w w' : World env)
      → write env
          (env.prisma.upsert permission
            (λ q. q.code == b.code)
            (λ id. record { id = id; code = b.code; name = b.name; enabled = true })
            (λ q. record q { name = b.name; enabled = true }))
          w
        ≡ (ok r, w')
      → (1 ≤ tally env.prisma permission (is_enabled b.code) w'.db)
        × ((code : String)
            → tally env.prisma permission (is_enabled code) w.db
              ≤ tally env.prisma permission (is_enabled code) w'.db)
  upserted b r w w' e =
      let same = λ (q : Permission). q.code == b.code in
      let made = λ (id : String).
        let q : Permission = record { id = id; code = b.code; name = b.name; enabled = true } in
        q in
      let set = λ (q : Permission).
        let q' : Permission = record q { name = b.name; enabled = true } in q' in
      let rows = env.prisma.find_many permission (λ _. true) [] w.db in
      elim (prisma.upsert-tally permission same made set w.db r w'.db
        (write-eq-ok env (env.prisma.upsert permission same made set) w w' r e)) [
          | inl (found, counted) ↦ (
            omega (
              arith,
              found,
              counted (is_enabled b.code),
              count-le same (λ q. is_enabled b.code (if same q then set q else q)) rows
                  (λ q h. rw h (ground (arith, h))),
            ),
            λ code. omega (
              arith,
              counted (is_enabled code),
              count-le (is_enabled code) (λ q. is_enabled code (if same q then set q else q)) rows
                  (λ q h. elim (Bool-cases (q.code == b.code)) [
                    | inl mine ↦ rw mine (ground (arith, h))
                    | inr other ↦ rw other (ground (arith, h))
                  ]),
            ),
          )
          | inr (absent, i, counted) ↦ (
            ground (arith, counted (is_enabled b.code), eq_iff b.code b.code),
            λ code. omega (arith, counted (is_enabled code)),
          )
        ]

  upsert_permission-Returns :
      (b : BuiltInPermission) (w : World env)
      → Returns
          (λ _ w'.
            (1 ≤ tally env.prisma permission (is_enabled b.code) w'.db)
            × ((code : String)
                → tally env.prisma permission (is_enabled code) w.db
                  ≤ tally env.prisma permission (is_enabled code) w'.db))
          (upsert_permission env b w)
  unfolding upsert_permission
  upsert_permission-Returns b w =
      let written = write env (
        env.prisma.upsert permission (λ q. q.code == b.code)
          (λ id. record { id = id; code = b.code; name = b.name; enabled = true })
          (λ q. record q { name = b.name; enabled = true })) in
      Returns-bind written _ w λ r w₁ e. record {
        holds = λ _ w' done.
            let (_, end) = pure-eq-ok tt tt w₁ w' done in
            let (there, grown) = upserted b r w w₁ e in
            (
              subst (λ (v : World env). 1 ≤ tally env.prisma permission (is_enabled b.code) v.db)
                  end there,
              λ code.
                  subst
                    (λ (v : World env).
                      tally env.prisma permission (is_enabled code) w.db
                      ≤ tally env.prisma permission (is_enabled code) v.db)
                    end (grown code),
            );
      }

  -- After the loop every code of its list is there and enabled, and no code has become less so.
  loop-Returns :
      (bs : List BuiltInPermission) (w : World env)
      → Returns
          (λ _ w'.
            ((code : String)
              → includes (map (λ (b : BuiltInPermission). b.code) bs) code ≡ true
              → 1 ≤ tally env.prisma permission (is_enabled code) w'.db)
            × ((code : String)
                → tally env.prisma permission (is_enabled code) w.db
                  ≤ tally env.prisma permission (is_enabled code) w'.db))
          (for_each bs (upsert_permission env) w)
  loop-Returns [] w = record {
    holds = λ _ w' done.
        let (_, end) = pure-eq-ok tt tt w w' done in
        (
          λ code h. cc,
          λ code.
              subst
                (λ (v : World env).
                  tally env.prisma permission (is_enabled code) w.db
                  ≤ tally env.prisma permission (is_enabled code) v.db)
                end (omega arith),
        );
  }
  loop-Returns (b ∷ bs) w = Returns-bind (upsert_permission env b) _ w λ x w₁ e. record {
    holds = λ _ w' done.
        let (there, grown) = (upsert_permission-Returns b w).holds x w₁ e in
        let (rest, more) = (loop-Returns bs w₁).holds tt w' done in
        (
          λ code h. elim (Bool-cases (b.code == code)) [
            | inl mine ↦
                subst (λ c. 1 ≤ tally env.prisma permission (is_enabled c) w'.db)
                  ((eq_iff b.code code).0 mine) (omega (arith, there, more b.code))
            | inr other ↦ rest code (ground (arith, h, other))
          ],
          λ code. omega (arith, grown code, more code),
        );
  }

  deleted-tally :
      (q : Permission → Bool) (w w' : World env)
      → delete_other_permissions env w ≡ (ok tt, w')
      → tally env.prisma permission q w'.db
        ≡ tally env.prisma permission
            (λ r. if not (includes permission_codes r.code) then false else q r)
            w.db
  unfolding delete_other_permissions
  deleted-tally q w w' e =
      ap (λ d. tally env.prisma permission q d) (sym (ap (λ x. x.1.db) e))
      ∙ prisma.delete_many-tally permission (λ r. not (includes permission_codes r.code)) q w.db

  kept_code :
      (codes : List String) (code : String) (r : Permission)
      → includes codes code ≡ true
      → (if not (includes codes r.code) then false else is_enabled code r) ≡ is_enabled code r
  kept_code codes code r built_in = elim (Bool-cases (r.code == code)) [
    | inl mine ↦
        let known : includes codes r.code ≡ true =
          ap (includes codes) ((eq_iff r.code code).0 mine) ∙ built_in in
        rw known refl
    | inr other ↦ ground (arith, other)
  ]

  seed_permissions-Returns :
      (w : World env)
      → Returns
          (λ _ w'.
            ((code : String)
              → includes permission_codes code ≡ true
              → 1 ≤ tally env.prisma permission (is_enabled code) w'.db)
            × (tally env.prisma permission (λ q. not (includes permission_codes q.code)) w'.db ≡ 0))
          (seed_permissions env w)
  unfolding seed_permissions
  seed_permissions-Returns w =
      Returns-bind (for_each built_in_permissions (upsert_permission env)) _ w λ x w₁ looped.
        record {
          holds = λ _ w' e.
              let rows = env.prisma.find_many permission (λ _. true) [] w₁.db in
              let (there, _) = (loop-Returns built_in_permissions w).holds x w₁ looped in
              (
                λ code h.
                    subst (λ n. 1 ≤ n)
                      (sym (
                        deleted-tally (is_enabled code) w₁ w' e
                        ∙ count-ext _ (is_enabled code) rows
                            (λ r. kept_code permission_codes code r h)))
                      (there code h),
                deleted-tally (λ q. not (includes permission_codes q.code)) w₁ w' e
                    ∙ count-ext _ (λ _. false) rows
                        (λ r. outside (includes permission_codes r.code))
                    ∙ count-false rows,
              );
        }

  -- After the first part of `seedAccessModel` a built-in permission is there and enabled, and there
  -- is no permission with a code that is not built in.
  pub seed_permissions_lem :
      (code : String) (w w' : World env)
      → includes permission_codes code ≡ true
      → seed_permissions env w ≡ (ok tt, w')
      → (1 ≤ tally env.prisma permission (is_enabled code) w'.db)
        × (tally env.prisma permission (λ q. not (includes permission_codes q.code)) w'.db ≡ 0)
  seed_permissions_lem code w w' built_in e =
      let (there, others) = (seed_permissions-Returns w).holds tt w' e in
      (there code built_in, others)
