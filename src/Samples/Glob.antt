-- ===== src/Samples/Glob.antt =====
-- Patterns in which `*` matches any text and every other character itself.
use Prim.Native.Char.{Char, code}
use text.Mathlib.TextEquality.{Char-path}
use text.Mathlib.TextLemmas.{
  nil-append, cons-append, append-nil, head-eq_of_cons-eq, tail-eq_of_cons-eq, nil≢cons,
}
use nestjs_scaffold.Base.{
  ℕ, String, Bool, true, false, inl, inr, Bool-cases, ◌||◌, ◌&&◌, ◌≡◌, refl, sym, ap, subst, ◌∙◌,
  ◌↔◌, arith, eqb, ◌==◌, ◌<>◌, plain, if◌then◌else◌, eq_iff,
}

abbrev some_rest : (String → Bool) → String → Bool
some_rest f String.[] = f ""
some_rest f (String.◌∷◌ c k) = f (String.◌∷◌ c k) || some_rest f k

abbrev next_char : Char → (String → Bool) → String → Bool
next_char c f String.[] = false
next_char c f (String.◌∷◌ d k) = eqb (code c) (code d) && f k

abbrev pub glob : String → String → Bool
glob String.[] k = k == ""
glob (String.◌∷◌ c p) k = if eqb (code c) b'*' then some_rest (glob p) k else next_char c (glob p) k

some_rest_here : (f : String → Bool) (v : String) → f v ≡ true → some_rest f v ≡ true
some_rest_here f String.[] h = h
some_rest_here f (String.◌∷◌ c v) h = ground arith

some_rest_of : (f : String → Bool) (u v : String) → f v ≡ true → some_rest f (u <> v) ≡ true
some_rest_of f String.[] v h = rw (nil-append v) (some_rest_here f v h)
some_rest_of f (String.◌∷◌ c u) v h = rw (cons-append c u v) (ground (arith, some_rest_of f u v h))

some_rest_parts :
    (f : String → Bool) (k : String)
    → some_rest f k ≡ true
    → (u v : String) × (k ≡ u <> v) × (f v ≡ true)
some_rest_parts f String.[] h = ("", "", refl, h)
some_rest_parts f (String.◌∷◌ c k) h = elim (Bool-cases (f (String.◌∷◌ c k))) [
  | inl here ↦ ("", String.◌∷◌ c k, sym (nil-append _), here)
  | inr later ↦
      let (u, v, e, m) = some_rest_parts f k (ground arith) in
      (String.◌∷◌ c u, v, ap (String.◌∷◌ c) e ∙ sym (cons-append c u v), m)
]

plain_cons :
    (c : Char) (p : String)
    → plain (String.◌∷◌ c p) ≡ true
    → (eqb (code c) b'*' ≡ false) × (plain p ≡ true)
plain_cons c p h = (ground arith, ground arith)

same_char : (c d : Char) → eqb (code c) (code d) ≡ true → c ≡ d
same_char c d h = Char-path c d (ground arith)

eqb_self : (n : ℕ) → eqb n n ≡ true
eqb_self n = ground arith

-- A literal part of a pattern matches itself.
plain_part :
    (p q k : String)
    → plain p ≡ true
    → (glob (p <> q) k ≡ true) ↔ ((t : String) × (k ≡ p <> t) × (glob q t ≡ true))
plain_part String.[] q k h = (
  λ m. (k, sym (nil-append k), subst (λ x. glob x k ≡ true) (nil-append q) m),
  λ (t, e, m). rw (nil-append q, e, nil-append t) m,
)
plain_part (String.◌∷◌ c p) q String.[] h = rw (cons-append c p q) (
  λ m. absurd (let m' : false ≡ true = rw (plain_cons c p h).0 at m in cc),
  λ (t, e, m). absurd (nil≢cons (e ∙ cons-append c p t)),
)
plain_part (String.◌∷◌ c p) q (String.◌∷◌ d k) h =
    rw (cons-append c p q, (plain_cons c p h).0)
      (
        λ m.
            let (t, e, r) = (plain_part p q k (plain_cons c p h).1).0 (ground arith) in
            let same : c ≡ d = same_char c d (ground arith) in
            (t, (λ i. String.◌∷◌ (sym same i) (e i)) ∙ sym (cons-append c p t), r),
        λ (t, e, m).
            let same : String.◌∷◌ d k ≡ String.◌∷◌ c (p <> t) = e ∙ cons-append c p t in
            let rest : glob (p <> q) k ≡ true =
              (plain_part p q k (plain_cons c p h).1).1 (t, tail-eq_of_cons-eq same, m) in
            rw (head-eq_of_cons-eq same, eqb_self (code c)) rest,
      )

-- `*` before the rest of a pattern.
star : (s t : String) → glob ("*" <> s) t ≡ some_rest (glob s) t
star s t = ap (λ x. glob x t) (cons-append "*" "" s ∙ ap (String.◌∷◌ "*") (nil-append s))

glob_self : (s k : String) → plain s ≡ true → (glob s k ≡ true) ↔ (k ≡ s)
glob_self s k h = (
  λ m.
      let (t, e, r) = (plain_part s "" k h).0 (rw (append-nil s) m) in
      e ∙ ap (λ x. s <> x) ((eq_iff t "").0 r) ∙ append-nil s,
  λ e.
      subst (λ x. glob x k ≡ true) (append-nil s)
        ((plain_part s "" k h).1 ("", e ∙ sym (append-nil s), refl)),
)

pub glob_suffix :
    (p k : String) → plain p ≡ true → (glob (p <> "*") k ≡ true) ↔ ((t : String) × (k ≡ p <> t))
glob_suffix p k h = (
  λ m. let (t, e, _) = (plain_part p "*" k h).0 m in (t, e),
  λ (t, e). (plain_part p "*" k h).1 (
    t,
    e,
    subst (λ x. some_rest (glob "") x ≡ true) (append-nil t) (some_rest_of (glob "") t "" refl),
  ),
)

pub glob_middle :
    (p s k : String)
    → plain p ≡ true
    → plain s ≡ true
    → (glob (p <> "*" <> s) k ≡ true) ↔ ((t : String) × (k ≡ p <> t <> s))
glob_middle p s k hp hs = (
  λ m.
      let (t, e, r) = (plain_part p ("*" <> s) k hp).0 m in
      let (u, v, f, g) = some_rest_parts (glob s) t (sym (star s t) ∙ r) in
      (u, e ∙ ap (λ x. p <> x) (f ∙ ap (λ x. u <> x) ((glob_self s v hs).0 g))),
  λ (t, e).
      (plain_part p ("*" <> s) k hp).1
        (t <> s, e, star s (t <> s) ∙ (some_rest_of (glob s) t s ((glob_self s s hs).1 refl))),
)
