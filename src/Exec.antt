-- ===== src/Exec.antt =====
-- What an async method does: it reads and writes a state, and it returns or throws. What was
-- written before a throw stays written, so the state comes back beside the error too.
use nestjs_scaffold.Base.{
  ◌≡◌, refl, sym, ap, subst, String, Bool, true, false, Option, none, some, List, [], ◌∷◌,
}

-- The exceptions that the source throws or tells apart.
pub data Error : Type 0 where
  -- the Nest exceptions, with their message
  conflict forbidden not_found unauthorized service_unavailable : String → Error
  -- `new UnauthorizedException({ code, message })`
  unauthorized_code : String → String → Error
  -- `Prisma.PrismaClientKnownRequestError`, with its code
  known_request : String → Error
  -- `new Error(message)`, and errors of other libraries
  failure : String → Error
  -- `SkipMessageError`
  skip_message : Error

pub data Result {ℓ} (A : Type ℓ) : Type ℓ where
  ok : A → Result A
  err : Error → Result A

abbrev pub Exec {ℓ} : Type ℓ → Type ℓ → Type ℓ
Exec S A = S → Result A × S

module _ {ℓ} {S A : Type ℓ} where
  abbrev pub pure : A → Exec S A
  pure a s = (ok a, s)

  -- `throw e`
  abbrev pub throw : Error → Exec S A
  throw e s = (err e, s)

  abbrev pub gets : (S → A) → Exec S A
  gets f s = (ok (f s), s)

  abbrev pub or_throw : Option A → Error → Exec S A
  or_throw none e s = (err e, s)
  or_throw (some a) e s = (ok a, s)

module _ {ℓ} {S A B : Type ℓ} where
  abbrev pub continue : Result A → (A → Exec S B) → Exec S B
  continue (ok a) f s = f a s
  continue (err e) f s = (err e, s)

  infixl 5 ◌>>=◌ ◌>>◌
  abbrev pub ◌>>=◌ : Exec S A → (A → Exec S B) → Exec S B
  ◌>>=◌ m f s = let (r, s') = m s in continue r f s'

  abbrev pub ◌>>◌ : Exec S A → Exec S B → Exec S B
  m >> n = m >>= λ _. n

module _ {S : Type 0} where
  abbrev pub throw_if : Bool → Error → Exec S Unit
  throw_if true e s = (err e, s)
  throw_if false e s = (ok tt, s)

  abbrev pub when : Bool → Exec S Unit → Exec S Unit
  when true m s = m s
  when false m s = (ok tt, s)

  abbrev pub modify : (S → S) → Exec S Unit
  modify f s = (ok tt, f s)

  -- `try { m } catch (e) { h(e) }`
  abbrev pub catch : {A : Type 0} → Exec S A → (Error → Exec S A) → Exec S A
  catch m h s = let (r, s') = m s in elim r [ ok a ↦ (ok a, s') | err e ↦ h e s' ]

  -- `for (const x of xs) await f(x)`
  abbrev pub for_each : {A : Type 0} → List A → (A → Exec S Unit) → Exec S Unit
  for_each [] f = pure tt
  for_each (x ∷ xs) f = f x >> for_each xs f

-- What holds of the value and the state, if a call returns.
pub record Returns {ℓ} {S A : Type ℓ} (P : A → S → Type ℓ) (r : Result A × S) : Type ℓ where
  pub holds : (a : A) (s : S) → r ≡ (ok a, s) → P a s

module _ {ℓ} {S A B : Type ℓ} {P : B → S → Type ℓ} where
  continue-Returns :
      (r : Result A) (f : A → Exec S B) (s : S)
      → ((a : A) → r ≡ ok a → Returns P (f a s))
      → Returns P (continue r f s)
  continue-Returns (ok a) f s k = k a refl
  continue-Returns (err e) f s k = record { holds = λ b s' h. cc }

  -- A sequence that returns has returned at each step.
  pub Returns-bind :
      (m : Exec S A) (f : A → Exec S B) (s : S)
      → ((a : A) (s' : S) → m s ≡ (ok a, s') → Returns P (f a s'))
      → Returns P ((m >>= f) s)
  Returns-bind m f s k =
      continue-Returns (m s).0 f (m s).1 (λ a e. k a (m s).1 (λ i. (e i, (m s).1)))

  -- A step that leaves the state as it is.
  pub Returns-read :
      (m : Exec S A) (f : A → Exec S B) (s : S)
      → (m s).1 ≡ s
      → ((a : A) → m s ≡ (ok a, s) → Returns P (f a s))
      → Returns P ((m >>= f) s)
  Returns-read m f s same k =
      continue-Returns (m s).0 f (m s).1
        (λ a e. subst (λ u. Returns P (f a u)) (sym same) (k a (λ i. (e i, same i))))

module _ {S A : Type 0} {P : A → S → Type 0} where
  -- What is thrown does not return.
  pub Returns-throw : (e : Error) (s : S) → Returns P (throw e s)
  Returns-throw e s = record { holds = λ a s' h. cc }

  caught-Returns :
      (r : Result A) (s : S) (h : Error → Exec S A)
      → Returns P (r, s)
      → ((e : Error) (u : S) → Returns P (h e u))
      → Returns P (elim r [ ok a ↦ (ok a, s) | err e ↦ h e s ])
  caught-Returns (ok a) s h first handler = first
  caught-Returns (err e) s h first handler = handler e s

  pub Returns-catch :
      (m : Exec S A) (h : Error → Exec S A) (s : S)
      → Returns P (m s)
      → ((e : Error) (u : S) → Returns P (h e u))
      → Returns P (catch m h s)
  Returns-catch m h s first handler = caught-Returns (m s).0 (m s).1 h first handler

pub throw_if_state : {S : Type 0} (b : Bool) (e : Error) (s : S) → (throw_if b e s).1 ≡ s
throw_if_state true e s = refl
throw_if_state false e s = refl

-- The value and the state of a call that returns are those that it was given.
pub pure-eq-ok {ℓ} :
    {S A : Type ℓ} (a b : A) (s t : S) → Path (Result A × S) (ok a, s) (ok b, t) → (a ≡ b) × (s ≡ t)
pure-eq-ok {A = A} a b s t e =
    let same : Path (Result A) (ok a) (ok b) = ap (λ x. x.0) e in (cc, ap (λ x. x.1) e)
