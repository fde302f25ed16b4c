-- ===== src/Base/Members.antt =====
-- Membership, size and order of the lists that JavaScript's sets and sorts give.
use Prim.Native.Nat.{◌≤◌, ℕ, ◌+◌}
use Prim.Native.String.{String}
use mathlib.Core.Path.{◌≡◌, refl, ◌∙◌, ap}
use mathlib.Core.Bool.{true, false, Bool, not, ◌&&◌, ◌||◌}
use mathlib.Core.List.{List, [], ◌∷◌, ◌++◌, map}
use native.Mathlib.Omega.{arith}
use text.Mathlib.Text.{◌==◌}
use text.Mathlib.TextEquality.{eq_iff}
use nestjs_scaffold.Base.Tests.{if◌then◌else◌}
use nestjs_scaffold.Base.Lists.{any, filter, count, includes, unique, sort, insert_sorted}

-- A filter keeps what passes.
pub includes-filter :
    (p : String → Bool) (xs : List String) (s : String)
    → includes (filter p xs) s ≡ (includes xs s && p s)
includes-filter p [] s = refl
includes-filter p (x ∷ xs) s = ground (arith, includes-filter p xs s, eq_iff x s)

pub includes-unique : (xs : List String) (s : String) → includes (unique xs) s ≡ includes xs s
includes-unique [] s = refl
includes-unique (x ∷ xs) s =
    ground (arith, includes-filter (λ y. not (x == y)) (unique xs) s, includes-unique xs s)

includes-insert_sorted :
    (x : String) (ys : List String) (s : String)
    → includes (insert_sorted x ys) s ≡ (x == s || includes ys s)
includes-insert_sorted x [] s = refl
includes-insert_sorted x (y ∷ ys) s = ground (arith, includes-insert_sorted x ys s)

pub includes-sort : (xs : List String) (s : String) → includes (sort xs) s ≡ includes xs s
includes-sort [] s = refl
includes-sort (x ∷ xs) s =
    includes-insert_sorted x (sort xs) s ∙ ap (λ b. x == s || b) (includes-sort xs s)

-- How often a text stands in a list.
abbrev pub occurrences : String → List String → ℕ
occurrences s xs = count (λ x. x == s) xs

occurrences-filter :
    (p : String → Bool) (xs : List String) (s : String)
    → occurrences s (filter p xs) ≡ (if p s then occurrences s xs else 0)
occurrences-filter p [] s = ground arith
occurrences-filter p (x ∷ xs) s = ground (arith, occurrences-filter p xs s, eq_iff x s)

pub occurrences-unique :
    (xs : List String) (s : String) → occurrences s (unique xs) ≡ (if includes xs s then 1 else 0)
occurrences-unique [] s = refl
occurrences-unique (x ∷ xs) s =
    ground (arith, occurrences-filter (λ y. not (x == y)) (unique xs) s, occurrences-unique xs s)

occurrences-insert_sorted :
    (x : String) (ys : List String) (s : String)
    → occurrences s (insert_sorted x ys) ≡ (if x == s then 1 else 0) + occurrences s ys
occurrences-insert_sorted x [] s = refl
occurrences-insert_sorted x (y ∷ ys) s = ground (arith, occurrences-insert_sorted x ys s)

pub occurrences-sort : (xs : List String) (s : String) → occurrences s (sort xs) ≡ occurrences s xs
occurrences-sort [] s = refl
occurrences-sort (x ∷ xs) s =
    omega (arith, occurrences-insert_sorted x (sort xs) s, occurrences-sort xs s)

-- A text stands in the list of the images iff some element has it.
pub includes-map {ℓ} :
    {A : Type ℓ} (f : A → String) (xs : List A) (s : String)
    → includes (map f xs) s ≡ any (λ x. f x == s) xs
includes-map f [] s = refl
includes-map f (x ∷ xs) s = ap (λ b. f x == s || b) (includes-map f xs s)

pub includes-append :
    (xs ys : List String) (s : String) → includes (xs ++ ys) s ≡ (includes xs s || includes ys s)
includes-append [] ys s = refl
includes-append (x ∷ xs) ys s = ground (arith, includes-append xs ys s)

-- Tests that agree count alike.
pub count-ext {ℓ} :
    {A : Type ℓ} (p q : A → Bool) (xs : List A) → ((x : A) → p x ≡ q x) → count p xs ≡ count q xs
count-ext p q [] same = refl
count-ext p q (x ∷ xs) same = ground (arith, same x, count-ext p q xs same)

-- A stronger test counts no more.
pub count-le {ℓ} :
    {A : Type ℓ} (p q : A → Bool) (xs : List A)
    → ((x : A) → p x ≡ true → q x ≡ true)
    → count p xs ≤ count q xs
count-le p q [] stronger = omega arith
count-le p q (x ∷ xs) stronger = ground (arith, stronger x, count-le p q xs stronger)

pub count-false {ℓ} : {A : Type ℓ} (xs : List A) → count (λ _. false) xs ≡ 0
count-false [] = refl
count-false (x ∷ xs) = omega (arith, count-false xs)

pub any_of_count {ℓ} : {A : Type ℓ} (p : A → Bool) (xs : List A) → 1 ≤ count p xs → any p xs ≡ true
any_of_count p [] h = absurd (omega arith)
any_of_count p (x ∷ xs) h = ground (arith, any_of_count p xs)

-- A test that fails on all images of what a filter keeps.
pub count_of_any {ℓ} :
    {A : Type ℓ} (p : String → Bool) (f : A → String) (g : A → Bool) (xs : List A)
    → any p (map f (filter g xs)) ≡ false
    → count (λ x. g x && p (f x)) xs ≡ 0
count_of_any p f g [] h = refl
count_of_any p f g (x ∷ xs) h = ground (arith, count_of_any p f g xs)

-- Two tests that exclude each other, and are stronger than a third, count no more than it together.
pub count-split {ℓ} :
    {A : Type ℓ} (p q r : A → Bool) (xs : List A)
    → ((x : A) → p x ≡ true → (q x ≡ false) × (r x ≡ true))
    → ((x : A) → q x ≡ true → r x ≡ true)
    → count p xs + count q xs ≤ count r xs
count-split p q r [] apart stronger = omega arith
count-split p q r (x ∷ xs) apart stronger =
    ground (arith, apart x, stronger x, count-split p q r xs apart stronger)
