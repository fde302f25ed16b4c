-- ===== src/Samples/Codec.antt =====
-- A text for a cached access, from which it is read back: each unit is a tag and a character, and
-- the text is read from its end.
use Prim.Native.Char.{Char, code}
use text.Mathlib.TextLemmas.{cons≢nil}
use nestjs_scaffold.Base.{
  inl, inr, ◌==◌, eq_iff, Bool-cases, ℕ, String, true, List, [], ◌∷◌, ◌≡◌, refl, truthy, eqb,
  if◌then◌else◌, some,
}
use nestjs_scaffold.Env.{UserAccess}

abbrev unit : Char → Char → String → String
unit t d rest = String.◌∷◌ t (String.◌∷◌ d rest)

abbrev chars : String → String → String
chars String.[] rest = rest
chars (String.◌∷◌ c s) rest = unit "c" c (chars s rest)

abbrev items : List String → String → String
items [] rest = rest
items (s ∷ xs) rest = unit "s" "." (chars s (items xs rest))

abbrev pub print : UserAccess → String
print a = unit "l" "." (items a.roles (unit "l" "." (items a.permissions "")))

-- The text, the list and the lists that have been read so far.
record Read : Type 0 where
  text : String
  list : List String
  lists : List (List String)

abbrev step : ℕ → Char → Read → Read
step t d r =
    if eqb t b'c'
    then record { text = String.◌∷◌ d r.text; list = r.list; lists = r.lists }
    else if eqb t b's'
    then record { text = ""; list = r.text ∷ r.list; lists = r.lists }
    else record { text = ""; list = []; lists = r.list ∷ r.lists }

abbrev read : String → Read
read String.[] = record { text = ""; list = []; lists = [] }
read (String.◌∷◌ t String.[]) = record { text = ""; list = []; lists = [] }
read (String.◌∷◌ t (String.◌∷◌ d rest)) = step (code t) d (read rest)

abbrev of_lists : List (List String) → UserAccess
of_lists (roles ∷ permissions ∷ []) = record { roles = roles; permissions = permissions }
of_lists _ = record { roles = []; permissions = [] }

abbrev pub parse : String → UserAccess
parse s = of_lists (read s).lists

read-chars :
    (s rest : String) (xs : List String) (ys : List (List String))
    → read rest ≡ record { text = ""; list = xs; lists = ys }
    → read (chars s rest) ≡ record { text = s; list = xs; lists = ys }
read-chars String.[] rest xs ys h = h
read-chars (String.◌∷◌ c s) rest xs ys h = rw (read-chars s rest xs ys h) refl

read-items :
    (xs : List String) (rest : String) (ys : List (List String))
    → read rest ≡ record { text = ""; list = []; lists = ys }
    → read (items xs rest) ≡ record { text = ""; list = xs; lists = ys }
read-items [] rest ys h = h
read-items (s ∷ xs) rest ys h =
    rw (read-chars s (items xs rest) xs ys (read-items xs rest ys h)) refl

pub parse-print : (a : UserAccess) → parse (print a) ≡ a
parse-print a =
    let inner = read-items a.permissions "" [] refl in
    let tail : read (unit "l" "." (items a.permissions ""))
        ≡ record { text = ""; list = []; lists = a.permissions ∷ [] } =
      rw inner refl in
    rw (read-items a.roles _ (a.permissions ∷ []) tail) refl

pub print-truthy : (a : UserAccess) → truthy (some (print a)) ≡ true
print-truthy a = elim (Bool-cases (print a == "")) [
  | inl empty ↦ absurd (cons≢nil ((eq_iff (print a) "").0 empty))
  | inr other ↦ rw other refl
]
