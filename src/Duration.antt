-- ===== src/Duration.antt =====
-- src/common/utils/parse-ttl.ts: durations such as "2h" in seconds. A text that starts with no digit
-- gives NaN, here none; a sign or blanks before the digits are not read.
use Prim.Native.Char.{code}
use nestjs_scaffold.Base.{
  ℕ, ◌+◌, ◌-◌, ◌*◌, String, Option, none, some, ◌&&◌, leb, eqb, if◌then◌else◌,
}

-- `parseInt(s, 10)`, on the number that has been read
abbrev pub parse_int : Option ℕ → String → Option ℕ
parse_int value String.[] = value
parse_int value (String.◌∷◌ c s) =
    let digit = leb b'0' (code c) && leb (code c) b'9' in
    let next = parse_int (some (elim value [ none ↦ 0 | some n ↦ n ] * 10 + (code c - b'0'))) s in
    if digit then next else value

-- The code of the last character.
abbrev pub last_code : ℕ → String → ℕ
last_code n String.[] = n
last_code n (String.◌∷◌ c s) = last_code (code c) s

abbrev pub times : ℕ → Option ℕ → Option ℕ
times k none = none
times k (some n) = some (n * k)

unfoldable pub parse_ttl_seconds : String → Option ℕ
parse_ttl_seconds expires_in =
    let value = parse_int none expires_in in
    if eqb (last_code 0 expires_in) b'h'
    then times 3600 value
    else if eqb (last_code 0 expires_in) b'd'
    then times 86400 value
    else if eqb (last_code 0 expires_in) b'm'
    then times 60 value
    else value
