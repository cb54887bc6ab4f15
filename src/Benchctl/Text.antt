-- ===== src/Benchctl/Text.antt =====
-- The operations on texts that tools/benchctl uses: `str::trim`, `strip_prefix`, and `parse::<usize>`.
use Prim.Native.Char.{Char, code}
use Prim.Native.String.{String}
use snoozer.Prelude.{
  ℕ, ◌+◌, ◌-◌, ◌*◌, ◌^◌, Bool, ◌&&◌, ◌||◌, Option, none, some, ltb, leb, ◌==◌, if◌then◌else◌,
}

-- Unicode's `White_Space`
abbrev is_whitespace : ℕ → Bool
is_whitespace k =
    (leb 9 k && leb k 13)
    || (k == 32)
    || (k == 133)
    || (k == 160)
    || (k == 5760)
    || (leb 8192 k && leb k 8202)
    || (k == 8232)
    || (k == 8233)
    || (k == 8239)
    || (k == 8287)
    || (k == 12288)

abbrev trim_start : String → String
trim_start String.[] = String.[]
trim_start (String.◌∷◌ c s) =
    let rest = trim_start s in if is_whitespace (code c) then rest else String.◌∷◌ c s

abbrev before : Char → String → String
before c String.[] = if is_whitespace (code c) then String.[] else String.◌∷◌ c String.[]
before c s = String.◌∷◌ c s

abbrev trim_end : String → String
trim_end String.[] = String.[]
trim_end (String.◌∷◌ c s) = before c (trim_end s)

unfoldable pub trim : String → String
trim s = trim_start (trim_end s)

-- The text after a prefix, if it has the prefix.
abbrev pub strip_prefix : String → String → Option String
strip_prefix String.[] s = some s
strip_prefix (String.◌∷◌ c p) String.[] = none
strip_prefix (String.◌∷◌ c p) (String.◌∷◌ d s) =
    let rest = strip_prefix p s in if code c == code d then rest else none

abbrev digit : ℕ → Option ℕ
digit k = if leb b'0' k && leb k b'9' then some (k - b'0') else none

abbrev in_usize : ℕ → Option ℕ
in_usize n = if ltb n (2 ^ 64) then some n else none

abbrev parse_digits : Option ℕ → String → Option ℕ
parse_digits none s = none
parse_digits (some n) String.[] = some n
parse_digits (some n) (String.◌∷◌ c s) =
    parse_digits (elim (digit (code c)) [ none ↦ none | some d ↦ in_usize (n * 10 + d) ]) s

abbrev parse_unsigned : String → Option ℕ
parse_unsigned String.[] = none
parse_unsigned s = parse_digits (some 0) s

-- One sign is allowed in front of the digits.
unfoldable pub parse_usize : String → Option ℕ
parse_usize String.[] = none
parse_usize (String.◌∷◌ c s) =
    if code c == b'+' then parse_unsigned s else parse_unsigned (String.◌∷◌ c s)
