-- ===== src/Prelude/Text.antt =====
-- Texts: Rust's `String` is the native one. What `format!` and `from_str_radix` do is written out.
use Prim.Native.Char.{Char, code}
use Prim.Native.Nat.{ℕ, zero, suc, ◌+◌, ◌-◌, ◌*◌, ◌/◌, ◌%◌, ◌^◌}
use Prim.Native.String.{String, ◌++◌}
use mathlib.Core.Bool.{Bool, true, false, ◌&&◌, ◌||◌}
use mathlib.Core.List.{List, [], ◌∷◌, ◌++◌ as append}
use mathlib.Core.Option.{Option, none, some}
use azcoin_stratum_pool.Prelude.Tests.{if◌then◌else◌, leb, ltb, ◌==◌}

-- The code points of a text, which are its bytes where it is ASCII.
abbrev pub codes : String → List ℕ
codes String.[] = []
codes (String.◌∷◌ c s) = code c ∷ codes s

-- `format!` with its literal parts and its arguments in order.
abbrev pub format : List String → String
format [] = ""
format (s ∷ rest) = s ++ format rest

-- The digit `{:x}` writes for a value below 16.
unfoldable pub hex_digit : ℕ → Char
hex_digit d =
    if d == 0
    then "0"
    else if d == 1
    then "1"
    else if d == 2
    then "2"
    else if d == 3
    then "3"
    else if d == 4
    then "4"
    else if d == 5
    then "5"
    else if d == 6
    then "6"
    else if d == 7
    then "7"
    else if d == 8
    then "8"
    else if d == 9
    then "9"
    else if d == 10
    then "a"
    else if d == 11
    then "b"
    else if d == 12
    then "c"
    else if d == 13
    then "d"
    else if d == 14
    then "e"
    else "f"

-- The lowest `k` hexadecimal digits in front of a text.
unfoldable pub hex_onto : ℕ → ℕ → String → String
hex_onto zero n s = s
hex_onto (suc k) n s = hex_onto k (n / 16) (String.◌∷◌ (hex_digit (n % 16)) s)

-- `format!("{:08x}", n)` for a `u32`.
unfoldable pub hex08 : ℕ → String
unfolding hex_onto hex_digit
hex08 n = hex_onto 8 n ""

-- The value of a hexadecimal digit, of either case.
unfoldable pub nibble : ℕ → Option ℕ
nibble c =
    if leb b'0' c && leb c b'9'
    then some (c - b'0')
    else if leb b'a' c && leb c b'f'
    then some (c - b'a' + 10)
    else if leb b'A' c && leb c b'F'
    then some (c - b'A' + 10)
    else none

-- The decimal digits of `n` in front of a text. Each round divides by ten.
unfoldable pub decimal_onto : ℕ → ℕ → String → String
decimal_onto zero n s = s
decimal_onto (suc fuel) n s =
    let s' = String.◌∷◌ (hex_digit (n % 10)) s in
    let rest = decimal_onto fuel (n / 10) s' in if n / 10 == 0 then s' else rest

-- `to_string()` of a `u64`: twenty digits are enough below 10 ^ 20.
unfoldable pub decimal : ℕ → String
unfolding decimal_onto hex_digit
decimal n = decimal_onto 20 n ""

-- The number that a digit string stands for, after `acc`; `None` for another character.
unfoldable pub read_digits : ℕ → ℕ → List ℕ → Option ℕ
unfolding nibble
read_digits base acc [] = some acc
read_digits base acc (c ∷ cs) = elim (nibble c) [
  | none ↦ none
  | some d ↦ read_digits base (acc * base + d) cs
]

-- `strip_prefix('+')`, as the standard parser of unsigned numbers does.
unfoldable pub strip_plus : List ℕ → List ℕ
strip_plus [] = []
strip_plus (c ∷ cs) = if c == b'+' then cs else c ∷ cs

-- `u32::from_str_radix(s, 16)`: a sign alone or no digit is an error, and so is a value of more than
-- 32 bits.
unfoldable pub u32_from_hex : String → Option ℕ
unfolding strip_plus read_digits
u32_from_hex s = elim (strip_plus (codes s)) [
  | [] ↦ none
  | c ∷ cs ↦ elim (read_digits 16 0 (c ∷ cs)) [
    | none ↦ none
    | some n ↦ if ltb n (2 ^ 32) then some n else none
  ]
]

-- `str::strip_prefix`
unfoldable pub strip_prefix : String → String → Option String
strip_prefix String.[] s = some s
strip_prefix (String.◌∷◌ c p) String.[] = none
strip_prefix (String.◌∷◌ c p) (String.◌∷◌ d s) = if code c == code d then strip_prefix p s else none

-- `char::is_whitespace`: the property White_Space of Unicode.
abbrev pub is_whitespace : ℕ → Bool
is_whitespace c =
    leb 9 c && leb c 13
    || c == 0x20
    || c == 0x85
    || c == 0xa0
    || c == 0x1680
    || leb 0x2000 c && leb c 0x200a
    || c == 0x2028
    || c == 0x2029
    || c == 0x202f
    || c == 0x205f
    || c == 0x3000

unfoldable pub trim_start : String → String
trim_start String.[] = String.[]
trim_start (String.◌∷◌ c s) = if is_whitespace (code c) then trim_start s else String.◌∷◌ c s

unfoldable pub is_blank : String → Bool
is_blank String.[] = true
is_blank (String.◌∷◌ c s) = is_whitespace (code c) && is_blank s

unfoldable pub trim_end : String → String
unfolding is_blank
trim_end String.[] = String.[]
trim_end (String.◌∷◌ c s) =
    let rest = trim_end s in
    if is_whitespace (code c) && is_blank s then String.[] else String.◌∷◌ c rest

-- `str::trim`
unfoldable pub trim : String → String
unfolding trim_start trim_end
trim s = trim_end (trim_start s)

-- Whether every character of a text is `c`.
unfoldable pub consists_of : Char → String → Bool
consists_of c String.[] = true
consists_of c (String.◌∷◌ d s) = code d == code c && consists_of c s

-- `str::trim_end_matches` with a character.
unfoldable pub trim_end_matches : Char → String → String
unfolding consists_of
trim_end_matches c String.[] = String.[]
trim_end_matches c (String.◌∷◌ d s) =
    let rest = trim_end_matches c s in
    if code d == code c && consists_of c s then String.[] else String.◌∷◌ d rest

-- The decimal value of digits after `acc`.
unfoldable pub read_decimal : ℕ → List ℕ → Option ℕ
read_decimal acc [] = some acc
read_decimal acc (c ∷ cs) =
    let rest = read_decimal (acc * 10 + (c - b'0')) cs in
    if leb b'0' c && leb c b'9' then rest else none

-- `parse::<u16>` and `parse::<u32>` for the bound 2 ^ 16 and 2 ^ 32: a sign alone or no digit is an
-- error, and so is a value that is not below the bound.
unfoldable pub parse_below : ℕ → String → Option ℕ
unfolding strip_plus read_decimal
parse_below bound s = elim (strip_plus (codes s)) [
  | [] ↦ none
  | c ∷ cs ↦ elim (read_decimal 0 (c ∷ cs)) [
    | none ↦ none
    | some n ↦ if ltb n bound then some n else none
  ]
]

-- A code point, in lower case where it is an ASCII letter.
abbrev pub lower : ℕ → ℕ
lower c = if leb b'A' c && leb c b'Z' then c + 32 else c

-- `s.to_lowercase() == word`, for a word of the ASCII letters without k: no other character has one of
-- these as its lower case.
unfoldable pub lowercase_is : String → String → Bool
lowercase_is String.[] String.[] = true
lowercase_is String.[] (String.◌∷◌ d word) = false
lowercase_is (String.◌∷◌ c s) String.[] = false
lowercase_is (String.◌∷◌ c s) (String.◌∷◌ d word) = lower (code c) == code d && lowercase_is s word

-- The bytes of one character in UTF-8.
abbrev pub utf8 : ℕ → List ℕ
utf8 c =
    if ltb c 0x80
    then c ∷ []
    else if ltb c 0x800
    then (0xc0 + c / 64) ∷ (0x80 + c % 64) ∷ []
    else if ltb c 0x10000
    then (0xe0 + c / 4096) ∷ (0x80 + c / 64 % 64) ∷ (0x80 + c % 64) ∷ []
    else (0xf0 + c / 262144) ∷ (0x80 + c / 4096 % 64) ∷ (0x80 + c / 64 % 64) ∷ (0x80 + c % 64) ∷ []

-- `str::as_bytes`
abbrev pub as_bytes : String → List ℕ
as_bytes String.[] = []
as_bytes (String.◌∷◌ c s) = append (utf8 (code c)) (as_bytes s)
