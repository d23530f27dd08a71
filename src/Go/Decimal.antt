-- ===== src/Go/Decimal.antt =====
-- `strconv.FormatUint(v, 10)` and `strconv.ParseUint(s, 10, 64)` of Go's standard library.
pub mod RoundTrip
use Prim.Native.Char.{Char}
use Prim.Native.String.{String}
use tilt_apiserver.Base.{
  ◌≡◌, refl, ℕ, zero, suc, ◌+◌, ◌-◌, ◌*◌, ◌/◌, ◌%◌, ◌^◌, code, ◌||◌, ltb, ◌==◌, if◌then◌else◌,
  Result, ok, err, syntax_error, range_error,
}

abbrev pub max_uint64 : ℕ
max_uint64 = 2 ^ 64 - 1

-- The digit below ten.
abbrev pub digit : ℕ → Char
digit d =
    if d == 0
    then "0"
    else if d == 1
    then "1"
    else if d == 2
    then "2"
    else if d == 3
    then "3"
    else if d == 4
    then "4"
    else if d == 5
    then "5"
    else if d == 6
    then "6"
    else if d == 7
    then "7"
    else if d == 8
    then "8"
    else "9"

-- The digits of `n` in front of `out`, on fuel: one round for each digit.
unfoldable pub digits : ℕ → ℕ → String → String
digits zero n out = out
digits (suc fuel) n out =
    let rest = digits fuel (n / 10) (String.◌∷◌ (digit (n % 10)) out) in
    if ltb n 10 then String.◌∷◌ (digit n) out else rest

-- A number below 2^64 has at most twenty digits.
unfoldable pub format_uint : ℕ → String
unfolding digits
format_uint n = digits 20 n ""

pub format_uint_lem : (n : ℕ) → format_uint n ≡ digits 20 n ""
unfolding format_uint
format_uint_lem n = refl

-- The loop over the characters, with the two overflow tests.
pub scan : String → ℕ → Result ℕ
scan String.[] n = ok n
scan (String.◌∷◌ c s) n =
    let d = code c - 48 in
    let rest = scan s (n * 10 + d) in
    if ltb (code c) 48 || ltb 57 (code c)
    then err syntax_error
    else if ltb max_uint64 (n * 10 + d)
    then err range_error
    else rest

unfoldable pub parse_uint : String → Result ℕ
unfolding scan
parse_uint String.[] = err syntax_error
parse_uint (String.◌∷◌ c s) = scan (String.◌∷◌ c s) 0

pub parse_uint_empty : parse_uint "" ≡ err syntax_error
unfolding parse_uint
parse_uint_empty = refl
