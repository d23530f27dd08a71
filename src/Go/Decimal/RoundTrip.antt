-- ===== src/Go/Decimal/RoundTrip.antt =====
-- About the text of a number and what is read from it.
use Prim.Native.Char.{Char}
use Prim.Native.String.{String}
use native.Mathlib.Nat.{pow-suc}
use tilt_apiserver.Base.{
  true, ℕ, zero, suc, ◌+◌, ◌-◌, ◌*◌, ◌/◌, ◌%◌, ◌^◌, ◌≤◌, ◌<◌, code, ◌≡◌, refl, ok, err, range_error,
  arith, ap, ◌∙◌, ltb, Bool-cases, inl, inr,
}
use tilt_apiserver.Go.Decimal.{
  max_uint64, digit, digits, format_uint, format_uint_lem, scan, parse_uint,
}

format_uint_max : format_uint max_uint64 ≡ "18446744073709551615"
unfolding format_uint
format_uint_max = refl

parse_uint_max : parse_uint "18446744073709551615" ≡ ok max_uint64
unfolding parse_uint
parse_uint_max = refl

parse_uint_over : parse_uint "18446744073709551616" ≡ err range_error
unfolding parse_uint
parse_uint_over = refl

code-digit : (d : ℕ) → d < 10 → code (digit d) ≡ d + 48
code-digit zero h = refl
code-digit (suc zero) h = refl
code-digit (suc (suc zero)) h = refl
code-digit (suc (suc (suc zero))) h = refl
code-digit (suc (suc (suc (suc zero)))) h = refl
code-digit (suc (suc (suc (suc (suc zero))))) h = refl
code-digit (suc (suc (suc (suc (suc (suc zero)))))) h = refl
code-digit (suc (suc (suc (suc (suc (suc (suc zero))))))) h = refl
code-digit (suc (suc (suc (suc (suc (suc (suc (suc zero)))))))) h = refl
code-digit (suc (suc (suc (suc (suc (suc (suc (suc (suc zero))))))))) h = refl
code-digit (suc (suc (suc (suc (suc (suc (suc (suc (suc (suc d)))))))))) h = absurd (omega arith)

scan-cons :
    (c : Char) (s : String) (n : ℕ)
    → 48 ≤ code c
    → code c ≤ 57
    → n * 10 + (code c - 48) ≤ max_uint64
    → scan (String.◌∷◌ c s) n ≡ scan s (n * 10 + (code c - 48))
unfolding scan
scan-cons c s n low high fits = ground arith

-- A digit in front of a text is scanned as one more place.
scan-digit :
    (d n : ℕ) (s : String)
    → d < 10
    → n * 10 + d ≤ max_uint64
    → scan (String.◌∷◌ (digit d) s) n ≡ scan s (n * 10 + d)
scan-digit d n s small fits =
    let e = code-digit d small in
    scan-cons (digit d) s n (omega (arith, e)) (omega (arith, e)) (omega (arith, e))
    ∙ ap (scan s) (omega (arith, e))

tenth : (n fuel : ℕ) → n < 10 ^ suc fuel → n / 10 < 10 ^ fuel
tenth n fuel h = omega (arith, pow-suc 10 fuel)

lt→ltb : (a b : ℕ) → a < b → ltb a b ≡ true
lt→ltb a b h = ground arith

scan_nil : (n : ℕ) → scan "" n ≡ ok n
unfolding scan
scan_nil n = refl

-- `digits` stays shut.
format_twenty : (n : ℕ) → parse_uint (format_uint n) ≡ parse_uint (digits 20 n "")
format_twenty n = ap parse_uint (format_uint_lem n)

-- The digits of a number are scanned as that number, in front of what is there already.
scan-digits :
    (fuel n : ℕ) (out : String)
    → n < 10 ^ fuel
    → 0 < fuel
    → n ≤ max_uint64
    → scan (digits fuel n out) 0 ≡ scan out n
unfolding digits
scan-digits zero n out h f m = absurd (omega arith)
scan-digits (suc zero) n out h f m =
    rw (lt→ltb n 10 h)
      (scan-digit n 0 out (omega arith) (omega arith) ∙ ap (scan out) (omega arith))
scan-digits (suc (suc fuel)) n out h f m = elim (Bool-cases (ltb n 10)) [
  | inl small ↦
      rw small (scan-digit n 0 out (ground arith) (omega arith) ∙ ap (scan out) (omega arith))
  | inr large ↦ rw large (
      scan-digits (suc fuel) (n / 10) (String.◌∷◌ (digit (n % 10)) out) (tenth n (suc fuel) h)
        (omega arith) (omega arith)
      ∙ scan-digit (n % 10) (n / 10) out (omega arith) (omega arith)
      ∙ ap (scan out) (omega arith))
]

parse-digits :
    (fuel n : ℕ) (c : Char) (out : String)
    → parse_uint (digits fuel n (String.◌∷◌ c out)) ≡ scan (digits fuel n (String.◌∷◌ c out)) 0
unfolding digits parse_uint
parse-digits zero n c out = refl
parse-digits (suc fuel) n c out =
    ground (arith, parse-digits fuel (n / 10) (digit (n % 10)) (String.◌∷◌ c out))

parse-digits_nil :
    (fuel n : ℕ) → parse_uint (digits (suc fuel) n "") ≡ scan (digits (suc fuel) n "") 0
unfolding digits parse_uint
parse-digits_nil fuel n = ground (arith, parse-digits fuel (n / 10) (digit (n % 10)) "")

-- Any uint64 that `FormatUint` prints is read back by `ParseUint`.
pub parse-format_uint : (n : ℕ) → n ≤ max_uint64 → parse_uint (format_uint n) ≡ ok n
parse-format_uint n h =
    format_twenty n
    ∙ parse-digits_nil 19 n
    ∙ scan-digits 20 n "" (omega arith) (omega arith) h
    ∙ scan_nil n
