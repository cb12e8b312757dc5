-- ===== src/Prelude/Decimal.antt =====
-- Go's `strconv.Itoa` and `strconv.ParseInt(s, 10, 64)` on native texts, and their round trip.
use Prim.Native.Nat.{◌+◌, ◌-◌, ◌*◌, ◌/◌, ◌%◌, ◌≤◌, ◌<◌, zero, suc}
use Prim.Native.Char.{Char, code}
use kpack.Prelude.{
  ℕ, ℤ, pos, negsuc, max_int64, IsInt64, subst, ◌≡◌, refl, ap, ◌∙◌, String, true, false, ◌&&◌,
  Option, none, some, arith, if◌then◌else◌, ltb, leb, eqb, Bool-cases, inl, inr,
}

digit_char : ℕ → Char
digit_char zero = "0"
digit_char (suc zero) = "1"
digit_char (suc (suc zero)) = "2"
digit_char (suc (suc (suc zero))) = "3"
digit_char (suc (suc (suc (suc zero)))) = "4"
digit_char (suc (suc (suc (suc (suc zero))))) = "5"
digit_char (suc (suc (suc (suc (suc (suc zero)))))) = "6"
digit_char (suc (suc (suc (suc (suc (suc (suc zero))))))) = "7"
digit_char (suc (suc (suc (suc (suc (suc (suc (suc zero)))))))) = "8"
digit_char (suc (suc (suc (suc (suc (suc (suc (suc (suc n))))))))) = "9"

digit_value : Char → Option ℕ
digit_value c = if leb b'0' (code c) && leb (code c) b'9' then some (code c - b'0') else none

-- Each round writes the last digit in front of what is written. The fuel exceeds the number.
emit : ℕ → ℕ → String → String
emit zero n out = out
emit (suc f) n out = elim (ltb n 10) [
  | true ↦ String.◌∷◌ (digit_char n) out
  | false ↦ emit f (n / 10) (String.◌∷◌ (digit_char (n % 10)) out)
]

format : ℕ → String
unfolding emit digit_char
format n = emit (suc n) n ""

unfoldable pub itoa : ℤ → String
unfolding format
itoa (pos n) = format n
itoa (negsuc n) = String.◌∷◌ "-" (format (suc n))

-- The value grows without bound here, and the range is checked at the end; Go stops at once.
scan : String → ℕ → Option ℕ
scan String.[] n = some n
scan (String.◌∷◌ c s) n = elim (digit_value c) [ none ↦ none | some d ↦ scan s (n * 10 + d) ]

scan_some : String → Option ℕ
scan_some String.[] = none
scan_some (String.◌∷◌ c s) = scan (String.◌∷◌ c s) 0

abbrev positive : Option ℕ → Option ℤ
positive none = none
positive (some n) = if leb n max_int64 then some (pos n) else none

abbrev negative : Option ℕ → Option ℤ
negative none = none
negative (some zero) = some (pos 0)
negative (some (suc n)) = if leb n max_int64 then some (negsuc n) else none

-- `none` stands for the syntax and the range error.
unfoldable pub parse_int : String → Option ℤ
unfolding scan_some scan digit_value
parse_int String.[] = none
parse_int (String.◌∷◌ c s) =
    if eqb (code c) b'-'
    then negative (scan_some s)
    else if eqb (code c) b'+'
    then positive (scan_some s)
    else positive (scan_some (String.◌∷◌ c s))

digit_round_trip : (d : ℕ) → d < 10 → digit_value (digit_char d) ≡ some d
unfolding digit_value digit_char
digit_round_trip zero h = refl
digit_round_trip (suc zero) h = refl
digit_round_trip (suc (suc zero)) h = refl
digit_round_trip (suc (suc (suc zero))) h = refl
digit_round_trip (suc (suc (suc (suc zero)))) h = refl
digit_round_trip (suc (suc (suc (suc (suc zero))))) h = refl
digit_round_trip (suc (suc (suc (suc (suc (suc zero)))))) h = refl
digit_round_trip (suc (suc (suc (suc (suc (suc (suc zero))))))) h = refl
digit_round_trip (suc (suc (suc (suc (suc (suc (suc (suc zero)))))))) h = refl
digit_round_trip (suc (suc (suc (suc (suc (suc (suc (suc (suc zero))))))))) h = refl
digit_round_trip (suc (suc (suc (suc (suc (suc (suc (suc (suc (suc n)))))))))) h =
    absurd (omega arith)

-- Reading back what `emit` wrote leaves the rest to be read, after the number.
scan-emit : (f n : ℕ) (out : String) → n < f → scan (emit f n out) 0 ≡ scan out n
unfolding emit scan
scan-emit zero n out h = elim h [ ]
scan-emit (suc f) n out h = elim (Bool-cases (ltb n 10)) [
  | inl small ↦
      rw (small, emit) (rw (digit_round_trip n (ground arith), scan) (ap (scan out) (omega arith)))
  | inr large ↦
      rw (large, emit)
        (scan-emit f (n / 10) (String.◌∷◌ (digit_char (n % 10)) out) (ground arith)
          ∙ rw (digit_round_trip (n % 10) (omega arith), scan) (ap (scan out) (omega arith)))
]

code_digit : (d : ℕ) → b'0' ≤ code (digit_char d)
unfolding digit_char
code_digit zero = omega arith
code_digit (suc zero) = omega arith
code_digit (suc (suc zero)) = omega arith
code_digit (suc (suc (suc zero))) = omega arith
code_digit (suc (suc (suc (suc zero)))) = omega arith
code_digit (suc (suc (suc (suc (suc zero))))) = omega arith
code_digit (suc (suc (suc (suc (suc (suc zero)))))) = omega arith
code_digit (suc (suc (suc (suc (suc (suc (suc zero))))))) = omega arith
code_digit (suc (suc (suc (suc (suc (suc (suc (suc zero)))))))) = omega arith
code_digit (suc (suc (suc (suc (suc (suc (suc (suc (suc n))))))))) = omega arith

-- What `emit` writes begins with a digit, so it is read neither as empty nor as signed.
emit_starts :
    (f n : ℕ) (out : String)
    → n < f
    → (c : Char) × (s : String) × (emit f n out ≡ String.◌∷◌ c s) × (b'0' ≤ code c)
unfolding emit
emit_starts zero n out h = elim h [ ]
emit_starts (suc f) n out h = elim (Bool-cases (ltb n 10)) [
  | inl small ↦ (digit_char n, out, rw (small, emit), code_digit n)
  | inr large ↦ rw (large, emit) (emit_starts f (n / 10) _ (ground arith))
]

-- A number that fits in an int64 is read back from its decimal text.
pub parse_int-itoa : (n : ℕ) → n ≤ max_int64 → parse_int (itoa (pos n)) ≡ some (pos n)
unfolding parse_int itoa
parse_int-itoa n h =
    let (c, s, e, digit) = emit_starts (suc n) n "" (omega arith) in
    let back : scan (String.◌∷◌ c s) 0 ≡ some n = rw (← e) (scan-emit (suc n) n "" (omega arith)) in
    rw (e, parse_int) (ground (arith, back))

positive-IsInt64 : (o : Option ℕ) (z : ℤ) → positive o ≡ some z → IsInt64 z
positive-IsInt64 none z e = cc
positive-IsInt64 (some n) z e = elim (Bool-cases (leb n max_int64)) [
  | inl t ↦
      let same : some (pos n) ≡ some z = rw t at e in
      let fits : IsInt64 (pos n) = ground arith in
      let equal : pos n ≡ z = cc in subst IsInt64 equal fits
  | inr f ↦ let bad = rw f at e in cc
]

negative-IsInt64 : (o : Option ℕ) (z : ℤ) → negative o ≡ some z → IsInt64 z
negative-IsInt64 none z e = cc
negative-IsInt64 (some zero) z e = let equal : pos 0 ≡ z = cc in subst IsInt64 equal (omega arith)
negative-IsInt64 (some (suc n)) z e = elim (Bool-cases (leb n max_int64)) [
  | inl t ↦
      let same : some (negsuc n) ≡ some z = rw t at e in
      let fits : IsInt64 (negsuc n) = ground arith in
      let equal : negsuc n ≡ z = cc in subst IsInt64 equal fits
  | inr f ↦ let bad = rw f at e in cc
]

-- What parses is in the range.
pub parse_int-IsInt64 : (s : String) (z : ℤ) → parse_int s ≡ some z → IsInt64 z
unfolding parse_int
parse_int-IsInt64 String.[] z e = cc
parse_int-IsInt64 (String.◌∷◌ c s) z e = elim (Bool-cases (eqb (code c) b'-')) [
  | inl t ↦ negative-IsInt64 (scan_some s) z (rw t at e)
  | inr f ↦ elim (Bool-cases (eqb (code c) b'+')) [
    | inl t ↦ positive-IsInt64 (scan_some s) z (rw (f, t) at e)
    | inr g ↦ positive-IsInt64 (scan_some (String.◌∷◌ c s)) z (rw (f, g) at e)
  ]
]
