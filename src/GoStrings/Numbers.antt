-- ===== src/GoStrings/Numbers.antt =====
-- strconv.ParseInt on what strconv.FormatInt writes, with zeros in front.
use hsync_server.Prelude.{
  ℕ, zero, suc, ◌+◌, ◌-◌, ◌*◌, ◌/◌, ◌%◌, ◌^◌, ◌<◌, ◌≡◌, ◌∙◌, refl, ap, ltb, nat_eqb, true, false,
  some, [], ◌∷◌, ◌++◌, Text, All, arith, Bool-cases, inl, inr, pos, ◌≢◌,
}
use hsync_server.GoStrings.{
  digits, format_nat, is_digit, parse_digits, parse_nat, parse_int, signed,
}

abbrev pub IsDigits : Text → Type 0
IsDigits s = All (λ c. is_digit c ≡ true) s

pub IsDigits-append : (s t : Text) → IsDigits s → IsDigits t → IsDigits (s ++ t)
IsDigits-append [] t h k = k
IsDigits-append (c ∷ s) t h k = (h.0, IsDigits-append s t h.1 k)

digit_of : (n : ℕ) → is_digit (n % 10 + 48) ≡ true
unfolding is_digit
digit_of n = ground arith

pub digits-IsDigits : (fuel n : ℕ) → IsDigits (digits fuel n)
unfolding digits
digits-IsDigits zero n = tt
digits-IsDigits (suc fuel) n = elim (Bool-cases (ltb n 10)) [
  | inl small ↦ rw small (unfold is_digit in ground arith, tt)
  | inr large ↦
      rw large
        (IsDigits-append (digits fuel (n / 10)) _ (digits-IsDigits fuel (n / 10)) (digit_of n, tt))
]

-- Reading goes on where the first part ends.
parse_digits-append :
    (seen k : ℕ) (s t : Text)
    → parse_digits seen s ≡ some k
    → parse_digits seen (s ++ t) ≡ parse_digits k t
unfolding parse_digits
parse_digits-append seen k [] t h = ground arith
parse_digits-append seen k (c ∷ s) t h =
    ground (arith, parse_digits-append (seen * 10 + (c - b'0')) k s t, h)

parse_last : (n k : ℕ) → parse_digits k ((n % 10 + 48) ∷ []) ≡ some (k * 10 + n % 10)
unfolding parse_digits is_digit
parse_last n k = ground arith

parse_digits-digits : (fuel n : ℕ) → n < fuel → parse_digits 0 (digits fuel n) ≡ some n
unfolding digits
parse_digits-digits zero n h = absurd (ground arith)
parse_digits-digits (suc fuel) n h = elim (Bool-cases (ltb n 10)) [
  | inl small ↦ rw small (unfold parse_digits is_digit in ground arith)
  | inr large ↦ rw large (
      parse_digits-append 0 (n / 10) (digits fuel (n / 10)) _
        (parse_digits-digits fuel (n / 10) (ground arith))
      ∙ parse_last n (n / 10)
      ∙ ap some (omega arith))
]

-- A text that starts with a digit has no sign.
parse_int-IsDigits :
    (c : ℕ) (s : Text)
    → is_digit c ≡ true
    → parse_int (c ∷ s) ≡ signed false (parse_digits 0 (c ∷ s))
unfolding parse_int parse_nat is_digit
parse_int-IsDigits c s h =
    let below : nat_eqb c b'-' ≡ false = ground arith in
    let other : nat_eqb c b'+' ≡ false = ground arith in rw (below, other) refl

pub parse_digits-format_nat : (n : ℕ) → parse_digits 0 (format_nat n) ≡ some n
unfolding format_nat
parse_digits-format_nat n = parse_digits-digits (suc n) n (ground arith)

pub format_nat-IsDigits : (n : ℕ) → IsDigits (format_nat n)
unfolding format_nat
format_nat-IsDigits n = digits-IsDigits (suc n) n

pub parse_unsigned :
    (n : ℕ) (s : Text)
    → n < 2 ^ 63
    → IsDigits s
    → parse_digits 0 s ≡ some n
    → s ≢ []
    → parse_int s ≡ some (pos n)
parse_unsigned n [] h d e k = absurd (k refl)
parse_unsigned n (c ∷ s) h d e k =
    parse_int-IsDigits c s d.0 ∙ ap (signed false) e ∙ (unfold signed in ground arith)
