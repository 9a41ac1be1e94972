-- ===== src/GoStrings.antt =====
-- What the program uses of Go's packages strings and strconv, over texts that are lists of bytes.
-- Letters, digits and spaces are those of ASCII.
pub mod Cuts
pub mod Numbers
pub mod Words
pub mod Ascii
pub mod Found
use Prim.Native.Char.{code}
use Prim.Native.String.{String}
use hsync_server.Prelude.{
  ℕ, zero, suc, ◌+◌, ◌/◌, ◌%◌, ℤ, pos, negsuc, ltb, ◌≡◌, refl, ◌&&◌, ◌||◌, [], ◌∷◌, ◌++◌, Text,
  Option, none, some, leb, nat_eqb, true, false, Bool, if◌then◌else◌, length, drop, take, ◌-◌, ◌*◌,
  ◌^◌, ◌-ℤ◌, text_eqb,
}

-- The bytes of an ASCII literal.
abbrev pub codes : String → Text
codes String.[] = []
codes (String.◌∷◌ first later) = code first ∷ codes later

unfoldable pub lower_byte : ℕ → ℕ
lower_byte c = if leb b'A' c && leb c b'Z' then c + 32 else c

-- strings.ToLower
unfoldable pub to_lower : Text → Text
unfolding lower_byte
to_lower [] = []
to_lower (c ∷ s) = lower_byte c ∷ to_lower s

unfoldable pub is_space : ℕ → Bool
is_space c = nat_eqb c 32 || (leb 9 c && leb c 13)

unfoldable pub trim_left : (ℕ → Bool) → Text → Text
trim_left p [] = []
trim_left p (c ∷ s) = let rest = trim_left p s in if p c then rest else c ∷ s

-- strings.TrimRightFunc
unfoldable pub trim_right : (ℕ → Bool) → Text → Text
trim_right p [] = []
trim_right p (c ∷ s) = elim (trim_right p s) [
  | [] ↦ if p c then [] else c ∷ []
  | d ∷ kept ↦ c ∷ d ∷ kept
]

-- strings.TrimSpace
unfoldable pub trim_space : Text → Text
unfolding is_space trim_left trim_right
trim_space s = trim_right is_space (trim_left is_space s)

-- strings.HasPrefix
unfoldable pub has_prefix : Text → Text → Bool
has_prefix s [] = true
has_prefix [] (p ∷ ps) = false
has_prefix (c ∷ s) (p ∷ ps) = let rest = has_prefix s ps in if nat_eqb c p then rest else false

-- strings.Index; none stands for -1.
unfoldable pub index_of : Text → Text → Option ℕ
unfolding has_prefix
index_of [] key = if has_prefix [] key then some 0 else none
index_of (c ∷ s) key =
    let later = index_of s key in
    if has_prefix (c ∷ s) key then some 0 else elim later [ none ↦ none | some i ↦ some (suc i) ]

-- strings.LastIndex; none stands for -1.
unfoldable pub last_index_of : Text → Text → Option ℕ
unfolding has_prefix
last_index_of [] key = if has_prefix [] key then some 0 else none
last_index_of (c ∷ s) key = elim (last_index_of s key) [
  | some i ↦ some (suc i)
  | none ↦ if has_prefix (c ∷ s) key then some 0 else none
]

-- strings.HasSuffix
unfoldable pub has_suffix : Text → Text → Bool
has_suffix s t = leb (length t) (length s) && text_eqb (drop (length s - length t) s) t

-- strings.TrimSuffix
unfoldable pub trim_suffix : Text → Text → Text
unfolding has_suffix
trim_suffix s t = if has_suffix s t then take (length s - length t) s else s

to_lower_test : to_lower (codes "Fail_CLOSED") ≡ codes "fail_closed"
unfolding to_lower
to_lower_test = refl

trim_space_test : trim_space (codes "  a b ") ≡ codes "a b"
unfolding trim_space
trim_space_test = refl

trim_suffix_test : trim_suffix (codes "001_a.up.sql") (codes ".sql") ≡ codes "001_a.up"
unfolding trim_suffix text_eqb
trim_suffix_test = refl

last_index_of_test : last_index_of (codes "a.b.up") (codes ".") ≡ some 3
unfolding last_index_of
last_index_of_test = refl

index_of_test : index_of (codes "smtp_token=abc") (codes "token=") ≡ some 5
unfolding index_of
index_of_test = refl

-- The decimal digits of a number; the fuel bounds their count.
unfoldable pub digits : ℕ → ℕ → Text
digits zero n = []
digits (suc fuel) n =
    let more = digits fuel (n / 10) in
    if ltb n 10 then (n + 48) ∷ [] else more ++ (n % 10 + 48) ∷ []

unfoldable pub format_nat : ℕ → Text
unfolding digits
format_nat n = digits (suc n) n

-- strconv.FormatInt(z, 10)
unfoldable pub format_int : ℤ → Text
unfolding format_nat
format_int (pos n) = format_nat n
format_int (negsuc n) = b'-' ∷ format_nat (suc n)

format_int_test : format_int (negsuc 1204) ≡ codes "-1205"
unfolding format_int
format_int_test = refl

unfoldable pub is_digit : ℕ → Bool
is_digit c = leb b'0' c && leb c b'9'

-- The number that decimal digits stand for, after those that `seen` stands for.
unfoldable pub parse_digits : ℕ → Text → Option ℕ
unfolding is_digit
parse_digits seen [] = some seen
parse_digits seen (c ∷ s) =
    let rest = parse_digits (seen * 10 + (c - b'0')) s in if is_digit c then rest else none

unfoldable pub parse_nat : Text → Option ℕ
unfolding parse_digits
parse_nat [] = none
parse_nat (c ∷ s) = parse_digits 0 (c ∷ s)

-- The int64 of a sign and an absolute value, unless it is out of range.
unfoldable pub signed : Bool → Option ℕ → Option ℤ
signed minus none = none
signed true (some n) = if leb n (2 ^ 63) then some (pos 0 -ℤ pos n) else none
signed false (some n) = if ltb n (2 ^ 63) then some (pos n) else none

-- strconv.ParseInt(s, 10, 64); none for an error.
unfoldable pub parse_int : Text → Option ℤ
unfolding parse_nat signed
parse_int [] = none
parse_int (c ∷ s) =
    if nat_eqb c b'-'
    then signed true (parse_nat s)
    else if nat_eqb c b'+'
    then signed false (parse_nat s)
    else signed false (parse_nat (c ∷ s))

parse_int_test : parse_int (codes "-0120") ≡ some (negsuc 119)
unfolding parse_int parse_digits ◌-ℤ◌
parse_int_test = refl
