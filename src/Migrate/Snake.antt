-- ===== src/Migrate/Snake.antt =====
-- What SanitizeName lets through.
use mathlib.Core.Path.{subst}
use hsync_server.Prelude.{
  ℕ, ◌≡◌, ◌≢◌, nat_eqb, Bool, true, false, not, ◌&&◌, ◌||◌, some, [], ◌∷◌, Text, ◌==◌, text_eq,
  text_eqb_iff, if◌then◌else◌, All, arith, Bool-cases, inl, inr, ◌⊎◌,
}
use hsync_server.GoStrings.{trim_left, trim_right, is_digit, to_lower, trim_space}
use hsync_server.GoStrings.Cuts.{Without}
use hsync_server.Migrate.Files.{is_name_byte, is_separator, snake_bytes, sanitize_name}

unfoldable pub is_part : ℕ → Bool
is_part c = is_name_byte c || nat_eqb c b'_'

-- A text of small letters, digits and underscores.
abbrev pub IsName : Text → Type 0
IsName s = All (λ c. is_part c ≡ true) s

trim_left-All : (P : ℕ → Type 0) (p : ℕ → Bool) (s : Text) → All P s → All P (trim_left p s)
unfolding trim_left
trim_left-All P p [] h = tt
trim_left-All P p (c ∷ s) h = elim (Bool-cases (p c)) [
  | inl off ↦ rw off (trim_left-All P p s h.1)
  | inr on ↦ rw on h
]

trim_right-All : (P : ℕ → Type 0) (p : ℕ → Bool) (s : Text) → All P s → All P (trim_right p s)
unfolding trim_right
trim_right-All P p [] h = tt
trim_right-All P p (c ∷ s) h = last (trim_right p s) (trim_right-All P p s h.1) (Bool-cases (p c))
  where
    last :
        (t : Text)
        → All P t
        → (p c ≡ true) ⊎ (p c ≡ false)
        → All P (elim t [ [] ↦ if p c then [] else c ∷ [] | d ∷ kept ↦ c ∷ d ∷ kept ])
    last [] k (inl off) = rw off tt
    last [] k (inr on) = rw on (h.0, tt)
    last (d ∷ kept) k o = (h.0, k)

snake_bytes-IsName : (started after : Bool) (s : Text) → IsName (snake_bytes started after s)
unfolding snake_bytes
snake_bytes-IsName started after [] = tt
snake_bytes-IsName started after (c ∷ s) = elim (Bool-cases (is_name_byte c)) [
  | inl kept ↦ rw kept (unfold is_part in ground arith, snake_bytes-IsName true false s)
  | inr other ↦ elim (Bool-cases (is_separator c && not after && started)) [
    | inl sep ↦ rw (other, sep) (unfold is_part in ground arith, snake_bytes-IsName true true s)
    | inr skip ↦ rw (other, skip) (snake_bytes-IsName started after s)
  ]
]

pub sanitize_name-IsName :
    (raw name : Text) → sanitize_name raw ≡ some name → IsName name × (name ≢ [])
unfolding sanitize_name
sanitize_name-IsName raw name h =
    let is_underscore : ℕ → Bool = λ c. nat_eqb c b'_' in
    let bytes : Text = snake_bytes false false (trim_space (to_lower raw)) in
    let clean : Text = trim_right is_underscore (trim_left is_underscore bytes) in
    let fine : IsName clean = trim_right-All _ is_underscore (trim_left is_underscore bytes) (
      trim_left-All _ is_underscore bytes
        (snake_bytes-IsName false false (trim_space (to_lower raw)))) in
    elim (Bool-cases (clean == [])) [
      | inl none_left ↦ absurd (ground arith)
      | inr some_left ↦
          let same : clean ≡ name = ground arith in
          (subst IsName same fine, λ e. ground (arith, text_eqb_iff clean [], same, e))
    ]

-- Neither a point nor a sign is in a name; an underscore is not in the digits.
pub part_no_dot : (s : Text) → IsName s → Without b'.' s
part_no_dot [] h = tt
part_no_dot (c ∷ s) h =
    let here = h.0 in (unfold is_part is_name_byte is_digit in ground arith, part_no_dot s h.1)
