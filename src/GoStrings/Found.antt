-- ===== src/GoStrings/Found.antt =====
-- Where a text is found in another, and lower case.
use hsync_server.Prelude.{
  ℕ, suc, ◌+◌, ◌≤◌, ◌≡◌, true, some, [], ◌∷◌, ◌++◌, Text, length, arith, Bool-cases, Option-cases,
  inl, inr, refl, ap,
}
use hsync_server.GoStrings.{to_lower, lower_byte, index_of, has_prefix}

has_prefix-append :
    (s t key : Text) → length key ≤ length s → has_prefix (s ++ t) key ≡ has_prefix s key
unfolding has_prefix
has_prefix-append s t [] h = ground arith
has_prefix-append [] t (k ∷ key) h = absurd (ground arith)
has_prefix-append (c ∷ s) t (k ∷ key) h = ground (arith, has_prefix-append s t key (ground arith))

has_prefix_fits : (s key : Text) → has_prefix s key ≡ true → length key ≤ length s
unfolding has_prefix
has_prefix_fits s [] h = ground arith
has_prefix_fits [] (k ∷ key) h = absurd (ground arith)
has_prefix_fits (c ∷ s) (k ∷ key) h = ground (arith, has_prefix_fits s key)

pub index_of_fits : (s key : Text) (i : ℕ) → index_of s key ≡ some i → i + length key ≤ length s
unfolding index_of
index_of_fits [] key i h = ground (arith, has_prefix_fits [] key)
index_of_fits (c ∷ s) key i h = elim (Bool-cases (has_prefix (c ∷ s) key)) [
  | inl t ↦ ground (arith, has_prefix_fits (c ∷ s) key t)
  | inr f ↦ elim (Option-cases (index_of s key)) [
    | inl absent ↦ absurd (ground arith)
    | inr (j, found) ↦ ground (arith, index_of_fits s key j found)
  ]
]

pub index_of-extended :
    (s t key : Text) (i : ℕ) → index_of s key ≡ some i → index_of (s ++ t) key ≡ some i
unfolding index_of
index_of-extended [] [] key i h = h
index_of-extended [] (d ∷ t) [] i h = h
index_of-extended [] (d ∷ t) (k ∷ key) i h = absurd (ground (arith, has_prefix_fits [] (k ∷ key)))
index_of-extended (c ∷ s) t key i h =
    let same = has_prefix-append (c ∷ s) t key (omega (arith, index_of_fits (c ∷ s) key i h)) in
    elim (Option-cases (index_of s key)) [
      | inl absent ↦ ground (arith, same)
      | inr (j, found) ↦ ground (arith, same, index_of-extended s t key j found)
    ]

pub to_lower-append : (s t : Text) → to_lower (s ++ t) ≡ to_lower s ++ to_lower t
unfolding to_lower
to_lower-append [] t = refl
to_lower-append (c ∷ s) t = ap (λ r. lower_byte c ∷ r) (to_lower-append s t)

pub length-to_lower : (s : Text) → length (to_lower s) ≡ length s
unfolding to_lower
length-to_lower [] = refl
length-to_lower (c ∷ s) = ap suc (length-to_lower s)
