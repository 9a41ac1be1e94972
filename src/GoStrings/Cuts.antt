-- ===== src/GoStrings/Cuts.antt =====
-- Cutting a text at its suffix, and at the first or the last of a byte.
use hsync_server.Prelude.{
  ℕ, suc, ◌-◌, ◌≡◌, refl, ap, nat_eqb, false, none, some, [], ◌∷◌, ◌++◌, Text, text_eqb_refl,
  length, length-append, take, drop, All, arith,
}
use hsync_server.GoStrings.{has_prefix, index_of, last_index_of, has_suffix, trim_suffix}

pub take-append : (s t : Text) → take (length s) (s ++ t) ≡ s
take-append [] [] = refl
take-append [] (c ∷ t) = refl
take-append (c ∷ s) t = ap (λ r. c ∷ r) (take-append s t)

pub drop-append : (s t : Text) → drop (length s) (s ++ t) ≡ t
drop-append [] t = refl
drop-append (c ∷ s) t = drop-append s t

pub drop_past : (b : ℕ) (s t : Text) → drop (suc (length s)) (s ++ b ∷ t) ≡ t
drop_past b [] t = refl
drop_past b (c ∷ s) t = drop_past b s t

cut_length : (s t : Text) → length (s ++ t) - length t ≡ length s
cut_length s t = omega (arith, length-append s t)

pub trim_suffix-append : (s t : Text) → trim_suffix (s ++ t) t ≡ s
unfolding trim_suffix has_suffix
trim_suffix-append s t =
    rw (cut_length s t, drop-append s t, text_eqb_refl t, take-append s t, length-append s t) ground
      arith

-- No byte of a text is `b`.
abbrev pub Without : ℕ → Text → Type 0
Without b s = All (λ c. nat_eqb c b ≡ false) s

pub Without-append : (b : ℕ) (s t : Text) → Without b s → Without b t → Without b (s ++ t)
Without-append b [] t h k = k
Without-append b (c ∷ s) t h k = (h.0, Without-append b s t h.1 k)

pub index_of-append :
    (b : ℕ) (s t : Text) → Without b s → index_of (s ++ b ∷ t) (b ∷ []) ≡ some (length s)
unfolding index_of has_prefix
index_of-append b [] t h = ground arith
index_of-append b (c ∷ s) t h = ground (arith, index_of-append b s t h.1, h.0)

last_index_of-absent : (b : ℕ) (s : Text) → Without b s → last_index_of s (b ∷ []) ≡ none
unfolding last_index_of has_prefix
last_index_of-absent b [] h = refl
last_index_of-absent b (c ∷ s) h = rw (last_index_of-absent b s h.1, h.0) refl

pub last_index_of-append :
    (b : ℕ) (s t : Text) → Without b t → last_index_of (s ++ b ∷ t) (b ∷ []) ≡ some (length s)
unfolding last_index_of
last_index_of-append b [] t h = rw (last_index_of-absent b t h) (unfold has_prefix in ground arith)
last_index_of-append b (c ∷ s) t h = rw (last_index_of-append b s t h) refl
