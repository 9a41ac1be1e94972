-- ===== src/GoStrings/Words.antt =====
-- The words of a text and the texts in it, by Go's package strings.
use hsync_server.Prelude.{
  ℕ, ◌+◌, Bool, true, false, none, some, List, [], ◌∷◌, ◌++◌, Text, if◌then◌else◌, take, drop,
  length,
}
use hsync_server.GoStrings.{codes, index_of, trim_left, trim_right, is_space}

unfoldable pub add_first : ℕ → List Text → List Text
add_first c [] = (c ∷ []) ∷ []
add_first c (w ∷ ws) = (c ∷ w) ∷ ws

-- strings.Fields
unfoldable pub fields : Text → List Text
unfolding is_space add_first
fields [] = []
fields (c ∷ s) =
    let later = fields s in
    if is_space c then later else elim s [
      | [] ↦ (c ∷ []) ∷ []
      | d ∷ _ ↦ if is_space d then (c ∷ []) ∷ later else add_first c later
    ]

-- strings.Join by one space.
unfoldable pub join : List Text → Text
join [] = []
join (w ∷ ws) = elim ws [ [] ↦ w | _ ∷ _ ↦ w ++ codes " " ++ join ws ]

-- strings.Contains
unfoldable pub contains : Text → Text → Bool
unfolding index_of
contains s t = elim (index_of s t) [ none ↦ false | some _ ↦ true ]

-- strings.Trim by a set of bytes.
unfoldable pub trim : (ℕ → Bool) → Text → Text
trim p s = trim_right p (trim_left p s)

-- strings.Replace of the first occurrence.
unfoldable pub replace_first : Text → Text → Text → Text
replace_first s old by = elim (index_of s old) [
  | none ↦ s
  | some i ↦ take i s ++ by ++ drop (i + length old) s
]
