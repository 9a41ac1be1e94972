-- ===== src/GoStrings/Ascii.antt =====
-- Texts of ASCII bytes, and strings.ToLower on any text.
use hsync_server.Prelude.{
  ℕ, zero, suc, ◌+◌, ◌≡◌, ltb, Bool, true, false, ◌&&◌, List, [], ◌∷◌, ◌++◌, Text, if◌then◌else◌,
  take, drop, length, arith, refl, All, Option-cases, inl, inr,
}
use hsync_server.GoStrings.{codes, to_lower, index_of, trim_left, trim_right, trim_space, is_space}
use hsync_server.GoStrings.Words.{fields, add_first, join, replace_first}

unfoldable pub is_ascii : Text → Bool
is_ascii [] = true
is_ascii (c ∷ s) = let rest = is_ascii s in if ltb c 128 then rest else false

-- strings.ToLower: bytes where all are ASCII, and else the mapping of the runes.
unfoldable pub lower_text : (Text → Text) → Text → Text
unfolding is_ascii to_lower
lower_text unicode_lower s = if is_ascii s then to_lower s else unicode_lower s

pub lower_text-ascii :
    (unicode_lower : Text → Text) (s : Text)
    → is_ascii s ≡ true
    → lower_text unicode_lower s ≡ to_lower s
unfolding lower_text
lower_text-ascii unicode_lower s h = rw h refl

pub is_ascii-append : (s t : Text) → is_ascii (s ++ t) ≡ (is_ascii s && is_ascii t)
unfolding is_ascii
is_ascii-append [] t = ground arith
is_ascii-append (c ∷ s) t = ground (arith, is_ascii-append s t)

pub is_ascii-drop : (n : ℕ) (s : Text) → is_ascii s ≡ true → is_ascii (drop n s) ≡ true
unfolding is_ascii
is_ascii-drop zero s h = h
is_ascii-drop (suc n) [] h = h
is_ascii-drop (suc n) (c ∷ s) h = is_ascii-drop n s (ground arith)

pub is_ascii-take : (n : ℕ) (s : Text) → is_ascii s ≡ true → is_ascii (take n s) ≡ true
unfolding is_ascii
is_ascii-take zero s h = refl
is_ascii-take (suc n) [] h = h
is_ascii-take (suc n) (c ∷ s) h = ground (arith, is_ascii-take n s (ground arith))

pub is_ascii-trim_left :
    (p : ℕ → Bool) (s : Text) → is_ascii s ≡ true → is_ascii (trim_left p s) ≡ true
unfolding is_ascii trim_left
is_ascii-trim_left p [] h = h
is_ascii-trim_left p (c ∷ s) h = ground (arith, is_ascii-trim_left p s)

-- Every text of a list is ASCII.
abbrev pub AreAscii : List Text → Type 0
AreAscii ws = All (λ w. is_ascii w ≡ true) ws

pub is_ascii-trim_right :
    (p : ℕ → Bool) (s : Text) → is_ascii s ≡ true → is_ascii (trim_right p s) ≡ true
unfolding is_ascii trim_right
is_ascii-trim_right p [] h = h
is_ascii-trim_right p (c ∷ s) h = ground (arith, is_ascii-trim_right p s (ground arith))

pub is_ascii-trim_space : (s : Text) → is_ascii s ≡ true → is_ascii (trim_space s) ≡ true
unfolding trim_space
is_ascii-trim_space s h =
    is_ascii-trim_right is_space (trim_left is_space s) (is_ascii-trim_left is_space s h)

pub is_ascii-replace_first :
    (s old by : Text)
    → is_ascii s ≡ true
    → is_ascii by ≡ true
    → is_ascii (replace_first s old by) ≡ true
unfolding replace_first
is_ascii-replace_first s old by h b = elim (Option-cases (index_of s old)) [
  | inl absent ↦ rw (replace_first, absent) h
  | inr (i, found) ↦
      rw (replace_first, found)
        (ground (
          arith,
          is_ascii-append (take i s ++ by) (drop (i + length old) s),
          is_ascii-append (take i s) by,
          is_ascii-take i s h,
          is_ascii-drop (i + length old) s h,
        ))
]

AreAscii-add_first :
    (c : ℕ) (ws : List Text) → ltb c 128 ≡ true → AreAscii ws → AreAscii (add_first c ws)
unfolding add_first is_ascii
AreAscii-add_first c [] h a = (ground arith, tt)
AreAscii-add_first c (w ∷ ws) h a = let first = a.0 in (ground arith, a.1)

AreAscii-if :
    (b : Bool) (ws vs : List Text) → AreAscii ws → AreAscii vs → AreAscii (if b then ws else vs)
AreAscii-if true ws vs a o = a
AreAscii-if false ws vs a o = o

pub AreAscii-fields : (s : Text) → is_ascii s ≡ true → AreAscii (fields s)
unfolding fields
AreAscii-fields [] h = tt
AreAscii-fields (c ∷ []) h = AreAscii-if (is_space c) _ _ tt (h, tt)
AreAscii-fields (c ∷ d ∷ s) h =
    let byte : ltb c 128 ≡ true = unfold is_ascii in ground arith in
    let alone : is_ascii (c ∷ []) ≡ true = unfold is_ascii in ground arith in
    let later = AreAscii-fields (d ∷ s) (unfold is_ascii in ground arith) in
    AreAscii-if (is_space c) _ _ later
      (AreAscii-if (is_space d) _ _ (alone, later) (AreAscii-add_first c _ byte later))

pub is_ascii-join : (ws : List Text) → AreAscii ws → is_ascii (join ws) ≡ true
unfolding join
is_ascii-join [] a = unfold is_ascii in refl
is_ascii-join (w ∷ []) a = a.0
is_ascii-join (w ∷ v ∷ ws) a =
    let first = a.0 in
    let space : is_ascii (codes " ") ≡ true = unfold is_ascii in refl in
    let rest = is_ascii-join (v ∷ ws) a.1 in
    ground (arith, is_ascii-append (w ++ codes " ") (join (v ∷ ws)), is_ascii-append w (codes " "))
