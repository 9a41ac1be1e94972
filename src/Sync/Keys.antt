-- ===== src/Sync/Keys.antt =====
-- The keys of the objects of bundles.
use mathlib.Core.List.{append_assoc}
use hsync_server.Prelude.{
  suc, ◌≡◌, some, [], ◌∷◌, ◌++◌, Text, length, take, drop, ap, sym, ◌∙◌, arith,
}
use hsync_server.GoStrings.{codes, index_of, trim_suffix}
use hsync_server.GoStrings.Cuts.{
  Without, index_of-append, take-append, drop_past, trim_suffix-append,
}
use hsync_server.Sync.Tables.{bundle_key}

key_parts : (user id : Text) → drop 8 (bundle_key user id) ≡ user ++ b'/' ∷ (id ++ codes ".hsb")
unfolding bundle_key
key_parts user id =
    append_assoc (user ++ codes "/") id (codes ".hsb")
    ∙ append_assoc user (codes "/") (id ++ codes ".hsb")

tail_user :
    (user rest : Text) (t : Text)
    → Without b'/' user
    → user ++ b'/' ∷ rest ≡ t
    → (index_of t (b'/' ∷ []) ≡ some (length user)) × (take (length user) t ≡ user)
tail_user user rest t w e = (
  ap (λ x. index_of x (b'/' ∷ [])) (sym e) ∙ index_of-append b'/' user rest w,
  ap (take (length user)) (sym e) ∙ take-append user (b'/' ∷ rest),
)

-- Two bundles of users whose ids have no slash have one key only if they are of one user and have
-- one id.
pub bundle_key_injective :
    (u i user id : Text)
    → Without b'/' u
    → Without b'/' user
    → bundle_key u i ≡ bundle_key user id
    → (u ≡ user) × (i ≡ id)
bundle_key_injective u i user id w v e =
    let same : u ++ b'/' ∷ (i ++ codes ".hsb") ≡ user ++ b'/' ∷ (id ++ codes ".hsb") =
      sym (key_parts u i) ∙ ap (drop 8) e ∙ key_parts user id in
    let (at_u, cut_u) = tail_user u (i ++ codes ".hsb") _ w same in
    let at_user = index_of-append b'/' user (id ++ codes ".hsb") v in
    let lengths : length u ≡ length user = ground (arith, sym at_u ∙ at_user) in
    let users : u ≡ user =
      sym cut_u
      ∙ ap (λ n. take n (user ++ b'/' ∷ (id ++ codes ".hsb"))) lengths
      ∙ take-append user (b'/' ∷ (id ++ codes ".hsb")) in
    let ids : i ++ codes ".hsb" ≡ id ++ codes ".hsb" =
      sym (drop_past b'/' u (i ++ codes ".hsb"))
      ∙ ap (drop (suc (length u))) same
      ∙ ap (λ n. drop (suc n) (user ++ b'/' ∷ (id ++ codes ".hsb"))) lengths
      ∙ drop_past b'/' user (id ++ codes ".hsb") in
    (
      users,
      sym (trim_suffix-append i (codes ".hsb"))
          ∙ ap (λ t. trim_suffix t (codes ".hsb")) ids
          ∙ trim_suffix-append id (codes ".hsb"),
    )
