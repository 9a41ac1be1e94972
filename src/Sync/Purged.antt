-- ===== src/Sync/Purged.antt =====
-- A purge and the bundles that are not deleted.
use hsync_server.Prelude.{
  ℕ, ◌≡◌, Bool, true, false, Option, none, some, List, [], ◌∷◌, Text, text_eq, text_eqb_iff,
  keep_if, any_if, take, arith, Bool-cases, inl, inr, refl, ◌∙◌, All, All-keep_if, zero, suc, pos,
  pos_part, leb,
}
use hsync_server.Sync.Tables.{Bundle, Store, is_live, is_bundle, get_bundle, hard_delete_bundle}
use hsync_server.Sync.Retention.{
  RetentionReport, purge_one, purge_each, purge_expired, list_deleted_before, deleted_before,
  oldest_deleted, insert_deleted, normalize_batch, deletion_time,
}

-- The primary key: no two rows of one user and one id.
abbrev pub OneKey : List Bundle → Type 0
OneKey [] = Unit
OneKey (b ∷ bs) = (any_if (is_bundle b.user_id b.bundle_id) bs ≡ false) × OneKey bs

-- No live row has the key of this one.
abbrev pub IsGone : List Bundle → Bundle → Type 0
IsGone bs b = get_bundle b.user_id b.bundle_id bs ≡ none

get-hard_delete :
    (u i user id : Text) (bs : List Bundle)
    → get_bundle user id bs ≡ none
    → get_bundle u i (hard_delete_bundle user id bs) ≡ get_bundle u i bs
unfolding get_bundle hard_delete_bundle keep_if
get-hard_delete u i user id [] h = refl
get-hard_delete u i user id (b ∷ bs) h = ground (arith, get-hard_delete u i user id bs)

get_absent :
    (u i : Text) (bs : List Bundle) → any_if (is_bundle u i) bs ≡ false → get_bundle u i bs ≡ none
unfolding get_bundle any_if
get_absent u i [] h = refl
get_absent u i (b ∷ bs) h = ground (arith, get_absent u i bs)

All-insert_deleted :
    (P : Bundle → Type 0) (b : Bundle) (bs : List Bundle)
    → P b
    → All P bs
    → All P (insert_deleted b bs)
unfolding insert_deleted
All-insert_deleted P b [] h a = (h, tt)
All-insert_deleted P b (c ∷ cs) h a =
    elim (Bool-cases (leb (deletion_time b.deleted_at) (deletion_time c.deleted_at))) [
      | inl here ↦ rw here (h, a)
      | inr later ↦ rw later (a.0, All-insert_deleted P b cs h a.1)
    ]

pub All-oldest_deleted :
    (P : Bundle → Type 0) (bs : List Bundle) → All P bs → All P (oldest_deleted bs)
unfolding oldest_deleted
All-oldest_deleted P [] a = tt
All-oldest_deleted P (b ∷ bs) a =
    All-insert_deleted P b (oldest_deleted bs) a.0 (All-oldest_deleted P bs a.1)

pub All-take : (P : Bundle → Type 0) (n : ℕ) (bs : List Bundle) → All P bs → All P (take n bs)
All-take P zero bs a = tt
All-take P (suc n) [] a = tt
All-take P (suc n) (b ∷ bs) a = (a.0, All-take P n bs a.1)

differ :
    (c : Bundle) (bs : List Bundle)
    → any_if (is_bundle c.user_id c.bundle_id) bs ≡ false
    → All (λ x. is_bundle x.user_id x.bundle_id c ≡ false) bs
unfolding any_if
differ c [] h = tt
differ c (b ∷ bs) h = (
  ground (
    arith,
    text_eqb_iff b.user_id c.user_id,
    text_eqb_iff c.user_id b.user_id,
    text_eqb_iff b.bundle_id c.bundle_id,
    text_eqb_iff c.bundle_id b.bundle_id,
  ),
  differ c bs (ground arith),
)

IsGone-later :
    (c : Bundle) (bs xs : List Bundle)
    → All (λ x. is_bundle x.user_id x.bundle_id c ≡ false) xs
    → All (IsGone bs) xs
    → All (IsGone (c ∷ bs)) xs
unfolding get_bundle
IsGone-later c bs [] a g = tt
IsGone-later c bs (x ∷ xs) a g =
    let other = a.0 in let gone = g.0 in (ground arith, IsGone-later c bs xs a.1 g.1)

deleted-IsGone :
    (before : ℕ) (bs : List Bundle)
    → OneKey bs
    → All (IsGone bs) (keep_if (λ b. deleted_before before b.deleted_at) bs)
unfolding keep_if
deleted-IsGone before [] one = tt
deleted-IsGone before (b ∷ bs) one =
    let later =
      IsGone-later b bs (keep_if (λ x. deleted_before before x.deleted_at) bs)
        (All-keep_if _ (λ x. deleted_before before x.deleted_at) bs (differ b bs one.0))
        (deleted-IsGone before bs one.1) in
    elim (Bool-cases (deleted_before before b.deleted_at)) [
      | inl old ↦ rw old (
        unfold get_bundle in
            ground
              (arith, old_dead before b.deleted_at old, get_absent b.user_id b.bundle_id bs one.0),
        later,
      )
      | inr new ↦ rw new later
    ]
  where
    old_dead : (before : ℕ) (t : Option ℕ) → deleted_before before t ≡ true → is_live t ≡ false
    old_dead before none h = absurd (ground arith)
    old_dead before (some t) h = refl

module _ (blob_fails : Text → Bool) (row_fails : Text → Text → Bool) where
  one-get :
      (u i : Text) (b : Bundle) (r : RetentionReport × Store)
      → IsGone r.1.bundles b
      → get_bundle u i (purge_one blob_fails row_fails b r).1.bundles ≡ get_bundle u i r.1.bundles
  unfolding purge_one
  one-get u i b (report, s) g =
      ground (arith, get-hard_delete u i b.user_id b.bundle_id s.bundles g)

  still-IsGone :
      (b : Bundle) (r : RetentionReport × Store) (bs : List Bundle)
      → IsGone r.1.bundles b
      → All (IsGone r.1.bundles) bs
      → All (IsGone (purge_one blob_fails row_fails b r).1.bundles) bs
  still-IsGone b r [] g a = tt
  still-IsGone b r (x ∷ xs) g a =
      (one-get x.user_id x.bundle_id b r g ∙ a.0, still-IsGone b r xs g a.1)

  each-get :
      (u i : Text) (bs : List Bundle) (r : RetentionReport × Store)
      → All (IsGone r.1.bundles) bs
      → get_bundle u i (purge_each blob_fails row_fails bs r).1.bundles ≡ get_bundle u i r.1.bundles
  unfolding purge_each
  each-get u i [] r a = refl
  each-get u i (b ∷ bs) r a =
      each-get u i bs (purge_one blob_fails row_fails b r) (still-IsGone b r bs a.0 a.1)
      ∙ one-get u i b r a.0

  pub purge_keeps_live :
      (u i : Text) (before : ℕ) (s : Store)
      → OneKey s.bundles
      → get_bundle u i (purge_expired blob_fails row_fails before s).1.bundles
        ≡ get_bundle u i s.bundles
  unfolding purge_expired
  purge_keeps_live u i before s one =
      each-get u i (list_deleted_before before (pos 100) s.bundles) _ (
        unfold list_deleted_before in
        All-take _ (pos_part (normalize_batch (pos 100))) _
          (All-oldest_deleted _ _ (deleted-IsGone before s.bundles one)))
