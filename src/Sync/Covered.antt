-- ===== src/Sync/Covered.antt =====
-- The counted bytes, the live bytes, and the bytes of the uploads that are in flight.
use hsync_server.Prelude.{
  ℕ, ◌+◌, ◌-◌, ◌≤◌, ◌≡◌, Bool, true, false, none, some, Text, ◌==◌, text_eq, text_eqb_iff,
  if◌then◌else◌, Dict, lookup, insert, lookup-insert, arith, Bool-cases, Option-cases, inl, inr,
  refl, ap, sym, ◌∙◌, eqb_refl,
}
use hsync_server.Sync.Tables.{Usage, Store, live_bundle_bytes, live_snapshot_bytes}
use hsync_server.Sync.Usage.{
  added, usage_of, ensure_usage, add_usage, try_add, remove_usage, no_usage,
}

abbrev pub total_of : Text → Dict Text Usage → ℕ
total_of user m = (usage_of user m).total_bytes

abbrev pub live_bytes : Text → Store → ℕ
live_bytes user s = live_bundle_bytes user s.bundles + live_snapshot_bytes user s.snapshots

-- `flight` stands for the bytes that uploads have counted and not yet stored a row for.
abbrev pub Covered : Text → ℕ → Store → Type 0
Covered user flight s = live_bytes user s + flight ≤ total_of user s.usage

-- The part of a size that a user sees.
abbrev pub share : Text → Text → ℕ → ℕ
share user u size = if user == u then size else 0

-- An operation on a row of usage that adds or takes a size.
abbrev pub Adds : (ℕ → Usage → Usage) → Type 0
Adds f = (size : ℕ) (u : Usage) → (f size u).total_bytes ≡ u.total_bytes + size

abbrev pub Takes : (ℕ → Usage → Usage) → Type 0
Takes f = (size : ℕ) (u : Usage) → (f size u).total_bytes ≡ u.total_bytes - size

pub usage_of-insert :
    (user u : Text) (v : Usage) (m : Dict Text Usage)
    → usage_of u (insert user v m) ≡ (if user == u then v else usage_of u m)
unfolding usage_of
usage_of-insert user u v m = ground (arith, lookup-insert user u v m)

total_absent : (u : Text) (m : Dict Text Usage) → lookup u m ≡ none → total_of u m ≡ 0
unfolding usage_of
total_absent u m h = ground arith

total_there :
    (u : Text) (v : Usage) (m : Dict Text Usage)
    → lookup u m ≡ some v
    → total_of u m ≡ v.total_bytes
unfolding usage_of
total_there u v m h = ground arith

lookup_same :
    (user u : Text) (m : Dict Text Usage) → (user == u) ≡ true → lookup user m ≡ lookup u m
lookup_same user u m h = ap (λ w. lookup w m) ((text_eqb_iff user u).0 h)

pub total-ensure :
    (user u : Text) (m : Dict Text Usage) → total_of u (ensure_usage user m) ≡ total_of u m
unfolding ensure_usage
total-ensure user u m = elim (Option-cases (lookup user m)) [
  | inl absent ↦
      rw (absent, ensure_usage)
        (ap (λ v. v.total_bytes) (usage_of-insert user u no_usage m) ∙ fresh absent)
  | inr (v, there) ↦ rw (there, ensure_usage) refl
]
  where
    fresh :
        lookup user m ≡ none
        → (if user == u then no_usage else usage_of u m).total_bytes ≡ total_of u m
    fresh absent = elim (Bool-cases (user == u)) [
      | inl same ↦ rw same (sym (total_absent u m (sym (lookup_same user u m same) ∙ absent)))
      | inr other ↦ rw other refl
    ]

pub total-remove :
    (f : ℕ → Usage → Usage) (user u : Text) (size : ℕ) (m : Dict Text Usage)
    → Takes f
    → total_of u (remove_usage f user size m) ≡ total_of u m - share user u size
unfolding remove_usage
total-remove f user u size m t = elim (Option-cases (lookup user m)) [
  | inl absent ↦ rw (absent, remove_usage) (below absent)
  | inr (v, there) ↦
      rw (there, remove_usage)
        (ap (λ w. w.total_bytes) (usage_of-insert user u (f size v) m) ∙ cut v there)
]
  where
    below : lookup user m ≡ none → total_of u m ≡ total_of u m - share user u size
    below absent = elim (Bool-cases (user == u)) [
      | inl same ↦
          let zero : total_of u m ≡ 0 =
            total_absent u m (sym (lookup_same user u m same) ∙ absent) in
          omega arith
      | inr other ↦ rw other omega arith
    ]

    cut :
        (v : Usage)
        → lookup user m ≡ some v
        → (if user == u then f size v else usage_of u m).total_bytes
          ≡ total_of u m - share user u size
    cut v there = elim (Bool-cases (user == u)) [
      | inl same ↦
          let there_too : total_of u m ≡ v.total_bytes =
            total_there u v m (sym (lookup_same user u m same) ∙ there) in
          rw (same, there_too) (t size v)
      | inr other ↦ rw other omega arith
    ]

pub total-add :
    (f : ℕ → Usage → Usage) (user u : Text) (size limit : ℕ) (m : Dict Text Usage)
    → Adds f
    → let (a, m') = add_usage f user size limit m in
      total_of u m' ≡ total_of u m + (elim a [ added ↦ share user u size | _ ↦ 0 ])
unfolding add_usage
total-add f user u size limit m t = ground (
  arith,
  usage_of-insert user u (f size (usage_of user m)) m,
  t size (usage_of user m),
  text_eqb_iff user u,
)

pub total-try :
    (e w : Bool) (f : ℕ → Usage → Usage) (user u : Text) (size limit : ℕ) (m : Dict Text Usage)
    → Adds f
    → let (a, m') = try_add e w f user size limit m in
      total_of u m' ≡ total_of u m + (elim a [ added ↦ share user u size | _ ↦ 0 ])
unfolding try_add
total-try true w f user u size limit m t = omega arith
total-try false true f user u size limit m t = omega (arith, total-ensure user u m)
total-try false false f user u size limit m t =
    total-add f user u size limit (ensure_usage user m) t
    ∙ ap
        (λ n. n + (elim (add_usage f user size limit (ensure_usage user m)).0 [
          | added ↦ share user u size
          | _ ↦ 0
        ]))
        (total-ensure user u m)

pub try-limit :
    (e w : Bool) (f : ℕ → Usage → Usage) (user : Text) (size limit : ℕ) (m : Dict Text Usage)
    → Adds f
    → (try_add e w f user size limit m).0 ≡ added
    → total_of user (try_add e w f user size limit m).1 ≤ limit
unfolding try_add add_usage
try-limit true w f user size limit m t h = absurd (ground arith)
try-limit false true f user size limit m t h = absurd (ground arith)
try-limit false false f user size limit m t h =
    let n = ensure_usage user m in
    ground (
      arith,
      usage_of-insert user user (f size (usage_of user n)) n,
      t size (usage_of user n),
      eqb_refl user,
    )
