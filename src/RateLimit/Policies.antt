-- ===== src/RateLimit/Policies.antt =====
-- The middleware's decisions and the resolved fail modes.
use hsync_server.Prelude.{
  ◌≡◌, refl, ◌∙◌, ℤ, pos, ◌≤ℤ◌, Bool, true, false, not, ◌↔◌, Option, none, some, [], Text, text_eqb,
  ◌==◌, text_eq, text_eqb_iff, arith, Bool-cases, inl, inr, if◌then◌else◌, ◌||◌, leb_ℤ, ◌⊎◌,
}
use hsync_server.GoStrings.{to_lower, trim_space, codes}
use hsync_server.RateLimit.Modes.{
  fail_open, fail_closed, fallback_memory, fallback_deny, fallback_disable, normalize_fail_mode,
  valid_fail_mode, normalize_redis_fallback, valid_redis_fallback, new_runtime_config,
  normalize_bucket_fail_mode, default_fail_mode, public_auth_fail_mode, enterprise_admin_fail_mode,
  enterprise_billing_fail_mode, redis_fallback,
}
use hsync_server.RateLimit.Limiter.{Result}
use hsync_server.RateLimit.Enforce.{
  RateDecision, Reply, exhausted, exempt, enforce, answer, retry_seconds,
}

-- Whether the Retry-After of a reply, if it has one, is at least 1.
abbrev pub retry_at_least_one : Option Reply → Bool
retry_at_least_one (some (exhausted n)) = leb_ℤ (pos 1) n
retry_at_least_one _ = true

-- Whether the limiter's answer lets the request through.
abbrev pub admits : Text → Option Result → Bool
admits fail_mode none = not (fail_mode == fail_closed)
admits fail_mode (some r) = r.allowed

retry_seconds_pos : (z : ℤ) → pos 1 ≤ℤ retry_seconds z
unfolding retry_seconds
retry_seconds_pos z = ground arith

answer_allowed :
    (policy mode : Text) (res : Option Result) → (answer policy mode res).allowed ≡ admits mode res
unfolding answer
answer_allowed policy mode none = ground arith
answer_allowed policy mode (some r) = ground arith

answer_reply :
    (policy mode : Text) (res : Option Result)
    → ((answer policy mode res).allowed ≡ true) ↔ ((answer policy mode res).reply ≡ none)
unfolding answer
answer_reply policy mode none = ground arith
answer_reply policy mode (some r) = ground arith

answer_retry :
    (policy mode : Text) (res : Option Result)
    → retry_at_least_one (answer policy mode res).reply ≡ true
unfolding answer
answer_retry policy mode none = ground arith
answer_retry policy mode (some r) = ground (arith, retry_seconds_pos r.retry_after)

-- An unset fail mode is not fail_closed.
unset_mode :
    (mode : Text) (res : Option Result)
    → admits (if mode == [] then fail_open else mode) res ≡ admits mode res
unset_mode mode none = elim (Bool-cases (mode == [])) [
  | inl unset ↦ rw (unset, (text_eqb_iff mode []).0 unset) (unfold text_eqb in refl)
  | inr chosen ↦ rw chosen
]
unset_mode mode (some r) = refl

module _ {S : Type 0} (allow : S → Text → ℤ → ℤ → Option Result × S) where
  -- For every limiter and decision: the request is refused exactly if it is not exempt and the
  -- limiter either failed under the mode fail_closed or answered no. An admitted request has no
  -- 429 reply and a refused one has one, and a Retry-After is at least 1.
  pub enforce_refusals :
      (s : S) (window : ℤ) (d : RateDecision)
      → let out = (enforce allow (some s) window d).0 in
        (out.allowed ≡ (exempt d || admits d.fail_mode (allow s d.key d.limit window).0))
        × ((out.allowed ≡ true) ↔ (out.reply ≡ none))
        × (retry_at_least_one out.reply ≡ true)
  unfolding enforce
  enforce_refusals s window d = elim (Bool-cases (exempt d)) [
    | inl free ↦ rw free (refl, ((λ _. refl), (λ _. refl)), refl)
    | inr asked ↦ rw asked (
      answer_allowed _ _ _ ∙ unset_mode d.fail_mode (allow s d.key d.limit window).0,
      answer_reply _ _ _,
      answer_retry _ _ _,
    )
  ]

-- The spelling that decides a mode: lower case, with no space around it.
abbrev spelled : Text → Text
spelled raw = to_lower (trim_space raw)

-- Validation accepts the spellings fail_open and fail_closed, and memory, deny and disable for the
-- Redis fallback, and no others; normalisation keeps a spelling that is accepted, and any other text
-- falls back to fail_open, or to memory for the Redis fallback.
pub modes_agree :
    (raw : Text)
    → ((valid_fail_mode raw ≡ true)
        ↔ ((spelled raw ≡ codes "fail_open") ⊎ (spelled raw ≡ codes "fail_closed")))
      × ((valid_redis_fallback raw ≡ true) ↔ (
          (spelled raw ≡ codes "memory")
          ⊎ ((spelled raw ≡ codes "deny") ⊎ (spelled raw ≡ codes "disable"))))
      × (normalize_fail_mode raw ≡ (if valid_fail_mode raw then spelled raw else fail_open))
      × (normalize_redis_fallback raw
          ≡ (if valid_redis_fallback raw then spelled raw else fallback_memory))
unfolding normalize_fail_mode valid_fail_mode normalize_redis_fallback valid_redis_fallback
modes_agree raw = (
  accepted_fail (spelled raw),
  accepted_redis (spelled raw),
  fail_part (spelled raw),
  redis_part (spelled raw),
)
  where
    accepted_fail :
        (m : Text)
        → ((if m == fail_open then true else if m == fail_closed then true else false) ≡ true)
          ↔ ((m ≡ fail_open) ⊎ (m ≡ fail_closed))
    accepted_fail m = ground (arith, text_eqb_iff m fail_open, text_eqb_iff m fail_closed)

    accepted_redis :
        (m : Text)
        → ((if m == fallback_memory
              then true
              else if m == fallback_deny
              then true
              else if m == fallback_disable
              then true
              else false)
            ≡ true)
          ↔ ((m ≡ fallback_memory) ⊎ ((m ≡ fallback_deny) ⊎ (m ≡ fallback_disable)))
    accepted_redis m = ground (
      arith,
      text_eqb_iff m fallback_memory,
      text_eqb_iff m fallback_deny,
      text_eqb_iff m fallback_disable,
    )

    fail_part :
        (m : Text)
        → (if m == fail_closed then fail_closed else fail_open) ≡ (
            if (if m == fail_open then true else if m == fail_closed then true else false)
            then m
            else fail_open)
    fail_part m = ground (arith, text_eqb_iff m fail_open, text_eqb_iff m fail_closed)

    redis_part :
        (m : Text)
        → (if m == fallback_deny
            then fallback_deny
            else if m == fallback_disable
            then fallback_disable
            else fallback_memory)
          ≡ (if (if m == fallback_memory
                then true
                else if m == fallback_deny
                then true
                else if m == fallback_disable
                then true
                else false)
              then m
              else fallback_memory)
    redis_part m = ground (
      arith,
      text_eqb_iff m fallback_memory,
      text_eqb_iff m fallback_deny,
      text_eqb_iff m fallback_disable,
    )

normalized_nonempty : (raw : Text) → (normalize_fail_mode raw == []) ≡ false
unfolding normalize_fail_mode text_eqb
normalized_nonempty raw = ground arith

bucket_nonempty :
    (raw mode : Text) → (mode == []) ≡ false → (normalize_bucket_fail_mode raw mode == []) ≡ false
unfolding normalize_bucket_fail_mode
bucket_nonempty raw mode h = ground (arith, normalized_nonempty (trim_space raw))

-- The mode of a bucket: its own text if that is more than spaces, else the default text.
abbrev resolved : Text → Text → Text
resolved raw default_mode =
    if trim_space raw == []
    then normalize_fail_mode default_mode
    else normalize_fail_mode (trim_space raw)

nonempty_stays :
    (fallback mode : Text) → (mode == []) ≡ false → (if mode == [] then fallback else mode) ≡ mode
nonempty_stays fallback mode h = rw h

redis_nonempty : (raw : Text) → (normalize_redis_fallback raw == []) ≡ false
unfolding normalize_redis_fallback text_eqb
redis_nonempty raw = ground arith

bucket_stays :
    (fallback raw default_mode : Text)
    → (if normalize_bucket_fail_mode raw (normalize_fail_mode default_mode) == []
        then fallback
        else normalize_bucket_fail_mode raw (normalize_fail_mode default_mode))
      ≡ resolved raw default_mode
bucket_stays fallback raw default_mode =
    nonempty_stays _ _ (bucket_nonempty raw _ (normalized_nonempty default_mode))
    ∙ (unfold normalize_bucket_fail_mode in refl)

-- Of a built configuration the accessors return the resolved modes: a bucket without a text of its
-- own inherits the default, and no accessor falls back on its own.
pub resolved_modes :
    (default_mode public_auth admin billing redis : Text)
    → let cfg = new_runtime_config default_mode public_auth admin billing redis in
      (default_fail_mode cfg ≡ normalize_fail_mode default_mode)
      × (public_auth_fail_mode cfg ≡ resolved public_auth default_mode)
      × (enterprise_admin_fail_mode cfg ≡ resolved admin default_mode)
      × (enterprise_billing_fail_mode cfg ≡ resolved billing default_mode)
      × (redis_fallback cfg ≡ normalize_redis_fallback redis)
unfolding new_runtime_config default_fail_mode public_auth_fail_mode enterprise_admin_fail_mode
    enterprise_billing_fail_mode redis_fallback
resolved_modes default_mode public_auth admin billing redis = (
  nonempty_stays _ _ (normalized_nonempty default_mode),
  bucket_stays _ public_auth default_mode,
  bucket_stays _ admin default_mode,
  bucket_stays _ billing default_mode,
  nonempty_stays _ _ (redis_nonempty redis),
)
