-- ===== src/RateLimit/Window.antt =====
-- How many requests of a key pass the in-process limiter in one window.
use hsync_server.Prelude.{
  quot_pos, wrap_suc, wrap_mul, ℕ, ◌+◌, ◌*◌, ◌/◌, ◌^◌, ◌≤◌, ◌<◌, ◌≡◌, refl, ℤ, pos, ◌+ℤ◌, ◌*ℤ◌,
  quot, wrap64, false, not, ◌≢◌, Option, none, some, Text, text_eq, lookup, insert, IsMap,
  IsMap-insert, IsMap-keep_if, lookup-insert, lookup-keep_if, leb, nat_eqb, eqb_ℤ, eq_of_eqb,
  text_eqb_iff, eqb_refl, arith, Bool-cases, inl, inr, if◌then◌else◌,
}
use hsync_server.RateLimit.Limiter.{
  MemoryBucket, MemoryLimiter, second, decide, window_seconds, count_in, unlimited, memory_allow,
  expired, sweep,
}

-- The window in whole seconds, as a number.
abbrev pub secs_of : ℕ → ℕ
secs_of w = if nat_eqb (w / second) 0 then 1 else w / second

-- Which window a time stands in.
abbrev pub window_of : ℕ → ℕ → ℕ
window_of w now = now / second / secs_of w

-- No intermediate result leaves int64.
abbrev pub Fits : ℕ → ℕ → Type 0
Fits w now = (w < 2 ^ 63) × (now / second + secs_of w < 2 ^ 63)

pub window_seconds_pos : (w : ℕ) → window_seconds (pos w) ≡ pos (secs_of w)
unfolding window_seconds quot
window_seconds_pos w = ground arith

pub secs_of_pos : (w : ℕ) → 0 < secs_of w
secs_of_pos w = ground arith

-- The end of the window that holds t, and how far it is.
pub window_end : (t s : ℕ) → 0 < s → (t < (t / s + 1) * s) × ((t / s + 1) * s ≤ t + s)
window_end t s h = grind arith

abbrev bucket_at : ℕ → ℕ → ℕ → MemoryBucket
bucket_at w b c = record { bucket = pos b; count = pos c; expires_at = pos ((b + 1) * secs_of w) }

window_of_le : (w now : ℕ) → window_of w now ≤ now / second
window_of_le w now = grind (arith, secs_of_pos w)

pub window_end_wrap :
    (w now : ℕ)
    → Fits w now
    → wrap64 (wrap64 (pos (window_of w now) +ℤ pos 1) *ℤ pos (secs_of w))
      ≡ pos ((window_of w now + 1) * secs_of w)
window_end_wrap w now fits =
    rw (wrap_suc (window_of w now) (omega (arith, window_of_le w now, secs_of_pos w, fits))) (
      wrap_mul _ _ (omega (arith, (window_end (now / second) (secs_of w) (secs_of_pos w)).1, fits)))

-- Allow in a window where c requests of the key have been counted.
module _ (m : MemoryLimiter) (now : ℕ) (key : Text) (l w c : ℕ) (positive : 0 < l)
    (small : l < 2 ^ 63) (window : 0 < w) (fits : Fits w now) (few : c + 1 < 2 ^ 63)
    (held : count_in (lookup key m.buckets) (pos (window_of w now)) ≡ pos c) where
  allow_state :
      (memory_allow m now key (pos l) (pos w)).1
      ≡ record { buckets = insert key (bucket_at w (window_of w now) (c + 1)) m.buckets }
  unfolding memory_allow
  allow_state = rw limited (
      rw (window_seconds_pos w, quot_pos (now / second) (secs_of w) (secs_of_pos w), held)
        (rw (wrap_suc c few, window_end_wrap w now fits)))
    where
      limited : unlimited (pos l) (pos w) ≡ false
      limited = ground arith

  pub allow_result :
      (memory_allow m now key (pos l) (pos w)).0
      ≡ decide (pos (c + 1)) (pos l) (pos (window_of w now)) (pos (secs_of w)) now
  unfolding memory_allow
  allow_result = rw limited (
      rw (window_seconds_pos w, quot_pos (now / second) (secs_of w) (secs_of_pos w), held)
        (rw (wrap_suc c few)))
    where
      limited : unlimited (pos l) (pos w) ≡ false
      limited = ground arith

-- The key k has been counted c times in window b, and its bucket ends with the window.
pub record Held (m : MemoryLimiter) (k : Text) (w b c : ℕ) : Type 0 where
  pub is_map : IsMap m.buckets
  pub counted : count_in (lookup k m.buckets) (pos b) ≡ pos c
  pub ends :
      (v : MemoryBucket)
      → lookup k m.buckets ≡ some v
      → v.bucket ≡ pos b
      → v.expires_at ≡ pos ((b + 1) * secs_of w)

-- An event in the life of the limiter: a request, or a run of the sweeper.
pub data Event : Type 0 where
  request : ℕ → Text → ℤ → ℤ → Event
  sweeps : ℕ → Event

unfoldable pub step : MemoryLimiter → Event → MemoryLimiter
step m (request now key limit window) = (memory_allow m now key limit window).1
step m (sweeps now) = sweep m now

-- Requests of the key k stand in window b, under one limit and window length; those of other keys
-- are any at all; the sweeper runs before the window ends.
abbrev pub InWindow : Text → ℕ → ℕ → ℕ → Event → Type 0
InWindow k l w b (request now key limit window) =
    key ≡ k → (limit ≡ pos l) × (window ≡ pos w) × Fits w now × (window_of w now ≡ b)
InWindow k l w b (sweeps now) = window_of w now ≡ b

-- The sweeper spares a bucket whose window has not ended.
live_in_window :
    (k : Text) (v : MemoryBucket) (w b now : ℕ)
    → v.expires_at ≡ pos ((b + 1) * secs_of w)
    → window_of w now ≡ b
    → expired now (k, v) ≡ false
unfolding expired ◌*ℤ◌
live_in_window k v w b now ends at =
    rw (ends, ← at) (ground (arith, (window_end (now / second) (secs_of w) (secs_of_pos w)).0))

lookup-sweep :
    (m : MemoryLimiter) (k : Text) (now : ℕ)
    → IsMap m.buckets
    → lookup k (sweep m now).buckets ≡ elim (lookup k m.buckets) [
      | none ↦ none
      | some v ↦ if not (expired now (k, v)) then some v else none
    ]
unfolding sweep
lookup-sweep m k now h = lookup-keep_if (λ entry. not (expired now entry)) k m.buckets h

swept_count :
    (k : Text) (w b c now : ℕ) (o : Option MemoryBucket)
    → window_of w now ≡ b
    → count_in o (pos b) ≡ pos c
    → ((v : MemoryBucket)
        → o ≡ some v
        → v.bucket ≡ pos b
        → v.expires_at ≡ pos ((b + 1) * secs_of w))
    → count_in
        (elim o [ none ↦ none | some v ↦ if not (expired now (k, v)) then some v else none ])
        (pos b)
      ≡ pos c
unfolding count_in
swept_count k w b c now none at h ends = h
swept_count k w b c now (some v) at h ends = elim (Bool-cases (eqb_ℤ v.bucket (pos b))) [
  | inl here ↦ rw (live_in_window k v w b now (ends v refl (eq_of_eqb v.bucket (pos b) here)) at) h
  | inr past ↦ ground arith
]

pub sweep-Held :
    (m : MemoryLimiter) (k : Text) (w b c now : ℕ)
    → window_of w now ≡ b
    → Held m k w b c
    → Held (sweep m now) k w b c
sweep-Held m k w b c now at h = record {
  is_map = unfold sweep in IsMap-keep_if _ m.buckets h.is_map;
  counted = rw (lookup-sweep m k now h.is_map) (swept_count k w b c now _ at h.counted h.ends);
  ends = λ v.
      rw (lookup-sweep m k now h.is_map)
        (λ found here. h.ends v (kept (lookup k m.buckets) v found) here);
}
  where
    kept :
        (o : Option MemoryBucket) (v : MemoryBucket)
        → (elim o [ none ↦ none | some u ↦ if not (expired now (k, u)) then some u else none ])
          ≡ some v
        → o ≡ some v
    kept o v e = ground arith

insert-Held :
    (m : MemoryLimiter) (k key : Text) (w b c : ℕ) (v : MemoryBucket)
    → key ≢ k
    → Held m k w b c
    → Held (record { buckets = insert key v m.buckets }) k w b c
insert-Held m k key w b c v differs h = record {
  is_map = IsMap-insert key v m.buckets h.is_map;
  counted = rw same h.counted;
  ends = λ u. rw same (h.ends u);
}
  where
    same : lookup k (insert key v m.buckets) ≡ lookup k m.buckets
    same = ground (arith, lookup-insert key k v m.buckets, text_eqb_iff key k)

pub other-Held :
    (m : MemoryLimiter) (k key : Text) (w b c now : ℕ) (limit window : ℤ)
    → key ≢ k
    → Held m k w b c
    → Held (memory_allow m now key limit window).1 k w b c
unfolding memory_allow
other-Held m k key w b c now limit window differs h = elim (Bool-cases (unlimited limit window)) [
  | inl free ↦ rw free h
  | inr bounded ↦ rw bounded (insert-Held m k key w b c _ differs h)
]

pub same-Held :
    (m : MemoryLimiter) (k : Text) (l w b c now : ℕ)
    → 0 < l
    → l < 2 ^ 63
    → 0 < w
    → Fits w now
    → c + 1 < 2 ^ 63
    → window_of w now ≡ b
    → Held m k w b c
    → Held (memory_allow m now k (pos l) (pos w)).1 k w b (c + 1)
same-Held m k l w b c now p sm wp fits few at h =
    rw (allow_state m now k l w c p sm wp fits few (rw at h.counted), at)
      (record {
        is_map = IsMap-insert k _ m.buckets h.is_map;
        counted = rw found (unfold count_in in ground arith);
        ends = λ u. rw found (λ e. ground arith);
      })
  where
    found : lookup k (insert k (bucket_at w b (c + 1)) m.buckets) ≡ some (bucket_at w b (c + 1))
    found = rw (lookup-insert k k (bucket_at w b (c + 1)) m.buckets, eqb_refl k)

pub same-allowed :
    (m : MemoryLimiter) (k : Text) (l w b c now : ℕ)
    → 0 < l
    → l < 2 ^ 63
    → 0 < w
    → Fits w now
    → c + 1 < 2 ^ 63
    → window_of w now ≡ b
    → Held m k w b c
    → (memory_allow m now k (pos l) (pos w)).0.allowed ≡ leb (c + 1) l
same-allowed m k l w b c now p sm wp fits few at h =
    rw (allow_result m now k l w c p sm wp fits few (rw at h.counted))
      (unfold decide in ground arith)
