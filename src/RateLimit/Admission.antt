-- ===== src/RateLimit/Admission.antt =====
-- The in-process limiter over a whole window: how many requests of a key it lets through.
use Prim.Native.Nat.{min}
use native.Mathlib.Nat.{add-zero}
use hsync_server.Prelude.{
  ℕ, ◌+◌, ◌^◌, ◌<◌, ◌≡◌, ℤ, pos, ◌&&◌, List, [], ◌∷◌, Text, ◌==◌, text_eq, arith, All, Bool-cases,
  inl, inr, text_eqb_iff, eqb_refl, if◌then◌else◌,
}
use hsync_server.RateLimit.Limiter.{MemoryLimiter, memory_allow}
use hsync_server.RateLimit.Window.{
  Held, Event, request, sweeps, step, InWindow, Fits, window_of, sweep-Held, other-Held, same-Held,
  same-allowed,
}

-- 1 for a request of the key that is let through.
abbrev pub allowed_of : Text → MemoryLimiter → Event → ℕ
allowed_of k m (request now key limit window) =
    if key == k && (memory_allow m now key limit window).0.allowed then 1 else 0
allowed_of k m (sweeps now) = 0

abbrev pub request_of : Text → Event → ℕ
request_of k (request now key limit window) = if key == k then 1 else 0
request_of k (sweeps now) = 0

abbrev pub allowed_in : Text → MemoryLimiter → List Event → ℕ
allowed_in k m [] = 0
allowed_in k m (e ∷ es) = allowed_of k m e + allowed_in k (step m e) es

abbrev pub requests_in : Text → List Event → ℕ
requests_in k [] = 0
requests_in k (e ∷ es) = request_of k e + requests_in k es

module _ (k : Text) (l w b : ℕ) (positive : 0 < l) (small : l < 2 ^ 63) (window : 0 < w) where
  abbrev Counts : MemoryLimiter → Event → ℕ → Type 0
  Counts m e c =
      Held (step m e) k w b (c + request_of k e)
      × (allowed_of k m e + min c l ≡ min (c + request_of k e) l)

  request-Counts :
      (m : MemoryLimiter) (now c : ℕ) (key : Text) (limit length : ℤ)
      → c + request_of k (request now key limit length) < 2 ^ 63
      → key ≡ k
      → limit ≡ pos l
      → length ≡ pos w
      → Fits w now
      → window_of w now ≡ b
      → Held m k w b c
      → Counts m (request now key limit length) c
  unfolding step
  request-Counts m now c key limit length few same e f fits at h =
      rw (same, e, f)
        (rw (eqb_refl k) (
          rw (same-allowed m k l w b c now positive small window fits few' at h)
            (same-Held m k l w b c now positive small window fits few' at h, ground arith)))
    where
      few' : c + 1 < 2 ^ 63
      few' = ground (arith, few, text_eqb_iff key k)

  step-Counts :
      (m : MemoryLimiter) (e : Event) (c : ℕ)
      → c + request_of k e < 2 ^ 63
      → InWindow k l w b e
      → Held m k w b c
      → Counts m e c
  unfolding step
  step-Counts m (sweeps now) c few inside h =
      (rw add-zero (sweep-Held m k w b c now inside h), omega arith)
  step-Counts m (request now key limit length) c few inside h = elim (Bool-cases (key == k)) [
    | inl same ↦
        let e : key ≡ k = (text_eqb_iff key k).0 same in
        let (lim, len, fits, at) = inside e in
        request-Counts m now c key limit length few e lim len fits at h
    | inr other ↦ rw other (
      rw add-zero
          (other-Held m k key w b c now limit length (λ e. ground (arith, text_eqb_iff key k)) h),
      omega arith,
    )
  ]

  admission :
      (es : List Event) (m : MemoryLimiter) (c : ℕ)
      → c + requests_in k es < 2 ^ 63
      → All (InWindow k l w b) es
      → Held m k w b c
      → allowed_in k m es + min c l ≡ min (c + requests_in k es) l
  admission [] m c few inside h = omega arith
  admission (e ∷ es) m c few inside h =
      let (h', one) = step-Counts m e c (omega arith) inside.0 h in
      omega (arith, one, admission es (step m e) (c + request_of k e) (omega arith) inside.1 h')

-- Over any events of one window, starting from a limiter that has counted no request of the key in
-- it, with positive limit and window below 2^63, fewer than 2^63 requests and no overflowing time:
-- exactly the first l requests of the key pass, whatever other keys do and whenever the sweeper
-- runs inside the window.
pub window_admits :
    (k : Text) (l w b : ℕ) (es : List Event) (m : MemoryLimiter)
    → 0 < l
    → l < 2 ^ 63
    → 0 < w
    → requests_in k es < 2 ^ 63
    → All (InWindow k l w b) es
    → Held m k w b 0
    → allowed_in k m es ≡ min (requests_in k es) l
window_admits k l w b es m p small wp few inside h =
    omega (arith, admission k l w b p small wp es m 0 (omega arith) inside h)
