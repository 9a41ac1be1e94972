-- ===== src/RateLimit/Answers.antt =====
-- What the limiters answer, and what the middleware makes of it.
use hsync_server.Prelude.{
  wrap_mul, ℕ, ◌+◌, ◌-◌, ◌*◌, ◌/◌, ◌^◌, ◌≤◌, ◌<◌, ◌≡◌, refl, pos, ◌-ℤ◌, ◌*ℤ◌, wrap64, ltb_ℤ, ltb,
  Text, text_eq, leb, arith, if◌then◌else◌,
}
use hsync_server.RateLimit.Limiter.{MemoryLimiter, second, decide, memory_allow}
use hsync_server.RateLimit.Window.{
  Held, Fits, window_of, secs_of, window_end, window_end_wrap, secs_of_pos, allow_result,
}

wrap_sub : (a b : ℕ) → b ≤ a → a < 2 ^ 63 → wrap64 (pos a -ℤ pos b) ≡ pos (a - b)
unfolding wrap64 ◌-ℤ◌
wrap_sub a b h k = ground arith

secs_bound : (w s : ℕ) → w < 2 ^ 63 → s ≤ secs_of w → s * second < 2 ^ 63
secs_bound w s h le = ground arith

-- How long the window that holds `now` still lasts, in seconds.
abbrev pub left_in : ℕ → ℕ → ℕ
left_in w now = (window_of w now + 1) * secs_of w - now / second

left_bounds : (w now : ℕ) → (1 ≤ left_in w now) × (left_in w now ≤ secs_of w)
left_bounds w now = omega (arith, window_end (now / second) (secs_of w) (secs_of_pos w))

clamped :
    (l c : ℕ)
    → l < 2 ^ 63
    → c < 2 ^ 63
    → (if ltb_ℤ (wrap64 (pos l -ℤ pos c)) (pos 0) then pos 0 else wrap64 (pos l -ℤ pos c))
      ≡ pos (l - c)
unfolding wrap64 ◌-ℤ◌
clamped l c h k = ground arith

retry_lem :
    (w now : ℕ)
    → Fits w now
    → wrap64 (wrap64 (pos ((window_of w now + 1) * secs_of w) -ℤ pos (now / second)) *ℤ pos second)
      ≡ pos (left_in w now * second)
retry_lem w now fits =
    rw
      (wrap_sub ((window_of w now + 1) * secs_of w) (now / second)
        (omega (arith, left_bounds w now))
        (omega (arith, window_end (now / second) (secs_of w) (secs_of_pos w), fits)))
      (wrap_mul (left_in w now) second (secs_bound w (left_in w now) fits.0 (left_bounds w now).1))

pub decide_exact :
    (w now c l : ℕ)
    → Fits w now
    → c < 2 ^ 63
    → l < 2 ^ 63
    → decide (pos c) (pos l) (pos (window_of w now)) (pos (secs_of w)) now ≡ record {
      allowed = leb c l;
      limit = pos l;
      remaining = pos (l - c);
      retry_after = pos (left_in w now * second);
    }
unfolding decide
decide_exact w now c l fits small lim =
    rw (window_end_wrap w now fits)
      (rw (clamped l c lim small) (rw (retry_lem w now fits) (ground arith)))

-- With positive limit and window below 2^63 and no overflowing time, the answer to a request of a
-- key that has been counted c times in the window: the key passes exactly if c < l, what remains
-- is l - (c + 1) or 0, and the time to wait is the rest of the window, at least one second and at
-- most the window in whole seconds.
pub memory_answer :
    (m : MemoryLimiter) (k : Text) (l w c now : ℕ)
    → 0 < l
    → l < 2 ^ 63
    → 0 < w
    → Fits w now
    → c + 1 < 2 ^ 63
    → Held m k w (window_of w now) c
    → let res = (memory_allow m now k (pos l) (pos w)).0 in
      (res.allowed ≡ ltb c l)
      × (res.limit ≡ pos l)
      × (res.remaining ≡ pos (l - (c + 1)))
      × (res.retry_after ≡ pos (left_in w now * second))
      × (1 ≤ left_in w now)
      × (left_in w now ≤ secs_of w)
memory_answer m k l w c now p small wp fits few h =
    rw
      (
        allow_result m now k l w c p small wp fits few h.counted,
        decide_exact w now (c + 1) l fits few small,
      )
      (ground arith, refl, refl, refl, (left_bounds w now).0, (left_bounds w now).1)
