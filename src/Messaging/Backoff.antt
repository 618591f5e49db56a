-- ===== src/Messaging/Backoff.antt =====
-- Doubling backoffs of internal/messaging: minDuration of outbox_relay.go and PublisherConfig's
-- backoff. A time.Duration is an int64 of nanoseconds, and doubling wraps around.
use metrics_pipeline_go.Prelude.{
  ℕ, ◌+◌, ◌<◌, ◌≡◌, ℤ, pos, negsuc, ltb_ℤ, ◌≤ℤ◌, ◌<ℤ◌, pos_part, add64, add64_pos, int64_half,
  if◌then◌else◌, arith,
}

abbrev pub millisecond : ℕ
millisecond = 1000000

abbrev pub second : ℕ
second = 1000000000

unfoldable pub min_duration : ℤ → ℤ → ℤ
min_duration left right = if ltb_ℤ left right then left else right

-- `min(backoff*2, limit)`
unfoldable pub next_backoff : ℤ → ℤ → ℤ
unfolding min_duration
next_backoff backoff limit = min_duration (add64 backoff backoff) limit

-- A duration whose double is an int64: up to about 146 years.
abbrev pub IsDoublable : ℤ → Type 0
IsDoublable d = (pos 0 <ℤ d) × (pos_part d + pos_part d < int64_half)

double_lem : (d : ℤ) → IsDoublable d → add64 d d ≡ pos (pos_part d + pos_part d)
double_lem (pos n) h = add64_pos n n (h.1)
double_lem (negsuc n) h = absurd (omega arith)

-- A doubled backoff stays between the initial one and the limit.
pub next_backoff_bounds :
    (initial backoff limit : ℤ)
    → IsDoublable limit
    → pos 0 <ℤ initial
    → initial ≤ℤ backoff
    → backoff ≤ℤ limit
    → (initial ≤ℤ next_backoff backoff limit) × (next_backoff backoff limit ≤ℤ limit)
unfolding next_backoff
next_backoff_bounds initial (negsuc n) limit d i l u = absurd (omega arith)
next_backoff_bounds initial (pos n) (negsuc m) d i l u = absurd (omega arith)
next_backoff_bounds initial (pos n) (pos m) d i l u =
    ground (arith, double_lem (pos n) (omega arith, omega arith))
