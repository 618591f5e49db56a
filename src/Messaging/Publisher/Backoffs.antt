-- ===== src/Messaging/Publisher/Backoffs.antt =====
-- The backoff before each retry against its formula.
use native.Mathlib.Nat.{pow-suc}
use metrics_pipeline_go.Prelude.{
  ℕ, zero, suc, ◌+◌, ◌-◌, ◌*◌, ◌^◌, ◌≤◌, ◌<◌, ◌≡◌, pos, add64_pos, min, int64_half, arith,
}
use metrics_pipeline_go.Messaging.Publisher.{RetryConfig, backoff, backoff_from}

double_power : (rounds d : ℕ) → (d + d) * 2 ^ rounds ≡ d * 2 ^ suc rounds
double_power rounds d = rw pow-suc (omega arith)

power_pos : (rounds : ℕ) → 0 < 2 ^ rounds
power_pos zero = omega arith
power_pos (suc rounds) = rw pow-suc (omega (arith, power_pos rounds))

scale_up : (d rounds : ℕ) → d ≤ d * 2 ^ rounds
scale_up d rounds = grind (arith, power_pos rounds)

backoff_from_lem :
    (rounds d m : ℕ)
    → m + m < int64_half
    → d ≤ m
    → backoff_from rounds (pos d) (pos m) ≡ pos (min (d * 2 ^ rounds) m)
unfolding backoff_from
backoff_from_lem zero d m h l = let e : d ≡ min (d * 1) m = omega arith in rw (← e)
backoff_from_lem (suc rounds) d m h l = ground (
  arith,
  add64_pos d d,
  double_power rounds d,
  scale_up (d + d) rounds,
  backoff_from_lem rounds (d + d) m,
)

-- The backoff before the retry after attempt k is min(initial * 2^(k-1), max), for an initial backoff of at most
-- the longest one, which can be doubled without overflow.
pub backoff_formula :
    (config : RetryConfig) (attempt initial longest : ℕ)
    → config.initial_backoff ≡ pos initial
    → config.max_backoff ≡ pos longest
    → initial ≤ longest
    → longest + longest < int64_half
    → backoff config (suc attempt) ≡ pos (min (initial * 2 ^ attempt) longest)
unfolding backoff
backoff_formula config attempt initial longest ei em l h =
    let e : suc attempt - 1 ≡ attempt = omega arith in
    rw (e, ei, em, backoff) (backoff_from_lem attempt initial longest h l)
