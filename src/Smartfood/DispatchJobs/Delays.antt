-- ===== src/Smartfood/DispatchJobs/Delays.antt =====
-- The delay before a retry (smartfood/services/dispatch_job_service.py, _reschedule).
use native.Mathlib.Nat.{mul-le-mul, mul-le-mul_left, pow-le-pow_right, one-le-pow, min-le_right}
use alpha_pos_server.Base.{ℕ, ◌-◌, ◌*◌, ◌^◌, ◌≤◌, ◌<◌, arith, min}
use alpha_pos_server.Base.Settings.{Setting, unset, not_a_number, integer}
use alpha_pos_server.Smartfood.DispatchJobs.{Policy, positive_setting, retry_delay}

positive_setting-pos : (s : Setting) (default : ℕ) → 0 < default → 0 < positive_setting s default
unfolding positive_setting
positive_setting-pos unset default h = omega arith
positive_setting-pos not_a_number default h = h
positive_setting-pos (integer n) default h = omega arith

cap_bounds :
    (c b p r : ℕ)
    → 0 < c
    → 1 ≤ b * p
    → b * p ≤ b * 64
    → b * p ≤ b * r
    → (1 ≤ min c (b * p))
      × (min c (b * p) ≤ c)
      × (min c (b * p) ≤ b * 64)
      × (min c (b * p) ≤ min c (b * r))
cap_bounds c b p r h1 h2 h3 h4 = (omega arith, omega arith, omega arith, omega arith)

-- The delay before a retry is at least a second and at most the configured ceiling (60 seconds
-- where none is set) and 64 times the base, and never shorter after more attempts.
pub retry_delay-bounds :
    (policy : Policy) (m n : ℕ)
    → m ≤ n
    → (1 ≤ retry_delay policy m)
      × (retry_delay policy m ≤ positive_setting policy.retry_max 60)
      × (retry_delay policy m ≤ positive_setting policy.retry_base 5 * 64)
      × (retry_delay policy m ≤ retry_delay policy n)
unfolding retry_delay
retry_delay-bounds policy m n h =
    let base = positive_setting policy.retry_base 5 in
    let power : ℕ → ℕ = λ a. 2 ^ min (a - 1) 6 in
    cap_bounds (positive_setting policy.retry_max 60) base (power m) (power n)
      (positive_setting-pos policy.retry_max 60 (omega arith))
      (mul-le-mul {n₁ = 1} {n₂ = base} (positive_setting-pos policy.retry_base 5 (omega arith))
        (one-le-pow (min (m - 1) 6) 2 (omega arith)))
      (mul-le-mul_left base (pow-le-pow_right {n = 2} (omega arith) (min-le_right (m - 1) 6)))
      (mul-le-mul_left base (pow-le-pow_right {n = 2} (omega arith) (omega arith)))
