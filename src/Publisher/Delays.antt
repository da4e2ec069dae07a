-- ===== src/Publisher/Delays.antt =====
-- How long the publisher waits after failed flushes.
use mathlib.Core.Path.{subst}
use native.Mathlib.Nat.{mul-le-mul_left, mul-le-mul_right, le_trans}
use overgent.Prelude.{ℕ, zero, suc, ◌+◌, ◌-◌, ◌*◌, ◌/◌, ◌%◌, ◌≤◌, min, ◌≡◌, none, some, arith}
use overgent.Publisher.Failures.{double_delay, longest_delay, first_delay, retry_delay}

double_delay_ge : (n base : ℕ) → base ≤ double_delay n base
unfolding double_delay
double_delay_ge zero base = omega arith
double_delay_ge (suc n) base = ground (arith, double_delay_ge n (base * 2), double_delay_ge n base)

double_delay_mono :
    (m n base : ℕ)
    → m ≤ n
    → min (double_delay m base) longest_delay ≤ min (double_delay n base) longest_delay
unfolding double_delay
double_delay_mono zero n base h = omega (arith, double_delay_ge n base)
double_delay_mono (suc m) zero base h = absurd (omega arith)
double_delay_mono (suc m) (suc n) base h = ground (
  arith,
  double_delay_mono m n (base * 2) (omega arith),
  double_delay_mono m n base (omega arith),
)

settles :
    (k : ℕ)
    → min (double_delay (suc (suc (suc (suc (suc (suc k)))))) first_delay) longest_delay
      ≡ longest_delay
unfolding double_delay
settles k = omega (arith, double_delay_ge k 32000000000)

jittered :
    (base r : ℕ)
    → first_delay ≤ base
    → base ≤ longest_delay
    → (400000000 ≤ base * (800 + r % 401) / 1000) × (base * (800 + r % 401) / 1000 ≤ 36000000000)
jittered base r lo hi =
    let x : ℕ = 800 + r % 401 in
    let up : base * x ≤ longest_delay * 1200 =
      le_trans (mul-le-mul_right x hi) (mul-le-mul_left {n = 1200} longest_delay (omega arith)) in
    let down : first_delay * 800 ≤ base * x =
      le_trans (mul-le-mul_left {m = 800} first_delay (omega arith)) (mul-le-mul_right x lo) in
    (omega arith, omega arith)

settled_from :
    (n : ℕ) → 7 ≤ n → min (double_delay (n - 1) first_delay) longest_delay ≡ longest_delay
settled_from n h =
    let same : suc (suc (suc (suc (suc (suc (n - 7)))))) ≡ n - 1 = omega arith in
    subst (λ m. min (double_delay m first_delay) longest_delay ≡ longest_delay) same
      (settles (n - 7))

-- However many flushes failed and whatever random bytes come, the delay is between 0.4 and 36
-- seconds; without jitter it never falls from one failure to the next, and is 30 seconds from the
-- seventh on.
pub retry_delay_bounds :
    (failures more r : ℕ)
    → (400000000 ≤ retry_delay failures (some r))
      × (retry_delay failures (some r) ≤ 36000000000)
      × (failures ≤ more → retry_delay failures none ≤ retry_delay more none)
      × (7 ≤ failures → retry_delay failures none ≡ longest_delay)
unfolding retry_delay
retry_delay_bounds failures more r =
    let bounds =
      jittered (min (double_delay (failures - 1) first_delay) longest_delay) r
        (omega (arith, double_delay_ge (failures - 1) first_delay)) (omega arith) in
    (
      ground (arith, bounds),
      ground (arith, bounds),
      λ h. ground (
        arith,
        double_delay_mono (failures - 1) (more - 1) first_delay (omega arith),
        double_delay_ge (more - 1) first_delay,
      ),
      λ h. ground (arith, settled_from failures h),
    )
