-- ===== src/Apply/Unattended/Delay.antt =====
-- The delay before a step is tried again.
use regied.Prelude.{ℕ, zero, suc, ◌-◌, ◌*◌, ◌^◌, ◌≤◌, min, arith}
use regied.Apply.Unattended.{second, backoff}

pow_mono : (m n : ℕ) → m ≤ n → 2 ^ m ≤ 2 ^ n
pow_mono zero zero h = omega arith
pow_mono zero (suc n) h = let ih = pow_mono zero n (omega arith) in omega (arith, ih)
pow_mono (suc m) zero h = omega (arith, h)
pow_mono (suc m) (suc n) h = let ih = pow_mono m n (omega (arith, h)) in omega (arith, ih)

min_mono : (m n : ℕ) → m ≤ n → min (m - 1) 8 ≤ min (n - 1) 8
min_mono m n h = omega (arith, h)

-- The delay is at least a second and at most 256 seconds, and no shorter after a later attempt.
pub backoff_grows :
    (m n : ℕ) → m ≤ n → (second ≤ backoff m) × (backoff m ≤ backoff n) × (backoff n ≤ 256 * second)
unfolding backoff
backoff_grows m n h =
    let a = pow_mono 0 (min (m - 1) 8) (omega arith) in
    let b = pow_mono (min (m - 1) 8) (min (n - 1) 8) (min_mono m n h) in
    let c = pow_mono (min (n - 1) 8) 8 (omega arith) in ground (arith, a, b, c)
