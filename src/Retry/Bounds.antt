-- ===== src/Retry/Bounds.antt =====
-- How long packages/torchat-runtime/src/retry.rs waits: the jitter stays within a fifth of the
-- capped delay, and the default policy never reaches a limit of the machine.
use native.Mathlib.Nat.{mul-le-mul_left, pow-le-pow_right}
use t_orca.Base.{
  zero, suc, none, leb, Bool-cases, inl, inr, ℕ, ◌+◌, ◌-◌, ◌*◌, ◌/◌, ◌%◌, ◌^◌, ◌≤◌, ◌<◌, ◌≡◌, refl,
  false, Option, some, min, arith,
}
use t_orca.Base.Int.{
  ℤ, pos, negsuc, sub_ℕ, min_ℤ, minus, div_ℤ, saturate, saturating_add, saturating_mul,
}
use t_orca.Retry.{RetryClass, default_policy, delay, decide}

-- The delay before the jitter, where no limit of the machine is near.
abbrev pub backoff : (base attempt : ℕ) → ℕ
backoff base attempt = min (base * 2 ^ min attempt 8) 300000

abbrev saturated : ℕ → ℤ → ℤ
saturated c j = saturating_add (pos c) (div_ℤ (saturating_mul (pos c) j) 100)

jitter_up : (c m : ℕ) → c ≤ 300000 → m ≤ 20 → saturated c (pos m) ≡ pos (c + c * m / 100)
unfolding saturating_add saturating_mul saturate
jitter_up c m h k = ground (arith, mul-le-mul_left c k)

jitter_down : (c m : ℕ) → c ≤ 300000 → m ≤ 20 → saturated c (minus m) ≡ pos (c - c * m / 100)
unfolding saturating_add saturating_mul saturate
jitter_down c zero h k = ground arith
jitter_down c (suc m) h k = ground (arith, mul-le-mul_left c k)

minus_pos : (n : ℕ) → 0 < n → negsuc (n - 1) ≡ minus n
minus_pos zero h = ground arith
minus_pos (suc n) h = ground arith

minus_lem : (j : ℕ) → leb 20 j ≡ false → negsuc (20 - j - 1) ≡ minus (20 - j)
minus_lem j h = minus_pos (20 - j) (ground arith)

-- A jitter of at most 20 percent, either way.
jitter_lem :
    (c seed : ℕ)
    → c ≤ 300000
    → (n : ℕ) × (saturated c (sub_ℕ (seed % 41) 20) ≡ pos n) × (4 * c ≤ 5 * n) × (5 * n ≤ 6 * c)
jitter_lem c seed h = elim (Bool-cases (leb 20 (seed % 41))) [
  | inl up ↦
      let m = seed % 41 - 20 in
      let k : m ≤ 20 = omega arith in
      let small = mul-le-mul_left c k in
      (c + c * m / 100, rw up (jitter_up c m h k), omega arith, omega arith)
  | inr down ↦
      let m = 20 - seed % 41 in
      let k : m ≤ 20 = omega arith in
      let small = mul-le-mul_left c k in
      (
        c - c * m / 100,
        rw (down, minus_lem (seed % 41) down) (jitter_down c m h k),
        omega arith,
        omega arith,
      )
]

-- The base of a class that waits, in the default policy.
abbrev pub base_of : RetryClass → Option ℕ
base_of RetryClass.short_backoff = some 1000
base_of RetryClass.network_backoff = some 2000
base_of RetryClass.tor_backoff = some 5000
base_of _ = none

capped_lem :
    (base attempt : ℕ)
    → base ≤ 5000
    → min_ℤ (saturating_mul (pos base) (pos (2 ^ min attempt 8))) (pos 300000)
      ≡ pos (backoff base attempt)
unfolding saturating_mul saturate
capped_lem base attempt h =
    let few : min attempt 8 ≤ 8 = omega arith in
    let p : 2 ^ min attempt 8 ≤ 256 = pow-le-pow_right (omega arith) few in
    let small = mul-le-mul_left base p in ground arith

delay_lem :
    (base attempt seed : ℕ)
    → base ≤ 5000
    → (n : ℕ) × (delay default_policy (pos base) attempt seed ≡ pos n)
      × (4 * backoff base attempt ≤ 5 * n)
      × (5 * n ≤ 6 * backoff base attempt)
unfolding delay
delay_lem base attempt seed h =
    rw (capped_lem base attempt h) (jitter_lem (backoff base attempt) seed (ground arith))

wait_lem :
    (base now attempt seed : ℕ)
    → base ≤ 5000
    → now < 2 ^ 62
    → (n : ℕ) × (saturating_add (pos now) (delay default_policy (pos base) attempt seed)
        ≡ pos (now + n))
      × (4 * backoff base attempt ≤ 5 * n)
      × (5 * n ≤ 6 * backoff base attempt)
unfolding saturating_add saturate
wait_lem base now attempt seed h k =
    let (n, e, low, high) = delay_lem base attempt seed h in (n, rw e (ground arith), low, high)

-- Under the default policy a class that waits is tried again after its base delay, doubled for each
-- attempt up to the eighth and never above five minutes, changed by at most a fifth; the sum with
-- the time of the clock is exact as long as the clock is below 2⁶² milliseconds.
pub decide_lem :
    (c : RetryClass) (base now attempt seed : ℕ)
    → base_of c ≡ some base
    → now < 2 ^ 62
    → (n : ℕ) × (decide default_policy c (pos now) attempt seed
        ≡ record { retry_at = some (pos (now + n)); terminal = false })
      × (4 * backoff base attempt ≤ 5 * n)
      × (5 * n ≤ 6 * backoff base attempt)
unfolding decide
decide_lem RetryClass.immediate base now attempt seed e h = absurd (ground arith)
decide_lem RetryClass.short_backoff base now attempt seed e h =
    let (n, sum, low, high) = wait_lem 1000 now attempt seed (omega arith) h in
    (n, rw sum refl, ground arith, ground arith)
decide_lem RetryClass.network_backoff base now attempt seed e h =
    let (n, sum, low, high) = wait_lem 2000 now attempt seed (omega arith) h in
    (n, rw sum refl, ground arith, ground arith)
decide_lem RetryClass.tor_backoff base now attempt seed e h =
    let (n, sum, low, high) = wait_lem 5000 now attempt seed (omega arith) h in
    (n, rw sum refl, ground arith, ground arith)
decide_lem RetryClass.manual_only base now attempt seed e h = absurd (ground arith)
decide_lem RetryClass.permanent_failure base now attempt seed e h = absurd (ground arith)
