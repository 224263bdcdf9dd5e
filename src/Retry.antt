-- ===== src/Retry.antt =====
-- packages/torchat-runtime/src/retry.rs: when a failed attempt is made again. Times and delays are
-- milliseconds in an `i64`. `retry_jitter_seed`, the standard library's hasher, is a parameter of
-- its users.
pub mod Bounds
use t_orca.Base.{ℕ, ◌+◌, ◌*◌, ◌%◌, ◌^◌, Bool, true, false, Option, none, some, min, unwrap_or}
use t_orca.Base.Int.{ℤ, pos, sub_ℕ, min_ℤ, div_ℤ, saturating_add, saturating_mul}

pub data RetryClass : Type 0 where
  immediate short_backoff network_backoff tor_backoff manual_only permanent_failure : RetryClass

pub record RetryDecision : Type 0 where
  pub retry_at : Option ℤ
  pub terminal : Bool

pub record RetryPolicy : Type 0 where
  pub short_base_ms : ℤ
  pub network_base_ms : ℤ
  pub tor_base_ms : ℤ
  pub maximum_ms : ℤ

-- `RetryPolicy::default()`.
abbrev pub default_policy : RetryPolicy
default_policy = record {
  short_base_ms = pos 1000;
  network_base_ms = pos 2000;
  tor_base_ms = pos 5000;
  maximum_ms = pos (5 * 60 * 1000);
}

unfoldable pub delay : RetryPolicy → ℤ → (attempt jitter_seed : ℕ) → ℤ
unfolding saturating_mul saturating_add
delay policy base_ms attempt jitter_seed =
    let exponent = min attempt 8 in
    let raw = saturating_mul base_ms (pos (2 ^ exponent)) in
    let capped = min_ℤ raw policy.maximum_ms in
    let jitter_percent = sub_ℕ (jitter_seed % 41) 20 in
    saturating_add capped (div_ℤ (saturating_mul capped jitter_percent) 100)

unfoldable pub decide : RetryPolicy → RetryClass → ℤ → (attempt jitter_seed : ℕ) → RetryDecision
unfolding delay saturating_add
decide policy RetryClass.immediate now_ms attempt jitter_seed = record {
  retry_at = some now_ms;
  terminal = false;
}
decide policy RetryClass.short_backoff now_ms attempt jitter_seed = record {
  retry_at = some (saturating_add now_ms (delay policy policy.short_base_ms attempt jitter_seed));
  terminal = false;
}
decide policy RetryClass.network_backoff now_ms attempt jitter_seed = record {
  retry_at = some (saturating_add now_ms (delay policy policy.network_base_ms attempt jitter_seed));
  terminal = false;
}
decide policy RetryClass.tor_backoff now_ms attempt jitter_seed = record {
  retry_at = some (saturating_add now_ms (delay policy policy.tor_base_ms attempt jitter_seed));
  terminal = false;
}
decide policy RetryClass.manual_only now_ms attempt jitter_seed = record {
  retry_at = none;
  terminal = false;
}
decide policy RetryClass.permanent_failure now_ms attempt jitter_seed = record {
  retry_at = none;
  terminal = true;
}

unfoldable pub retry_delay_ms : (attempt jitter_seed : ℕ) → ℤ
unfolding decide
retry_delay_ms attempt jitter_seed =
    unwrap_or
      (decide default_policy RetryClass.network_backoff (pos 0) attempt jitter_seed).retry_at
      (pos 0)
