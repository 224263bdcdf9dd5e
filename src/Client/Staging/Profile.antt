-- ===== src/Client/Staging/Profile.antt =====
-- The commands of Client/Profile are staged: what they tell is kept back by an open transaction.
use t_orca.Base.{ℕ, Text, Option, RuntimeResult}
use t_orca.Base.Int.{ℤ}
use t_orca.Client.Events.{RuntimeProfile, RuntimeTorStatus, TransportComponent, TransportProbeState}
use t_orca.Client.Storage.{RuntimeStorage}
use t_orca.Client.Staging.{Staged, staged_rules}
use t_orca.Client.Profile.{
  commit_nickname, apply_remote_profile, bootstrap_runtime, report_tor_status,
  report_transport_status, report_runtime_error, report_runtime_log, connect,
}

module _ {S : Type 0} (storage : RuntimeStorage S) where
  pub commit_nickname-Staged : (nickname : Text) → Staged (commit_nickname storage nickname)
  unfolding commit_nickname
  commit_nickname-Staged nickname = search staged_rules depth 40

  pub apply_remote_profile-Staged :
      (profile : RuntimeProfile) → Staged (apply_remote_profile storage profile)
  unfolding apply_remote_profile
  apply_remote_profile-Staged profile = search staged_rules depth 40

  pub bootstrap_runtime-Staged : Staged (bootstrap_runtime storage)
  unfolding bootstrap_runtime
  bootstrap_runtime-Staged = search staged_rules depth 40

  pub report_tor_status-Staged :
      (status : RuntimeTorStatus) → Staged (report_tor_status storage status)
  unfolding report_tor_status
  report_tor_status-Staged status = search staged_rules depth 40

  pub report_transport_status-Staged :
      (component : TransportComponent) (state : TransportProbeState) (detail : Text)
      (progress : Option ℤ) (latency_ms : Option ℕ) (retry_attempt : ℕ) (retry_in_ms : Option ℕ)
      (generation : ℕ) (endpoint : Option Text) (updated_at : ℤ)
      → Staged (
          report_transport_status storage component state detail progress latency_ms retry_attempt
            retry_in_ms generation endpoint updated_at)
  unfolding report_transport_status
  report_transport_status-Staged component state detail progress latency_ms retry_attempt
        retry_in_ms generation endpoint updated_at =
      search staged_rules depth 40

  pub report_runtime_error-Staged : (message : Text) → Staged (report_runtime_error storage message)
  unfolding report_runtime_error
  report_runtime_error-Staged message = search staged_rules depth 40

  pub report_runtime_log-Staged : (message : Text) → Staged (report_runtime_log storage message)
  unfolding report_runtime_log
  report_runtime_log-Staged message = search staged_rules depth 40

  pub connect-Staged : (answer : RuntimeResult RuntimeTorStatus) → Staged (connect storage answer)
  unfolding connect
  connect-Staged answer = search staged_rules depth 40
