-- ===== src/Client/Profile.antt =====
-- The commands of `ClientRuntime` on the profile, the start and the reports of the transport:
-- packages/torchat-runtime/src/runtime.rs, runtime/helpers.rs and runtime/lifecycle.rs. The answer of
-- `RuntimeTransport::connect` is an argument.
use t_orca.Base.{
  ℕ, Bool, true, false, ◌||◌, Option, if◌then◌else◌, ltb, length, Text, trim, utf8, codes,
  RuntimeResult, ok, err, ok_or, invalid_params, unavailable,
}
use t_orca.Base.Int.{ℤ}
use t_orca.Client.Events.{
  RuntimeEvent, RuntimeProfile, RuntimeTorStatus, TransportComponent, TransportProbeState,
  from_identity,
}
use t_orca.Client.Session.{
  mark_bootstrap_emitted, publish_tor_status, publish_runtime_error, publish_runtime_log,
}
use t_orca.Client.Storage.{RuntimeStorage}
use t_orca.Client.Action.{
  Action, pure, lift, query, store, session_of, on_session, publish, choose, ◌>>=◌, ◌>>◌,
}

-- The length in bytes is at least 2, the length in characters at most 32.
unfoldable pub validate_nickname : Text → RuntimeResult Text
validate_nickname nickname =
    if ltb (length (utf8 (trim nickname))) 2 || ltb 32 (length (trim nickname))
    then err (invalid_params (codes "nickname must contain 2-32 characters"))
    else ok (trim nickname)

-- `torchat_core::PROTOCOL_VERSION`.
abbrev pub protocol_version : ℕ
protocol_version = 1

module _ {S : Type 0} (storage : RuntimeStorage S) where
  unfoldable pub commit_nickname : Text → Action S RuntimeProfile
  unfolding validate_nickname from_identity
  commit_nickname nickname = do
    valid ← lift (validate_nickname nickname)
    stored ← query storage.identity
    identity ← lift (ok_or stored (unavailable (codes "runtime identity is not ready")))
    let profile = from_identity identity valid
    store (storage.put_profile profile)
    publish (RuntimeEvent.profile_ready profile)
    pure profile

  unfoldable pub apply_remote_profile : RuntimeProfile → Action S RuntimeProfile
  apply_remote_profile profile = do
    store (storage.put_profile profile)
    publish (RuntimeEvent.profile_ready profile)
    pure profile

  unfoldable pub bootstrap_runtime : Action S Bool
  unfolding mark_bootstrap_emitted
  bootstrap_runtime = do
    first ← session_of (λ s. (mark_bootstrap_emitted s).0)
    on_session (λ s. (mark_bootstrap_emitted s).1)
    if first
        then (do
          publish (RuntimeEvent.runtime_ready protocol_version)
          profile ← query storage.profile
          choose profile (pure tt) (λ profile. publish (RuntimeEvent.profile_ready profile))
          pure true)
        else pure false

  unfoldable pub report_tor_status : RuntimeTorStatus → Action S Unit
  unfolding publish_tor_status
  report_tor_status status = on_session (publish_tor_status status)

  unfoldable pub report_transport_status :
      TransportComponent
      → TransportProbeState
      → (detail : Text) → (progress : Option ℤ) → (latency_ms : Option ℕ) → (retry_attempt : ℕ)
      → (retry_in_ms : Option ℕ) → (generation : ℕ) → (endpoint : Option Text) → (updated_at : ℤ)
      → Action S Unit
  report_transport_status component state detail progress latency attempt retry generation endpoint
        updated_at =
      publish (
        RuntimeEvent.transport_status_changed component state detail progress latency attempt retry
          generation endpoint updated_at)

  unfoldable pub report_runtime_error : Text → Action S Unit
  unfolding publish_runtime_error
  report_runtime_error message = on_session (publish_runtime_error message)

  unfoldable pub report_runtime_log : Text → Action S Unit
  unfolding publish_runtime_log
  report_runtime_log message = on_session (publish_runtime_log message)

  unfoldable pub connect : RuntimeResult RuntimeTorStatus → Action S Bool
  unfolding report_tor_status
  connect answer = do status ← lift answer; report_tor_status status; pure true
