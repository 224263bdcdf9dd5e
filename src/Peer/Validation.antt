-- ===== src/Peer/Validation.antt =====
-- When an endpoint of a peer is accepted: `PeerEndpointBundle::validate`, `validate_successor` and
-- `PeerEndpointUpdate::validate` of common/torchat-core/src/peer_protocol.rs, with
-- `is_valid_onion_address` and `verify_signature` of common/torchat-core/src/lib.rs.
use t_orca.Base.{
  ℕ, ◌==◌, leb, Bool, false, not, ◌&&◌, ◌||◌, Option, none, some, List, [], length, any, all,
  is_empty, is_some_and, if◌then◌else◌, Text, text_eq, utf8, trim, to_ascii_lowercase, strip_suffix,
  codes, Result, ok, err, ok_or, reject_if, ◌>>=◌, ◌>>◌,
}
use t_orca.Base.Int.{ℤ, pos, ltb_ℤ, saturating_sub}
use t_orca.Changes.{set_extend}
use t_orca.Peer.Endpoint.{PeerEndpointBundle, PeerEndpointUpdate}
use t_orca.Peer.Signing.{signing_bytes}

-- URL-safe base64, SHA-256 and Ed25519: `is_key` says which 32 bytes are a key.
pub record Primitives : Type 0 where
  pub encode : List ℕ → Text
  pub decode : Text → Option (List ℕ)
  pub sha256 : List ℕ → List ℕ
  pub is_key : List ℕ → Bool
  pub verify : (key message signature : List ℕ) → Bool

-- `Result<(), String>`.
abbrev pub Checked : Type 0
Checked = Result Text (Unit {0})

abbrev pub protocol_version : ℕ
protocol_version = 1

abbrev pub peer_virtual_port : ℕ
peer_virtual_port = 443

abbrev pub max_endpoint_clock_skew_secs : ℤ
max_endpoint_clock_skew_secs = pos 600

unfoldable pub is_base32 : ℕ → Bool
is_base32 byte = leb b'a' byte && leb byte b'z' || leb b'2' byte && leb byte b'7'

unfoldable pub is_valid_onion_address : Text → Bool
unfolding trim to_ascii_lowercase strip_suffix utf8 is_base32
is_valid_onion_address value =
    is_some_and (λ host. (length (utf8 host) == 56) && all is_base32 (utf8 host))
      (strip_suffix (codes ".onion") (to_ascii_lowercase (trim value)))

-- `capability.trim().is_empty() || capability.len() > 64`.
unfoldable pub is_bad_capability : Text → Bool
unfolding trim utf8
is_bad_capability capability = is_empty (trim capability) || not (leb (length (utf8 capability)) 64)

unfoldable pub check_expiry : Option ℤ → ℤ → Checked
unfolding saturating_sub
check_expiry none now = ok tt
check_expiry (some expires_at) now =
    reject_if (ltb_ℤ expires_at now) (codes "peer endpoint has expired")
    >> reject_if (ltb_ℤ max_endpoint_clock_skew_secs (saturating_sub expires_at now))
        (codes "peer endpoint expiry exceeds clock skew bound")

unfoldable pub check_capabilities : List Text → Checked
unfolding is_bad_capability set_extend
check_capabilities capabilities =
    reject_if (is_empty capabilities || any is_bad_capability capabilities)
      (codes "invalid peer endpoint capabilities")
    >> reject_if (not (length (set_extend [] capabilities) == length capabilities))
        (codes "duplicate peer endpoint capability")

module _ (primitives : Primitives) where
  open primitives use {encode, decode, sha256, is_key, verify}

  unfoldable pub decode_public_key : Text → Result Text (List ℕ)
  decode_public_key value =
      ok_or (decode value) (codes "invalid endpoint identity public key") >>= λ key.
      if length key == 32 then ok key else err (codes "invalid endpoint identity public key length")

  unfoldable pub installation_id_from_public_key : List ℕ → Text
  installation_id_from_public_key key = encode (sha256 key)

  unfoldable pub verify_signature : Text → List ℕ → Text → Bool
  verify_signature public_key message signature = elim (decode public_key) [
    | none ↦ false
    | some key ↦ elim (decode signature) [
      | none ↦ false
      | some bytes ↦
          (length key == 32) && (length bytes == 64) && is_key key && verify key message bytes
    ]
  ]

  -- The identity of the endpoint is that of the key, and the key has signed it.
  unfoldable pub check_identity : PeerEndpointBundle → Checked
  unfolding decode_public_key installation_id_from_public_key verify_signature signing_bytes
  check_identity e = decode_public_key e.identity_public_key >>= λ key.
      reject_if (not (text_eq (installation_id_from_public_key key) e.installation_id))
        (codes "peer endpoint installation ID does not match identity key")
      >> reject_if (not (verify_signature e.identity_public_key (signing_bytes e) e.signature))
          (codes "peer endpoint signature is invalid")

  unfoldable pub validate : PeerEndpointBundle → ℤ → Checked
  unfolding saturating_sub is_valid_onion_address check_expiry check_capabilities check_identity
  validate e now =
      reject_if (not (e.protocol_version == protocol_version))
        (codes "unsupported peer endpoint protocol version")
      >> reject_if (e.sequence == 0) (codes "peer endpoint sequence must be positive")
      >> reject_if (not (e.virtual_port == peer_virtual_port))
          (codes "unsupported peer endpoint virtual port")
      >> reject_if (ltb_ℤ max_endpoint_clock_skew_secs (saturating_sub e.issued_at now))
          (codes "peer endpoint issued-at exceeds clock skew bound")
      >> reject_if (not (is_valid_onion_address e.onion_address))
          (codes "invalid Tor v3 peer endpoint")
      >> check_expiry e.expires_at now
      >> check_capabilities e.capabilities
      >> check_identity e

  unfoldable pub validate_successor : PeerEndpointBundle → PeerEndpointBundle → ℤ → Checked
  unfolding validate
  validate_successor e previous now =
      validate e now
      >> reject_if
          (not (text_eq e.installation_id previous.installation_id)
            || not (text_eq e.identity_public_key previous.identity_public_key))
          (codes "peer endpoint update changed contact identity")
      >> reject_if (leb e.sequence previous.sequence)
          (codes "peer endpoint sequence did not advance")

  -- `PeerEndpointUpdate::validate`.
  unfoldable pub validate_update : PeerEndpointUpdate → PeerEndpointBundle → ℤ → Checked
  unfolding validate_successor
  validate_update update previous now =
      reject_if (not (update.previous_sequence == previous.sequence))
        (codes "peer endpoint update does not reference current sequence")
      >> validate_successor update.endpoint previous now
