-- ===== src/Peer/Created.antt =====
-- What an identity signs is accepted: `PeerEndpointBundle::new` and `PeerMessageEnvelope::new` of
-- common/torchat-core/src/peer_protocol.rs, with the methods of `Identity` in
-- common/torchat-core/src/lib.rs.
use t_orca.Base.{
  ℕ, ◌==◌, ◌≡◌, ◌<◌, refl, true, false, Option, some, List, [], ◌∷◌, length, is_empty, Text,
  text_eq, text_eq_refl, text_lt, utf8, ap, not, ◌||◌, trim, to_ascii_lowercase, codes, ok, arith,
}
use t_orca.Base.Int.{ℤ, pos, saturating_sub, ◌≤ℤ◌}
use t_orca.Peer.Endpoint.{PeerEndpointBundle}
use t_orca.Peer.Signing.{signing_bytes}
use t_orca.Peer.Validation.{
  Primitives, protocol_version, peer_virtual_port, is_valid_onion_address, check_capabilities,
  decode_public_key, installation_id_from_public_key, verify_signature, validate,
}
use t_orca.Peer.Acceptance.{IsCurrent, IsAccepted, IsAccepted-validate, pass, both}
use t_orca.Peer.Transcripts.{PeerMessageEnvelope, message_signing_bytes, verify_message}

two_capabilities :
    check_capabilities (codes "peer_message_v1" ∷ codes "peer_receipt_v1" ∷ []) ≡ ok tt
unfolding check_capabilities text_lt text_eq trim utf8
two_capabilities = refl

-- `Identity` is a signing key: its public part and what it signs.
pub record Identity : Type 0 where
  pub verifying_key : List ℕ
  pub sign_bytes : List ℕ → List ℕ

module _ (primitives : Primitives) where
  open primitives use {encode, decode, sha256, is_key, verify}

  unfoldable pub public_key : Identity → Text
  public_key identity = encode identity.verifying_key

  unfoldable pub installation_id : Identity → Text
  installation_id identity = encode (sha256 identity.verifying_key)

  unfoldable pub sign : Identity → List ℕ → Text
  sign identity message = encode (identity.sign_bytes message)

  -- `PeerEndpointBundle::new`.
  unfoldable pub new_endpoint : Identity → Text → ℕ → ℤ → Option ℤ → PeerEndpointBundle
  unfolding public_key installation_id sign signing_bytes trim to_ascii_lowercase
  new_endpoint identity onion_address sequence issued_at expires_at =
      let endpoint : PeerEndpointBundle = record {
        protocol_version = protocol_version;
        installation_id = installation_id identity;
        onion_address = to_ascii_lowercase (trim onion_address);
        virtual_port = peer_virtual_port;
        identity_public_key = public_key identity;
        capabilities = codes "peer_message_v1" ∷ codes "peer_receipt_v1" ∷ [];
        sequence = sequence;
        issued_at = issued_at;
        expires_at = expires_at;
        signature = [];
      } in
      record endpoint { signature = sign identity (signing_bytes endpoint) }

  -- `PeerMessageEnvelope::new`.
  unfoldable pub new_message :
      Identity → (session_id message_id : List ℕ) → Text → ℕ → ℤ → List ℕ → PeerMessageEnvelope
  unfolding installation_id sign message_signing_bytes
  new_message identity session_id message_id conversation_id sequence created_at ciphertext =
      let envelope : PeerMessageEnvelope = record {
        protocol_version = protocol_version;
        session_id = session_id;
        message_id = message_id;
        conversation_id = conversation_id;
        sender_installation_id = installation_id identity;
        sequence = sequence;
        created_at = created_at;
        ciphertext = ciphertext;
        signature = [];
      } in
      record envelope { signature = sign identity (message_signing_bytes primitives envelope) }

  -- Base64 is decoded to what was encoded, and Ed25519 verifies what the identity signs.
  pub record Signs (identity : Identity) : Type 0 where
    pub decodes : (bytes : List ℕ) → decode (encode bytes) ≡ some bytes
    pub key_length : length identity.verifying_key ≡ 32
    pub key : is_key identity.verifying_key ≡ true
    pub signature_length : (m : List ℕ) → length (identity.sign_bytes m) ≡ 64
    pub verifies : (m : List ℕ) → verify identity.verifying_key m (identity.sign_bytes m) ≡ true

  module _ (identity : Identity) (signs : Signs identity) where
    verify_signature-sign :
        (m : List ℕ) → verify_signature primitives (public_key identity) m (sign identity m) ≡ true
    unfolding public_key sign verify_signature
    verify_signature-sign m =
        rw (signs.decodes identity.verifying_key, verify_signature)
          (rw (signs.decodes (identity.sign_bytes m)) (
            rw (signs.key_length)
              (rw (signs.signature_length m) (rw (signs.key) (signs.verifies m)))))

    decode_public_key-public_key :
        decode_public_key primitives (public_key identity) ≡ ok identity.verifying_key
    unfolding decode_public_key public_key
    decode_public_key-public_key =
        rw (signs.decodes identity.verifying_key) (rw (signs.key_length) refl)

    new_endpoint-IsAccepted :
        (onion_address : Text) (sequence : ℕ) (issued_at : ℤ) (expires_at : Option ℤ) (now : ℤ)
        → 0 < sequence
        → is_valid_onion_address (to_ascii_lowercase (trim onion_address)) ≡ true
        → saturating_sub issued_at now ≤ℤ pos 600
        → IsCurrent expires_at now
        → IsAccepted primitives
            (new_endpoint identity onion_address sequence issued_at expires_at)
            now
    unfolding new_endpoint installation_id_from_public_key
    new_endpoint-IsAccepted onion_address sequence issued_at expires_at now numbered onion issued
          current =
        record {
          version = refl;
          numbered = numbered;
          port = refl;
          issued = issued;
          onion = onion;
          current = current;
          capable = two_capabilities;
          genuine = record {
            key = identity.verifying_key;
            decoded = decode_public_key-public_key;
            bound = refl;
            signed = verify_signature-sign _;
          };
        }

    -- An endpoint that an identity makes is accepted by every peer, if it is numbered from one, its
    -- address is an onion address, and the peer's clock is so near that it is neither ended nor from
    -- the future.
    pub validate-new_endpoint :
        (onion_address : Text) (sequence : ℕ) (issued_at : ℤ) (expires_at : Option ℤ) (now : ℤ)
        → 0 < sequence
        → is_valid_onion_address (to_ascii_lowercase (trim onion_address)) ≡ true
        → saturating_sub issued_at now ≤ℤ pos 600
        → IsCurrent expires_at now
        → validate primitives
            (new_endpoint identity onion_address sequence issued_at expires_at)
            now
          ≡ ok tt
    validate-new_endpoint onion_address sequence issued_at expires_at now numbered onion issued
          current =
        IsAccepted-validate primitives
          (new_endpoint identity onion_address sequence issued_at expires_at) now
          (new_endpoint-IsAccepted onion_address sequence issued_at expires_at now numbered onion
            issued current)

    -- A message that an identity makes is verified by the peer that knows the identity, if it is
    -- numbered from one and not empty.
    pub verify_message-new_message :
        (session_id message_id : List ℕ) (conversation_id : Text) (sequence : ℕ) (created_at : ℤ)
        (ciphertext : List ℕ)
        → 0 < sequence
        → is_empty ciphertext ≡ false
        → verify_message primitives
            (new_message identity session_id message_id conversation_id sequence created_at
              ciphertext)
            (installation_id identity)
            (public_key identity)
          ≡ ok tt
    unfolding verify_message new_message
    verify_message-new_message session_id message_id conversation_id sequence created_at ciphertext
          numbered full =
        both _ _
          (both _ _ (both _ _ refl (pass (not (text_eq id id)) _ (ap not (text_eq_refl id))))
            (pass ((sequence == 0) || is_empty ciphertext) _ (ground arith)))
          (pass (not (verify_signature primitives (public_key identity) _ _)) _
            (ap not (verify_signature-sign _)))
      where
        id : Text
        id = installation_id identity
