-- ===== src/Tests/Peer.antt =====
-- Runs of the endpoint checks and of the signed bytes of peers.
use t_orca.Base.{
  ℕ, zero, suc, ◌+◌, ◌==◌, Bool, ◌≡◌, ◌≢◌, refl, true, false, some, List, [], ◌∷◌, ◌++◌, Text, utf8,
  text_eq, text_lt, trim, to_ascii_lowercase, strip_suffix, codes, ok, arith,
}
use t_orca.Base.Int.{saturating_sub, pos}
use t_orca.Peer.Endpoint.{PeerEndpointBundle, PeerEndpointUpdate}
use t_orca.Peer.Signing.{signing_bytes}
use t_orca.Peer.Validation.{Primitives, is_valid_onion_address, validate, validate_update}
use t_orca.Peer.Created.{
  Identity, Signs, public_key, installation_id, new_endpoint, new_message, validate-new_endpoint,
  verify_message-new_message,
}
use t_orca.Peer.Succession.{IsSuccession, updates-IsSuccession}
use t_orca.Peer.Transcripts.{
  PeerClientHello, PeerMessageEnvelope, ServerPart, IsFramedHello, IsFramedServer, transcript,
  message_signing_bytes, verify_message, handshake_transcript, handshake_transcript-inj,
  signed_apart,
}

repeat : ℕ → ℕ → List ℕ
repeat zero c = []
repeat (suc n) c = c ∷ repeat n c

-- Texts are their own encoding, a key is its own digest, and a signature is checked by its first byte.
abbrev checks_first : Primitives
checks_first = record {
  encode = λ bytes. bytes;
  decode = λ text. some text;
  sha256 = λ bytes. bytes;
  is_key = λ key. true;
  verify = λ key message signature. first_is_s signature;
}
  where
    first_is_s : List ℕ → Bool
    first_is_s [] = false
    first_is_s (c ∷ cs) = c == 115

abbrev an_endpoint : ℕ → PeerEndpointBundle
an_endpoint n = record {
  protocol_version = 1;
  installation_id = repeat 32 107;
  onion_address = repeat 56 97 ++ codes ".onion";
  virtual_port = 443;
  identity_public_key = repeat 32 107;
  capabilities = codes "peer_message_v1" ∷ codes "peer_receipt_v1" ∷ [];
  sequence = n;
  issued_at = pos 1000;
  expires_at = some (pos 1300);
  signature = repeat 64 115;
}

abbrev an_update : ℕ → PeerEndpointUpdate
an_update n = record { previous_sequence = n; endpoint = an_endpoint (n + 1) }

updates-IsSuccession_example :
    IsSuccession checks_first
      (an_endpoint 4)
      ((pos 1000, an_update 4) ∷ (pos 1200, an_update 5) ∷ [])
unfolding validate_update repeat utf8 text_eq text_lt trim to_ascii_lowercase strip_suffix
updates-IsSuccession_example =
    updates-IsSuccession checks_first (an_endpoint 4)
      ((pos 1000, an_update 4) ∷ (pos 1200, an_update 5) ∷ []) (refl, (refl, tt))

abbrev a_hello : PeerClientHello
a_hello = record {
  protocol_version = 1;
  installation_id = codes "client";
  endpoint_sequence = 3;
  capability_id = codes "cap";
  capability_proof = codes "proof";
  nonce = repeat 32 7;
}

abbrev another_hello : PeerClientHello
another_hello = record a_hello { capability_proof = codes "forged" }

abbrev a_server : ServerPart
a_server = record {
  installation_id = codes "server";
  endpoint_sequence = 9;
  nonce = repeat 32 8;
  session_id = repeat 16 1;
  onion_address = codes "a.onion";
}

a_server-IsFramed : IsFramedServer a_server
unfolding utf8 repeat
a_server-IsFramed = record {
  id = omega arith;
  sequence = omega arith;
  nonce = refl;
  session = refl;
  onion = omega arith;
}

hello-IsFramed : (proof : Text) → IsFramedHello (record a_hello { capability_proof = proof })
unfolding utf8 repeat
hello-IsFramed proof = record {
  version = omega arith;
  id = omega arith;
  sequence = omega arith;
  capability = omega arith;
  nonce = refl;
}

handshake_transcript-inj_example :
    (a_hello.protocol_version ≡ another_hello.protocol_version)
    × (utf8 a_hello.installation_id ≡ utf8 another_hello.installation_id)
    × (a_hello.endpoint_sequence ≡ another_hello.endpoint_sequence)
    × (utf8 a_hello.capability_id ≡ utf8 another_hello.capability_id)
    × (a_hello.nonce ≡ another_hello.nonce)
    × (utf8 a_server.installation_id ≡ utf8 a_server.installation_id)
    × (a_server.endpoint_sequence ≡ a_server.endpoint_sequence)
    × (a_server.nonce ≡ a_server.nonce)
    × (a_server.session_id ≡ a_server.session_id)
    × (utf8 a_server.onion_address ≡ utf8 a_server.onion_address)
unfolding handshake_transcript
handshake_transcript-inj_example =
    handshake_transcript-inj a_hello another_hello a_server a_server
      (hello-IsFramed (codes "proof")) (hello-IsFramed (codes "forged")) a_server-IsFramed
      a_server-IsFramed refl

abbrev an_envelope : PeerMessageEnvelope
an_envelope = record {
  protocol_version = 1;
  session_id = repeat 16 1;
  message_id = repeat 16 2;
  conversation_id = codes "c";
  sender_installation_id = codes "client";
  sequence = 1;
  created_at = pos 1000;
  ciphertext = 1 ∷ 2 ∷ [];
  signature = repeat 64 115;
}

signed_apart_example :
    (signing_bytes (an_endpoint 4) ≢ transcript a_hello a_server)
    × (transcript a_hello a_server ≢ message_signing_bytes checks_first an_envelope)
    × (message_signing_bytes checks_first an_envelope ≢ signing_bytes (an_endpoint 4))
signed_apart_example = signed_apart checks_first (an_endpoint 4) a_hello a_server an_envelope

abbrev an_identity : Identity
an_identity = record { verifying_key = repeat 32 107; sign_bytes = λ m. repeat 64 115 }

an_identity-Signs : Signs checks_first an_identity
unfolding repeat
an_identity-Signs = record {
  decodes = λ bytes. refl;
  key_length = refl;
  key = refl;
  signature_length = λ m. refl;
  verifies = λ m. refl;
}

validate-new_endpoint_example :
    validate checks_first
      (new_endpoint checks_first an_identity
        (repeat 56 97 ++ codes ".onion ")
        4
        (pos 1000)
        (some (pos 1300)))
      (pos 900)
    ≡ ok tt
unfolding repeat saturating_sub is_valid_onion_address utf8 text_eq trim to_ascii_lowercase
    strip_suffix
validate-new_endpoint_example =
    validate-new_endpoint checks_first an_identity an_identity-Signs
      (repeat 56 97 ++ codes ".onion ") 4 (pos 1000) (some (pos 1300)) (pos 900) (omega arith) refl
      (ground arith) (ground arith, ground arith)

verify_message-new_message_example :
    verify_message checks_first
      (new_message checks_first an_identity
        (repeat 16 1)
        (repeat 16 2)
        (codes "c")
        1
        (pos 1000)
        (1 ∷ 2 ∷ []))
      (installation_id checks_first an_identity)
      (public_key checks_first an_identity)
    ≡ ok tt
verify_message-new_message_example =
    verify_message-new_message checks_first an_identity an_identity-Signs (repeat 16 1)
      (repeat 16 2) (codes "c") 1 (pos 1000) (1 ∷ 2 ∷ []) (omega arith) refl
