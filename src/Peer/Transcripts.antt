-- ===== src/Peer/Transcripts.antt =====
-- The other bytes that peers sign (common/torchat-core/src/peer_protocol.rs): the transcript of a
-- handshake and a message envelope. A UUID and a nonce are their bytes, and `sha256` is the digest.
use t_orca.Base.{
  ℕ, ◌<◌, ◌^◌, ◌==◌, ◌≡◌, ◌≢◌, false, refl, ap, List, [], ◌++◌, length, is_empty, not, ◌||◌, Text,
  text_eq, utf8, codes, reject_if, ◌>>◌, arith,
}
use t_orca.Base.Int.{ℤ}
use t_orca.Peer.Endpoint.{PeerEndpointBundle}
use t_orca.Peer.Signing.{
  be_bytes, i64_bits, push_bytes, push_str, signing_bytes, IsShort, be_bytes-split,
  push_bytes-split, append-split,
}
use t_orca.Peer.Validation.{Primitives, Checked, protocol_version, verify_signature}

pub record PeerClientHello : Type 0 where
  pub protocol_version : ℕ
  pub installation_id : Text
  pub endpoint_sequence : ℕ
  pub capability_id : Text
  pub capability_proof : Text
  pub nonce : List ℕ

unfoldable pub handshake_transcript : PeerClientHello → Text → ℕ → List ℕ → List ℕ → Text → List ℕ
unfolding push_bytes push_str be_bytes
handshake_transcript client server_installation_id server_endpoint_sequence server_nonce session_id
      onion_address =
    push_bytes (utf8 (codes "torchat-peer-handshake-v1"))
    ++ (be_bytes 2 client.protocol_version
        ++ (push_str client.installation_id
            ++ (be_bytes 8 client.endpoint_sequence
                ++ (push_str client.capability_id
                    ++ (push_bytes client.nonce
                        ++ (push_str server_installation_id
                            ++ (be_bytes 8 server_endpoint_sequence
                                ++ (push_bytes server_nonce
                                    ++ (push_bytes session_id ++ push_str onion_address)))))))))

pub record PeerMessageEnvelope : Type 0 where
  pub protocol_version : ℕ
  pub session_id : List ℕ
  pub message_id : List ℕ
  pub conversation_id : Text
  pub sender_installation_id : Text
  pub sequence : ℕ
  pub created_at : ℤ
  pub ciphertext : List ℕ
  pub signature : Text

module _ (primitives : Primitives) where
  open primitives use {sha256}

  -- `PeerMessageEnvelope::signing_bytes`.
  unfoldable pub message_signing_bytes : PeerMessageEnvelope → List ℕ
  unfolding push_bytes push_str be_bytes i64_bits
  message_signing_bytes m =
      push_bytes (utf8 (codes "torchat-peer-message-v1"))
      ++ (be_bytes 2 m.protocol_version
          ++ (push_bytes m.session_id
              ++ (push_bytes m.message_id
                  ++ (push_str m.conversation_id
                      ++ (push_str m.sender_installation_id
                          ++ (be_bytes 8 m.sequence
                              ++ (be_bytes 8 (i64_bits m.created_at)
                                  ++ push_bytes (sha256 m.ciphertext))))))))

  -- `PeerMessageEnvelope::verify`.
  unfoldable pub verify_message : PeerMessageEnvelope → Text → Text → Checked
  unfolding message_signing_bytes verify_signature
  verify_message m expected_sender public_key =
      reject_if (not (m.protocol_version == protocol_version))
        (codes "unsupported peer message protocol version")
      >> reject_if (not (text_eq m.sender_installation_id expected_sender))
          (codes "peer message sender does not match authenticated session")
      >> reject_if (m.sequence == 0 || is_empty m.ciphertext)
          (codes "invalid peer message envelope")
      >> reject_if
          (not (verify_signature primitives public_key (message_signing_bytes m) m.signature))
          (codes "peer message signature is invalid")

-- The fields fit the widths that frame them.
pub record IsFramedHello (h : PeerClientHello) : Type 0 where
  pub version : h.protocol_version < 2 ^ 16
  pub id : IsShort h.installation_id
  pub sequence : h.endpoint_sequence < 2 ^ 64
  pub capability : IsShort h.capability_id
  pub nonce : length h.nonce ≡ 32

-- What the server adds to the transcript.
pub record ServerPart : Type 0 where
  pub installation_id : Text
  pub endpoint_sequence : ℕ
  pub nonce : List ℕ
  pub session_id : List ℕ
  pub onion_address : Text

pub record IsFramedServer (s : ServerPart) : Type 0 where
  pub id : IsShort s.installation_id
  pub sequence : s.endpoint_sequence < 2 ^ 64
  pub nonce : length s.nonce ≡ 32
  pub session : length s.session_id ≡ 16
  pub onion : IsShort s.onion_address

abbrev pub transcript : PeerClientHello → ServerPart → List ℕ
transcript h s =
    handshake_transcript h s.installation_id s.endpoint_sequence s.nonce s.session_id
      s.onion_address

-- Two handshakes whose fields fit the framing and whose transcripts are the same are the same
-- handshake: both sides' ids, endpoint numbers and nonces, the capability, the session and the onion
-- address agree. Only the proof of the capability is not in the transcript.
pub handshake_transcript-inj :
    (h k : PeerClientHello) (s t : ServerPart)
    → IsFramedHello h
    → IsFramedHello k
    → IsFramedServer s
    → IsFramedServer t
    → transcript h s ≡ transcript k t
    → (h.protocol_version ≡ k.protocol_version)
      × (utf8 h.installation_id ≡ utf8 k.installation_id)
      × (h.endpoint_sequence ≡ k.endpoint_sequence)
      × (utf8 h.capability_id ≡ utf8 k.capability_id)
      × (h.nonce ≡ k.nonce)
      × (utf8 s.installation_id ≡ utf8 t.installation_id)
      × (s.endpoint_sequence ≡ t.endpoint_sequence)
      × (s.nonce ≡ t.nonce)
      × (s.session_id ≡ t.session_id)
      × (utf8 s.onion_address ≡ utf8 t.onion_address)
unfolding handshake_transcript push_str
handshake_transcript-inj h k s t fh fk fs ft e =
    let domain = push_bytes (utf8 (codes "torchat-peer-handshake-v1")) in
    let hn = fh.nonce in
    let kn = fk.nonce in
    let sn = fs.nonce in
    let tn = ft.nonce in
    let ss = fs.session in
    let ts = ft.session in
    let (_, e1) = append-split domain domain _ _ refl e in
    let (version, e2) =
      be_bytes-split 2 h.protocol_version k.protocol_version _ _ fh.version fk.version e1 in
    let (id, e3) =
      push_bytes-split (utf8 h.installation_id) (utf8 k.installation_id) _ _ fh.id fk.id e2 in
    let (sequence, e4) =
      be_bytes-split 8 h.endpoint_sequence k.endpoint_sequence _ _ fh.sequence fk.sequence e3 in
    let (capability, e5) =
      push_bytes-split (utf8 h.capability_id) (utf8 k.capability_id) _ _ fh.capability fk.capability
        e4 in
    let (nonce, e6) = push_bytes-split h.nonce k.nonce _ _ (omega arith) (omega arith) e5 in
    let (server, e7) =
      push_bytes-split (utf8 s.installation_id) (utf8 t.installation_id) _ _ fs.id ft.id e6 in
    let (number, e8) =
      be_bytes-split 8 s.endpoint_sequence t.endpoint_sequence _ _ fs.sequence ft.sequence e7 in
    let (server_nonce, e9) = push_bytes-split s.nonce t.nonce _ _ (omega arith) (omega arith) e8 in
    let (session, e10) =
      push_bytes-split s.session_id t.session_id _ _ (omega arith) (omega arith) e9 in
    let (onion, _) =
      push_bytes-split (utf8 s.onion_address) (utf8 t.onion_address) [] [] fs.onion ft.onion
        (ap (λ b. b ++ []) e10) in
    (version, id, sequence, capability, nonce, server, number, server_nonce, session, onion)

-- Framed values of different lengths make the bytes differ, whatever comes after them.
push_bytes-apart :
    (a b s t : List ℕ)
    → length a < 2 ^ 32
    → length b < 2 ^ 32
    → (length a == length b) ≡ false
    → push_bytes a ++ s ≢ push_bytes b ++ t
push_bytes-apart a b s t short_a short_b apart same =
    let (equal, _) = push_bytes-split a b s t short_a short_b same in
    let lengths : length a ≡ length b = ap length equal in ground arith

-- The signed bytes of an endpoint, of a handshake and of a message are never the same, so that a
-- signature made for one of the three purposes is no signature for another.
pub signed_apart :
    (primitives : Primitives) (e : PeerEndpointBundle) (h : PeerClientHello) (s : ServerPart)
    (m : PeerMessageEnvelope)
    → (signing_bytes e ≢ transcript h s)
      × (transcript h s ≢ message_signing_bytes primitives m)
      × (message_signing_bytes primitives m ≢ signing_bytes e)
unfolding signing_bytes handshake_transcript message_signing_bytes utf8
signed_apart primitives e h s m = (
  push_bytes-apart endpoint handshake _ _ (omega arith) (omega arith) refl,
  push_bytes-apart handshake message _ _ (omega arith) (omega arith) refl,
  push_bytes-apart message endpoint _ _ (omega arith) (omega arith) refl,
)
  where
    endpoint : List ℕ
    endpoint = utf8 (codes "torchat-peer-endpoint-v1")

    handshake : List ℕ
    handshake = utf8 (codes "torchat-peer-handshake-v1")

    message : List ℕ
    message = utf8 (codes "torchat-peer-message-v1")
