-- ===== src/Peer/Acceptance.antt =====
-- What an endpoint that `validate` accepts satisfies, and that this is all that it asks
-- (common/torchat-core/src/peer_protocol.rs).
use t_orca.Base.{
  ℕ, ◌==◌, ◌≡◌, ◌<◌, refl, sym, ap, ◌∙◌, Bool, true, false, not, Option, none, some, List, text_eq,
  text_eq→eq, text_eq_refl, Result, ok, err, reject_if, ◌>>◌, ◌>>=◌, arith,
}
use t_orca.Base.Int.{ℤ, pos, ltb_ℤ, ◌≤ℤ◌, saturating_sub}
use t_orca.Peer.Endpoint.{PeerEndpointBundle}
use t_orca.Peer.Signing.{signing_bytes}
use t_orca.Peer.Validation.{
  Primitives, protocol_version, peer_virtual_port, is_valid_onion_address, check_expiry,
  check_capabilities, decode_public_key, installation_id_from_public_key, verify_signature,
  check_identity, validate,
}

-- A check that lets pass.
pub reject_ok :
    {E : Type 0} (test : Bool) (e : E) (m : Result E (Unit {0}))
    → reject_if test e >> m ≡ ok tt
    → (test ≡ false) × (m ≡ ok tt)
reject_ok true e m h = cc
reject_ok false e m h = (refl, h)

pub check_ok : {E : Type 0} (c m : Result E (Unit {0})) → c >> m ≡ ok tt → (c ≡ ok tt) × (m ≡ ok tt)
check_ok (ok u) m h = (refl, h)
check_ok (err e) m h = cc

step_ok :
    {E A B : Type 0} (m : Result E A) (f : A → Result E B) {b : B}
    → m >>= f ≡ ok b
    → (a : A) × (m ≡ ok a) × (f a ≡ ok b)
step_ok (ok a) f h = (a, refl, h)
step_ok (err e) f h = cc

not-false : (b : Bool) → not b ≡ false → b ≡ true
not-false true h = refl
not-false false h = cc

pub last_ok : {E : Type 0} (test : Bool) (e : E) → reject_if test e ≡ ok tt → test ≡ false
last_ok true e h = cc
last_ok false e h = refl

pub pass : {E : Type 0} (test : Bool) (e : E) → test ≡ false → reject_if test e ≡ ok tt
pass test e h = rw h refl

pub both : {E : Type 0} (c m : Result E (Unit {0})) → c ≡ ok tt → m ≡ ok tt → c >> m ≡ ok tt
both c m h k = rw h k

-- An endpoint that has not ended, nor ends far in the future.
abbrev pub IsCurrent : Option ℤ → ℤ → Type 0
IsCurrent none now = Unit
IsCurrent (some t) now = (now ≤ℤ t) × (saturating_sub t now ≤ℤ pos 600)

check_expiry-IsCurrent : (o : Option ℤ) (now : ℤ) → check_expiry o now ≡ ok tt → IsCurrent o now
unfolding check_expiry
check_expiry-IsCurrent none now h = tt
check_expiry-IsCurrent (some t) now h =
    let (alive, near) = reject_ok (ltb_ℤ t now) _ _ h in
    let close = last_ok (ltb_ℤ (pos 600) (saturating_sub t now)) _ near in
    (ground arith, ground arith)

IsCurrent-check_expiry : (o : Option ℤ) (now : ℤ) → IsCurrent o now → check_expiry o now ≡ ok tt
unfolding check_expiry
IsCurrent-check_expiry none now h = refl
IsCurrent-check_expiry (some t) now (alive, near) =
    both _ _ (pass (ltb_ℤ t now) _ (ground arith))
      (pass (ltb_ℤ (pos 600) (saturating_sub t now)) _ (ground arith))

module _ (primitives : Primitives) where
  -- The endpoint carries the id of its own key, and that key has signed it.
  pub record IsGenuine (e : PeerEndpointBundle) : Type 0 where
    pub key : List ℕ
    pub decoded : decode_public_key primitives e.identity_public_key ≡ ok key
    pub bound : e.installation_id ≡ installation_id_from_public_key primitives key
    pub signed :
        verify_signature primitives e.identity_public_key (signing_bytes e) e.signature ≡ true

  check_identity-IsGenuine :
      (e : PeerEndpointBundle) → check_identity primitives e ≡ ok tt → IsGenuine e
  unfolding check_identity
  check_identity-IsGenuine e h =
      let (key, decoded, rest) = step_ok (decode_public_key primitives e.identity_public_key) _ h in
      let (same, signature) =
        reject_ok (not (text_eq (installation_id_from_public_key primitives key) e.installation_id))
          _ _ rest in
      let signed =
        last_ok
          (not (verify_signature primitives e.identity_public_key (signing_bytes e) e.signature)) _
          signature in
      record {
        key = key;
        decoded = decoded;
        bound = sym (
            text_eq→eq (installation_id_from_public_key primitives key) e.installation_id
              (not-false _ same));
        signed = not-false _ signed;
      }

  -- What every accepted endpoint satisfies.
  pub record IsAccepted (e : PeerEndpointBundle) (now : ℤ) : Type 0 where
    pub version : e.protocol_version ≡ protocol_version
    pub numbered : 0 < e.sequence
    pub port : e.virtual_port ≡ peer_virtual_port
    pub issued : saturating_sub e.issued_at now ≤ℤ pos 600
    pub onion : is_valid_onion_address e.onion_address ≡ true
    pub current : IsCurrent e.expires_at now
    pub capable : check_capabilities e.capabilities ≡ ok tt
    pub genuine : IsGenuine e

  pub validate-IsAccepted :
      (e : PeerEndpointBundle) (now : ℤ) → validate primitives e now ≡ ok tt → IsAccepted e now
  unfolding validate
  validate-IsAccepted e now h =
      let (h7, identity) = check_ok _ (check_identity primitives e) h in
      let (h6, capable) = check_ok _ (check_capabilities e.capabilities) h7 in
      let (h5, expiry) = check_ok _ (check_expiry e.expires_at now) h6 in
      let (h4, onion) =
        check_ok _ (reject_if (not (is_valid_onion_address e.onion_address)) _) h5 in
      let (h3, issued) =
        check_ok _ (reject_if (ltb_ℤ (pos 600) (saturating_sub e.issued_at now)) _) h4 in
      let (h2, port) = check_ok _ (reject_if (not (e.virtual_port == peer_virtual_port)) _) h3 in
      let (version, sequence) =
        check_ok (reject_if (not (e.protocol_version == protocol_version)) _)
          (reject_if (e.sequence == 0) _) h2 in
      let versioned = last_ok (not (e.protocol_version == protocol_version)) _ version in
      let counted = last_ok (e.sequence == 0) _ sequence in
      let reachable = last_ok (not (e.virtual_port == peer_virtual_port)) _ port in
      let recent = last_ok (ltb_ℤ (pos 600) (saturating_sub e.issued_at now)) _ issued in
      record {
        version = ground arith;
        numbered = ground arith;
        port = ground arith;
        issued = ground arith;
        onion = not-false _ (last_ok (not (is_valid_onion_address e.onion_address)) _ onion);
        current = check_expiry-IsCurrent e.expires_at now expiry;
        capable = capable;
        genuine = check_identity-IsGenuine e identity;
      }

  IsGenuine-check_identity :
      (e : PeerEndpointBundle) → IsGenuine e → check_identity primitives e ≡ ok tt
  unfolding check_identity
  IsGenuine-check_identity e h =
      let id = installation_id_from_public_key primitives h.key in
      rw (h.decoded) (
        both _ _
          (pass (not (text_eq id e.installation_id)) _
            (ap not (ap (text_eq id) h.bound ∙ text_eq_refl id)))
          (pass
            (not (verify_signature primitives e.identity_public_key (signing_bytes e) e.signature))
            _ (ap not h.signed)))

  pub IsAccepted-validate :
      (e : PeerEndpointBundle) (now : ℤ) → IsAccepted e now → validate primitives e now ≡ ok tt
  unfolding validate
  IsAccepted-validate e now h =
      let version = h.version in
      let numbered = h.numbered in
      let port = h.port in
      let issued = h.issued in
      both _ _
        (both _ _
          (both _ _
            (both _ _
              (both _ _
                (both _ _
                  (both _ _ (pass (not (e.protocol_version == protocol_version)) _ (ground arith))
                    (pass (e.sequence == 0) _ (ground arith)))
                  (pass (not (e.virtual_port == peer_virtual_port)) _ (ground arith)))
                (pass (ltb_ℤ (pos 600) (saturating_sub e.issued_at now)) _ (ground arith)))
              (pass (not (is_valid_onion_address e.onion_address)) _ (rw (h.onion) refl)))
            (IsCurrent-check_expiry e.expires_at now h.current))
          h.capable)
        (IsGenuine-check_identity e h.genuine)
