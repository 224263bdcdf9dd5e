-- ===== src/Peer/Signing.antt =====
-- The bytes that a peer signs for its endpoint: `signing_bytes` and the `push_…` helpers of
-- common/torchat-core/src/peer_protocol.rs. A byte is a number, and the output grows at its end.
use t_orca.Base.{
  ℕ, zero, suc, ◌-◌, ◌/◌, ◌%◌, ◌^◌, ◌≤◌, ◌<◌, ◌≡◌, refl, sym, ap, ◌∙◌, Option, none, some, List, [],
  ◌∷◌, ◌++◌, map, length, Text, utf8, codes, arith, append_assoc, All,
}
use t_orca.Base.Int.{ℤ, pos, negsuc, pos_part, neg_part}
use t_orca.Peer.Endpoint.{PeerEndpointBundle}

-- `to_be_bytes` of a number of w bytes.
unfoldable pub be_bytes : (w : ℕ) → ℕ → List ℕ
be_bytes zero n = []
be_bytes (suc w) n = be_bytes w (n / 256) ++ n % 256 ∷ []

-- The 64 bits of an `i64`, in two's complement.
unfoldable pub i64_bits : ℤ → ℕ
i64_bits (pos n) = n
i64_bits (negsuc n) = 2 ^ 64 - 1 - n

-- `push_bytes` and `push_str`: the length, cast to a `u32`, and then the bytes.
unfoldable pub push_bytes : List ℕ → List ℕ
unfolding be_bytes
push_bytes value = be_bytes 4 (length value % 2 ^ 32) ++ value

unfoldable pub push_str : Text → List ℕ
unfolding push_bytes
push_str value = push_bytes (utf8 value)

unfoldable pub push_all : List Text → List ℕ
unfolding push_str
push_all [] = []
push_all (capability ∷ capabilities) = push_str capability ++ push_all capabilities

unfoldable pub push_expiry : Option ℤ → List ℕ
unfolding be_bytes i64_bits
push_expiry (some value) = 1 ∷ be_bytes 8 (i64_bits value)
push_expiry none = 0 ∷ []

unfoldable pub signing_bytes : PeerEndpointBundle → List ℕ
unfolding push_bytes push_str push_all push_expiry be_bytes i64_bits
signing_bytes e =
    push_bytes (utf8 (codes "torchat-peer-endpoint-v1"))
    ++ (be_bytes 2 e.protocol_version
        ++ (push_str e.installation_id
            ++ (push_str e.onion_address
                ++ (be_bytes 2 e.virtual_port
                    ++ (push_str e.identity_public_key
                        ++ (be_bytes 4 (length e.capabilities % 2 ^ 32)
                            ++ (push_all e.capabilities
                                ++ (be_bytes 8 e.sequence
                                    ++ (be_bytes 8 (i64_bits e.issued_at)
                                        ++ push_expiry e.expires_at)))))))))

head_tail : (x y : ℕ) (s t : List ℕ) → x ∷ s ≡ y ∷ t → (x ≡ y) × (s ≡ t)
head_tail x y s t h = ground arith

pub be_bytes-split :
    (w n m : ℕ) (s t : List ℕ)
    → n < 256 ^ w
    → m < 256 ^ w
    → be_bytes w n ++ s ≡ be_bytes w m ++ t
    → (n ≡ m) × (s ≡ t)
unfolding be_bytes
be_bytes-split zero n m s t h k e = (omega arith, e)
be_bytes-split (suc w) n m s t h k e =
    let (high, rest) =
      be_bytes-split w (n / 256) (m / 256) (n % 256 ∷ s) (m % 256 ∷ t) (omega arith) (omega arith) (
        sym (append_assoc (be_bytes w (n / 256)) (n % 256 ∷ []) s)
        ∙ e
        ∙ append_assoc (be_bytes w (m / 256)) (m % 256 ∷ []) t) in
    let (low, same) = head_tail (n % 256) (m % 256) s t rest in (omega arith, same)

pub append-split : (a b s t : List ℕ) → length a ≡ length b → a ++ s ≡ b ++ t → (a ≡ b) × (s ≡ t)
append-split [] [] s t h e = (refl, e)
append-split [] (y ∷ b) s t h e = absurd (omega arith)
append-split (x ∷ a) [] s t h e = absurd (omega arith)
append-split (x ∷ a) (y ∷ b) s t h e =
    let (first, rest) = head_tail x y _ _ e in
    let (same, after) = append-split a b s t (omega arith) rest in (ground arith, after)

pub push_bytes-split :
    (a b s t : List ℕ)
    → length a < 2 ^ 32
    → length b < 2 ^ 32
    → push_bytes a ++ s ≡ push_bytes b ++ t
    → (a ≡ b) × (s ≡ t)
unfolding push_bytes
push_bytes-split a b s t h k e =
    let (number, rest) =
      be_bytes-split 4 (length a % 2 ^ 32) (length b % 2 ^ 32) (a ++ s) (b ++ t) (omega arith)
        (omega arith)
        (sym (append_assoc (be_bytes 4 (length a % 2 ^ 32)) a s)
          ∙ e
          ∙ append_assoc (be_bytes 4 (length b % 2 ^ 32)) b t) in
    append-split a b s t (omega arith) rest

-- The value fits an `i64`.
abbrev pub IsI64 : ℤ → Type 0
IsI64 v = (pos_part v < 2 ^ 63) × (neg_part v ≤ 2 ^ 63)

pub i64_bits-inj : (a b : ℤ) → IsI64 a → IsI64 b → i64_bits a ≡ i64_bits b → a ≡ b
unfolding i64_bits
i64_bits-inj a b h k e = ground arith

pub i64_bits-lt : (a : ℤ) → IsI64 a → i64_bits a < 256 ^ 8
unfolding i64_bits
i64_bits-lt a h = ground arith

-- The text is short enough for its length to be framed in a `u32`.
abbrev pub IsShort : Text → Type 0
IsShort s = length (utf8 s) < 2 ^ 32

abbrev pub IsOptionalI64 : Option ℤ → Type 0
IsOptionalI64 none = Unit
IsOptionalI64 (some v) = IsI64 v

-- The fields are within the ranges of their types, and no text or list is longer than a `u32`.
pub record IsFramed (e : PeerEndpointBundle) : Type 0 where
  pub version : e.protocol_version < 2 ^ 16
  pub id : IsShort e.installation_id
  pub onion : IsShort e.onion_address
  pub port : e.virtual_port < 2 ^ 16
  pub key : IsShort e.identity_public_key
  pub number : length e.capabilities < 2 ^ 32
  pub capabilities : All IsShort e.capabilities
  pub sequence : e.sequence < 2 ^ 64
  pub issued : IsI64 e.issued_at
  pub expires : IsOptionalI64 e.expires_at

push_all-split :
    (a b : List Text) (s t : List ℕ)
    → length a ≡ length b
    → All IsShort a
    → All IsShort b
    → push_all a ++ s ≡ push_all b ++ t
    → (map utf8 a ≡ map utf8 b) × (s ≡ t)
unfolding push_all push_str
push_all-split [] [] s t n h k e = (refl, e)
push_all-split [] (y ∷ b) s t n h k e = absurd (omega arith)
push_all-split (x ∷ a) [] s t n h k e = absurd (omega arith)
push_all-split (x ∷ a) (y ∷ b) s t n h k e =
    let (first, rest) =
      push_bytes-split (utf8 x) (utf8 y) (push_all a ++ s) (push_all b ++ t) h.0 k.0 (
        sym (append_assoc (push_str x) (push_all a) s)
        ∙ e
        ∙ append_assoc (push_str y) (push_all b) t) in
    let (same, after) = push_all-split a b s t (omega arith) h.1 k.1 rest in
    (rw (first, same) refl, after)

push_expiry-inj :
    (a b : Option ℤ) → IsOptionalI64 a → IsOptionalI64 b → push_expiry a ≡ push_expiry b → a ≡ b
unfolding push_expiry
push_expiry-inj none none h k e = refl
push_expiry-inj none (some b) h k e = absurd (ground arith)
push_expiry-inj (some a) none h k e = absurd (ground arith)
push_expiry-inj (some a) (some b) h k e =
    let bytes = (head_tail 1 1 _ _ e).1 in
    let (bits, _) =
      be_bytes-split 8 (i64_bits a) (i64_bits b) [] [] (i64_bits-lt a h) (i64_bits-lt b k)
        (ap (λ s. s ++ []) bytes) in
    ap some (i64_bits-inj a b h k bits)

-- Two endpoints whose fields fit the framing and whose signed bytes are the same agree on every
-- signed field, the texts byte by byte: no signature of one endpoint is good for another.
pub signing_bytes-inj :
    (a b : PeerEndpointBundle)
    → IsFramed a
    → IsFramed b
    → signing_bytes a ≡ signing_bytes b
    → (a.protocol_version ≡ b.protocol_version)
      × (utf8 a.installation_id ≡ utf8 b.installation_id)
      × (utf8 a.onion_address ≡ utf8 b.onion_address)
      × (a.virtual_port ≡ b.virtual_port)
      × (utf8 a.identity_public_key ≡ utf8 b.identity_public_key)
      × (map utf8 a.capabilities ≡ map utf8 b.capabilities)
      × (a.sequence ≡ b.sequence)
      × (a.issued_at ≡ b.issued_at)
      × (a.expires_at ≡ b.expires_at)
unfolding signing_bytes push_str
signing_bytes-inj a b f g e =
    let domain = push_bytes (utf8 (codes "torchat-peer-endpoint-v1")) in
    let (_, e1) = append-split domain domain _ _ refl e in
    let (version, e2) =
      be_bytes-split 2 a.protocol_version b.protocol_version _ _ f.version g.version e1 in
    let (id, e3) =
      push_bytes-split (utf8 a.installation_id) (utf8 b.installation_id) _ _ f.id g.id e2 in
    let (onion, e4) =
      push_bytes-split (utf8 a.onion_address) (utf8 b.onion_address) _ _ f.onion g.onion e3 in
    let (port, e5) = be_bytes-split 2 a.virtual_port b.virtual_port _ _ f.port g.port e4 in
    let (key, e6) =
      push_bytes-split (utf8 a.identity_public_key) (utf8 b.identity_public_key) _ _ f.key g.key
        e5 in
    let fn = f.number in
    let gn = g.number in
    let (number, e7) =
      be_bytes-split 4 (length a.capabilities % 2 ^ 32) (length b.capabilities % 2 ^ 32) _ _
        (omega arith) (omega arith) e6 in
    let (capabilities, e8) =
      push_all-split a.capabilities b.capabilities _ _ (omega arith) f.capabilities g.capabilities
        e7 in
    let (sequence, e9) = be_bytes-split 8 a.sequence b.sequence _ _ f.sequence g.sequence e8 in
    let (issued, e10) =
      be_bytes-split 8 (i64_bits a.issued_at) (i64_bits b.issued_at) _ _
        (i64_bits-lt a.issued_at f.issued) (i64_bits-lt b.issued_at g.issued) e9 in
    (
      version,
      id,
      onion,
      port,
      key,
      capabilities,
      sequence,
      i64_bits-inj a.issued_at b.issued_at f.issued g.issued issued,
      push_expiry-inj a.expires_at b.expires_at f.expires g.expires e10,
    )
