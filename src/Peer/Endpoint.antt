-- ===== src/Peer/Endpoint.antt =====
-- common/torchat-core/src/peer_protocol.rs: the endpoint that a peer signs, its update, and the
-- bytes that are signed. `now` and the times are Unix seconds.
use t_orca.Base.{ℕ, Option, List, Text}
use t_orca.Base.Int.{ℤ}

pub record PeerEndpointBundle : Type 0 where
  pub protocol_version : ℕ
  pub installation_id : Text
  pub onion_address : Text
  pub virtual_port : ℕ
  pub identity_public_key : Text
  pub capabilities : List Text
  pub sequence : ℕ
  pub issued_at : ℤ
  pub expires_at : Option ℤ
  pub signature : Text

pub record PeerEndpointUpdate : Type 0 where
  pub previous_sequence : ℕ
  pub endpoint : PeerEndpointBundle
