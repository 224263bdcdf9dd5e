-- ===== src/Peer/Queue.antt =====
-- packages/torchat-peer/src/peer/queue.rs, with the delivery tags and the command of types.rs. The
-- front of the `VecDeque` is the head of the list; the `HashSet` is a list without repetition.
use t_orca.Base.{
  ℕ, Bool, true, false, not, ◌&&◌, ◌||◌, Option, none, some, List, [], ◌∷◌, ◌++◌, any, retain,
  is_empty, is_some, is_none, or_option, if◌then◌else◌, Text, codes, text_eq,
}
use t_orca.Base.Int.{ℤ}
use t_orca.Peer.Endpoint.{PeerEndpointBundle, PeerEndpointUpdate}

pub data PeerDeliveryTag : Type 0 where
  message receipt read_receipt relationship_removal_ack : Text → PeerDeliveryTag
  ephemeral probe endpoint_update : PeerDeliveryTag
  presence typing conversation_focus : Bool → PeerDeliveryTag

unfoldable pub dedupe_key : PeerDeliveryTag → Option Text
dedupe_key (PeerDeliveryTag.message id) = some (codes "message:" ++ id)
dedupe_key (PeerDeliveryTag.receipt id) = some (codes "receipt:" ++ id)
dedupe_key (PeerDeliveryTag.read_receipt id) = some (codes "read-receipt:" ++ id)
dedupe_key (PeerDeliveryTag.relationship_removal_ack id) =
    some (codes "relationship-removal-ack:" ++ id)
dedupe_key _ = none

unfoldable pub is_durable : PeerDeliveryTag → Bool
is_durable (PeerDeliveryTag.message id) = true
is_durable (PeerDeliveryTag.receipt id) = true
is_durable (PeerDeliveryTag.read_receipt id) = true
is_durable PeerDeliveryTag.endpoint_update = true
is_durable _ = false

pub record PeerOutboundCommand : Type 0 where
  pub endpoint : PeerEndpointBundle
  pub capability_id : Text
  pub capability_secret : List ℕ
  pub peer_public_key : Text
  pub local_endpoint : PeerEndpointBundle
  pub endpoint_updates : List PeerEndpointUpdate
  pub message_id : ℕ
  pub conversation_id : Text
  pub sequence : ℕ
  pub created_at : ℤ
  pub ciphertext : List ℕ
  pub delivery : PeerDeliveryTag
  pub socks5_url : Text

pub record CommandQueues : Type 0 where
  pub durable : List PeerOutboundCommand
  pub endpoint_update : Option PeerOutboundCommand
  pub probe : Option PeerOutboundCommand
  pub ephemeral : Option PeerOutboundCommand
  pub dedupe : List Text

-- The queue that a tag belongs to.
pub data Lane : Type 0 where
  durable endpoint_update probe ephemeral : Lane

-- The tests of `enqueue` and `push_front` on the tag, in their order.
unfoldable pub lane : PeerDeliveryTag → Lane
lane (PeerDeliveryTag.message id) = Lane.durable
lane (PeerDeliveryTag.receipt id) = Lane.durable
lane (PeerDeliveryTag.read_receipt id) = Lane.durable
lane PeerDeliveryTag.endpoint_update = Lane.endpoint_update
lane PeerDeliveryTag.probe = Lane.probe
lane _ = Lane.ephemeral

abbrev pub contains : Text → List Text → Bool
contains key keys = any (text_eq key) keys

-- `dedupe.insert(key)`, whose answer says whether the key is new.
unfoldable pub insert_dedupe : PeerOutboundCommand → CommandQueues → Bool × CommandQueues
unfolding dedupe_key
insert_dedupe command q = elim (dedupe_key command.delivery) [
  | none ↦ (true, q)
  | some key ↦
      if contains key q.dedupe then (false, q) else (true, record q { dedupe = key ∷ q.dedupe })
]

unfoldable pub enqueue : PeerOutboundCommand → CommandQueues → CommandQueues
unfolding lane insert_dedupe
enqueue command q = elim (lane command.delivery) [
  | durable ↦
      let (new, q') = insert_dedupe command q in
      if new then record q' { durable = q'.durable ++ command ∷ [] } else q'
  | endpoint_update ↦ record q { endpoint_update = some command }
  | probe ↦ record q { probe = some command }
  | ephemeral ↦ record q { ephemeral = some command }
]

unfoldable pub complete : PeerDeliveryTag → CommandQueues → CommandQueues
unfolding dedupe_key
complete delivery q = elim (dedupe_key delivery) [
  | none ↦ q
  | some key ↦ record q { dedupe = retain (λ k. not (text_eq key k)) q.dedupe }
]

unfoldable pub has_dial_worthy : CommandQueues → Bool
has_dial_worthy q = not (is_empty q.durable) || is_some q.endpoint_update || is_some q.probe

unfoldable pub queues_are_empty : CommandQueues → Bool
queues_are_empty q =
    is_empty q.durable && is_none q.endpoint_update && is_none q.probe && is_none q.ephemeral

abbrev pub front : List PeerOutboundCommand → Option PeerOutboundCommand
front [] = none
front (c ∷ cs) = some c

unfoldable pub connection_template : CommandQueues → Option PeerOutboundCommand
connection_template q = or_option (or_option (front q.durable) q.endpoint_update) q.probe

-- The slots, once no durable command is left: each is taken only where the ones before it are
-- empty.
unfoldable pub pop_slot : Bool → CommandQueues → Option PeerOutboundCommand × CommandQueues
pop_slot session_ready q = elim q.endpoint_update [
  | some c ↦ (some c, record q { endpoint_update = none })
  | none ↦ elim q.probe [
    | some c ↦ (some c, record q { probe = none })
    | none ↦ if session_ready then (q.ephemeral, record q { ephemeral = none }) else (none, q)
  ]
]

unfoldable pub pop_next : Bool → CommandQueues → Option PeerOutboundCommand × CommandQueues
unfolding pop_slot
pop_next session_ready q = elim q.durable [
  | c ∷ cs ↦ (some c, record q { durable = cs })
  | [] ↦ pop_slot session_ready q
]

unfoldable pub push_front : PeerOutboundCommand → CommandQueues → CommandQueues
unfolding lane
push_front command q = elim (lane command.delivery) [
  | durable ↦ record q { durable = command ∷ q.durable }
  | endpoint_update ↦ record q { endpoint_update = some command }
  | probe ↦ record q { probe = some command }
  | ephemeral ↦ record q { ephemeral = some command }
]

unfoldable pub drop_ephemeral_without_session : CommandQueues → CommandQueues
drop_ephemeral_without_session q = record q { ephemeral = none }

-- `for command in &commands { self.complete(&command.delivery) }`.
unfoldable pub complete_all : List PeerOutboundCommand → CommandQueues → CommandQueues
unfolding complete
complete_all [] q = q
complete_all (c ∷ cs) q = complete_all cs (complete c.delivery q)

abbrev pub to_list : Option PeerOutboundCommand → List PeerOutboundCommand
to_list none = []
to_list (some c) = c ∷ []

unfoldable pub drain_failed : CommandQueues → List PeerOutboundCommand × CommandQueues
unfolding complete_all
drain_failed q =
    let commands = q.durable ++ to_list q.endpoint_update in
    (
      commands,
      complete_all commands
          (record q { durable = []; endpoint_update = none; probe = none; ephemeral = none }),
    )

-- `CommandQueues::default()`.
abbrev pub no_commands : CommandQueues
no_commands = record {
  durable = [];
  endpoint_update = none;
  probe = none;
  ephemeral = none;
  dedupe = [];
}
