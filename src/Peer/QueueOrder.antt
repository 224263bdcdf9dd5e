-- ===== src/Peer/QueueOrder.antt =====
-- What the command queues of packages/torchat-peer/src/peer/queue.rs promise: one abstract queue,
-- in the order of the priorities, with no durable command twice.
use t_orca.Base.{
  ◌≡◌, refl, sym, ap, ◌∙◌, Bool, true, false, not, ◌&&◌, Option, none, some, List, [], ◌∷◌, ◌++◌,
  retain, All, is_empty, if◌then◌else◌, Text, text_eq, text_eq→eq, arith, inl, inr, append_nil,
  append_assoc, Bool-cases, Option-cases,
}
use t_orca.Peer.Queue.{
  PeerDeliveryTag, PeerOutboundCommand, CommandQueues, Lane, lane, dedupe_key, contains,
  insert_dedupe, enqueue, complete, complete_all, queues_are_empty, pop_slot, pop_next,
  drain_failed, to_list,
}

-- The commands that wait, in the order in which they go out.
abbrev pub contents : CommandQueues → List PeerOutboundCommand
contents q = q.durable ++ to_list q.endpoint_update ++ to_list q.probe ++ to_list q.ephemeral

-- The command that came out is the head of the queue before, and the tail stays.
abbrev pub IsHead : List PeerOutboundCommand → Option PeerOutboundCommand × CommandQueues → Type 0
IsHead before (none, after) = (before ≡ []) × (contents after ≡ [])
IsHead before (some c, after) = before ≡ c ∷ contents after

-- With a session the next command is the head of the one abstract queue, and its tail stays; nothing
-- comes out only where that queue is empty.
pub pop_next-IsHead : (q : CommandQueues) → IsHead (contents q) (pop_next true q)
unfolding pop_next pop_slot
pop_next-IsHead q =
    elim q.durable
      as (λ ds.
        IsHead (ds ++ to_list q.endpoint_update ++ to_list q.probe ++ to_list q.ephemeral)
          (pop_next true (record q { durable = ds }))) [ [] ↦ ground arith | c ∷ cs ↦ refl ]

-- The emptiness test is that of the abstract queue.
pub queues_are_empty_iff : (q : CommandQueues) → queues_are_empty q ≡ is_empty (contents q)
unfolding queues_are_empty
queues_are_empty_iff q = ground arith

-- The commands are queued one after the other.
abbrev pub enqueue_all : List PeerOutboundCommand → CommandQueues → CommandQueues
enqueue_all [] q = q
enqueue_all (c ∷ cs) q = enqueue_all cs (enqueue c q)

abbrev pub key_of : PeerOutboundCommand → Text
key_of c = elim (dedupe_key c.delivery) [ none ↦ [] | some key ↦ key ]

abbrev pub is_queued : PeerOutboundCommand → Bool
is_queued c = elim (lane c.delivery) [ Lane.durable ↦ true | _ ↦ false ]

abbrev pub is_new : List Text → PeerOutboundCommand → Bool
is_new keys c = not (contains (key_of c) keys)

-- The first command of each key, in the order of the list.
abbrev pub firsts : List PeerOutboundCommand → List PeerOutboundCommand
firsts [] = []
firsts (c ∷ cs) = c ∷ retain (λ d. not (text_eq (key_of d) (key_of c))) (firsts cs)

retain-new :
    (key : Text) (keys : List Text) (cs : List PeerOutboundCommand)
    → retain (is_new (key ∷ keys)) cs
      ≡ retain (is_new keys) (retain (λ d. not (text_eq (key_of d) key)) cs)
retain-new key keys [] = refl
retain-new key keys (c ∷ cs) = ground (arith, retain-new key keys cs)

retain-known :
    (key : Text) (keys : List Text) (cs : List PeerOutboundCommand)
    → contains key keys ≡ true
    → retain (is_new keys) (retain (λ d. not (text_eq (key_of d) key)) cs) ≡ retain (is_new keys) cs
retain-known key keys [] h = refl
retain-known key keys (c ∷ cs) h =
    ground (arith, retain-known key keys cs h, text_eq→eq (key_of c) key)

-- One command at the end of the durable queue.
enqueue-durable :
    (c : PeerOutboundCommand) (q : CommandQueues)
    → ((enqueue c q).durable
        ≡ q.durable ++ (if is_queued c && is_new q.dedupe c then c ∷ [] else []))
      × ((enqueue c q).dedupe
          ≡ (if is_queued c && is_new q.dedupe c then key_of c ∷ q.dedupe else q.dedupe))
unfolding enqueue lane insert_dedupe dedupe_key
enqueue-durable c q = ground (arith, append_nil q.durable)

append-new :
    (c : PeerOutboundCommand) (after q : CommandQueues) (later : List PeerOutboundCommand)
    → after.durable ≡ q.durable ++ c ∷ []
    → after.dedupe ≡ key_of c ∷ q.dedupe
    → after.durable ++ retain (is_new after.dedupe) later
      ≡ q.durable
        ++ c ∷ retain (is_new q.dedupe) (retain (λ d. not (text_eq (key_of d) (key_of c))) later)
append-new c after q later queue keys =
    rw (queue, keys)
      (append_assoc q.durable (c ∷ []) _
        ∙ ap (λ r. q.durable ++ c ∷ r) (retain-new (key_of c) q.dedupe later))

-- After any list of enqueues the durable queue is what it was, followed by the durable commands of
-- the list in the order they came, each only where it is the first of its key in the list and its
-- key was not known before.
pub enqueue_all-durable :
    (cs : List PeerOutboundCommand) (q : CommandQueues)
    → (enqueue_all cs q).durable
      ≡ q.durable ++ retain (is_new q.dedupe) (firsts (retain is_queued cs))
enqueue_all-durable [] q = sym (append_nil q.durable)
enqueue_all-durable (c ∷ cs) q =
    let (queue, keys) = enqueue-durable c q in
    let rest = enqueue_all-durable cs (enqueue c q) in
    let later = firsts (retain is_queued cs) in
    elim (Bool-cases (is_queued c)) [
      | inr other ↦
          let queue' : (enqueue c q).durable ≡ q.durable = ground (arith, append_nil q.durable) in
          let keys' : (enqueue c q).dedupe ≡ q.dedupe = ground arith in
          rw (rest, queue', keys', other) refl
      | inl queued ↦ elim (Bool-cases (contains (key_of c) q.dedupe)) [
        | inl known ↦
            let queue' : (enqueue c q).durable ≡ q.durable = ground (arith, append_nil q.durable) in
            let keys' : (enqueue c q).dedupe ≡ q.dedupe = ground arith in
            rw (rest, queue', keys', queued, known, retain-known (key_of c) q.dedupe later known)
              refl
        | inr new ↦
            let here = c ∷ [] in
            let queue' : (enqueue c q).durable ≡ q.durable ++ here = ground arith in
            let keys' : (enqueue c q).dedupe ≡ key_of c ∷ q.dedupe = ground arith in
            rw (queued, new) (rest ∙ append-new c (enqueue c q) q later queue' keys')
      ]
    ]

contains-retain :
    (key k : Text) (keys : List Text)
    → contains key keys ≡ false
    → contains key (retain (λ j. not (text_eq k j)) keys) ≡ false
contains-retain key k [] h = refl
contains-retain key k (j ∷ keys) h = ground (arith, contains-retain key k keys)

contains-retain_same :
    (key : Text) (keys : List Text) → contains key (retain (λ j. not (text_eq key j)) keys) ≡ false
contains-retain_same key [] = refl
contains-retain_same key (j ∷ keys) = ground (arith, contains-retain_same key keys)

complete_all-contains :
    (key : Text) (cs : List PeerOutboundCommand) (q : CommandQueues)
    → contains key q.dedupe ≡ false
    → contains key (complete_all cs q).dedupe ≡ false
unfolding complete_all complete
complete_all-contains key [] q h = h
complete_all-contains key (c ∷ cs) q h =
    complete_all-contains key cs (complete c.delivery q)
      (elim (Option-cases (dedupe_key c.delivery)) [
        | inl e ↦ rw (e, complete) h
        | inr (k, e) ↦ rw (e, complete) (contains-retain key k q.dedupe h)
      ])

-- The queue accepts the command as one that it does not hold.
abbrev pub Accepts : CommandQueues → PeerOutboundCommand → Type 0
Accepts q c = (insert_dedupe c q).0 ≡ true

complete_all-Accepts_head :
    (c : PeerOutboundCommand) (cs : List PeerOutboundCommand) (q : CommandQueues)
    → Accepts (complete_all cs (complete c.delivery q)) c
unfolding insert_dedupe complete
complete_all-Accepts_head c cs q = elim (Option-cases (dedupe_key c.delivery)) [
  | inl e ↦ rw (e, insert_dedupe) refl
  | inr (k, e) ↦
      rw (e, insert_dedupe)
        (rw
          (complete_all-contains k cs (complete c.delivery q)
            (rw (e, complete) (contains-retain_same k q.dedupe)))
          refl)
]

complete_all-Accepts :
    (cs : List PeerOutboundCommand) (q : CommandQueues) → All (Accepts (complete_all cs q)) cs
unfolding complete_all
complete_all-Accepts [] q = tt
complete_all-Accepts (c ∷ cs) q =
    (complete_all-Accepts_head c cs q, complete_all-Accepts cs (complete c.delivery q))

complete-contents : (d : PeerDeliveryTag) (q : CommandQueues) → contents (complete d q) ≡ contents q
unfolding complete
complete-contents d q = elim (Option-cases (dedupe_key d)) [
  | inl e ↦ rw (e, complete) refl
  | inr (k, e) ↦ rw (e, complete) refl
]

complete_all-contents :
    (cs : List PeerOutboundCommand) (q : CommandQueues) → contents (complete_all cs q) ≡ contents q
unfolding complete_all
complete_all-contents [] q = refl
complete_all-contents (c ∷ cs) q =
    complete_all-contents cs (complete c.delivery q) ∙ complete-contents c.delivery q

-- After a failure the caller has every durable command and the endpoint update, in order; nothing
-- waits any more, and the queues accept each of these commands again.
pub drain_failed_lem :
    (q : CommandQueues)
    → let (commands, after) = drain_failed q in
      (commands ≡ q.durable ++ to_list q.endpoint_update)
      × (contents after ≡ [])
      × All (Accepts after) commands
unfolding drain_failed
drain_failed_lem q =
    let commands = q.durable ++ to_list q.endpoint_update in
    (refl, complete_all-contents commands _, complete_all-Accepts commands _)
