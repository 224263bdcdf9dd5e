-- ===== src/Relay/Authority.antt =====
-- Who can end a pairing: a bridge leaves the relay by a frame only if the frame shows the token of
-- the sender's own side of that bridge.
use t_orca.Base.{
  ℕ, ◌≡◌, ◌≢◌, refl, ◌⊎◌, inl, inr, Bool, true, false, Option, none, some, List, is_some,
  if◌then◌else◌, arith, Text, Bool-cases, Option-cases,
}
use t_orca.Base.Map.{Map, lookup, lookup-remove, lookup-insert, insert}
use t_orca.Relay.Frames.{ClientFrame, ServerFrame}
use t_orca.Relay.State.{Slot, Bridge, RelayState, Draws, send}
use t_orca.Relay.Slots.{create_pairing_slot, resolve_pairing_code, cancel_pairing_slot}
use t_orca.Relay.Bridges.{
  open_bridge, admit_pair, begin_pairing, authorize, authorize_either, accept_pairing,
  finish_pairing,
}
use t_orca.Relay.Actor.{dispatch, process_frame}

-- The pairing that a frame names to end it, and the token that it shows.
abbrev pub ending : ClientFrame → Option (ℕ × Text)
ending (ClientFrame.reject_pairing p t) = some (p, t)
ending (ClientFrame.pairing_committed p t) = some (p, t)
ending (ClientFrame.pairing_finalized p t) = some (p, t)
ending (ClientFrame.cancel_pairing p t) = some (p, t)
ending _ = none

-- The id is a side of the bridge, and the digest is that of this side's token.
abbrev pub HoldsSide : Bridge → ℕ → ℕ → Type 0
HoldsSide b id digest =
    ((b.owner ≡ id) × (b.owner_token_hash ≡ digest))
    ⊎ ((b.joiner ≡ id) × (b.joiner_token_hash ≡ digest))

module _ (hash : Text → ℕ) (id p : ℕ) (b : Bridge) (f : ClientFrame) where
  abbrev pub IsEndedBySide : Type 0
  IsEndedBySide = (t : Text) × (ending f ≡ some (p, t)) × HoldsSide b id (hash t)

module _ (hash : Text → ℕ) (p : ℕ) (b : Bridge) where
  finish-Keeps :
      (pairing_id : ℕ) (g : ServerFrame) (st : RelayState)
      → lookup p st.bridges ≡ some b
      → p ≢ pairing_id
      → lookup p (finish_pairing pairing_id g st).bridges ≡ some b
  unfolding finish_pairing
  finish-Keeps pairing_id g st k other = ground (arith, lookup-remove pairing_id p st.bridges)

  create-Keeps :
      (draws : Draws) (id r key ttl : ℕ) (st st' : RelayState)
      → lookup p st.bridges ≡ some b
      → create_pairing_slot hash draws id r key ttl st ≡ some st'
      → lookup p st'.bridges ≡ some b
  unfolding create_pairing_slot
  create-Keeps draws id r key ttl st st' k e = ground arith

  resolve-Keeps :
      (draws : Draws) (id r : ℕ) (code : Text) (st st' : RelayState)
      → lookup p st.bridges ≡ some b
      → resolve_pairing_code hash draws id r code st ≡ some st'
      → lookup p st'.bridges ≡ some b
  unfolding resolve_pairing_code
  resolve-Keeps draws id r code st st' k e = ground arith

  insert-Keeps :
      (q : ℕ) (v : Bridge) (m : Map Bridge)
      → lookup p m ≡ some b
      → p ≢ q
      → lookup p (insert q v m) ≡ some b
  insert-Keeps q v m k other = ground (arith, lookup-insert q p v m)

  send-Keeps :
      (i : ℕ) (g : ServerFrame) (st : RelayState)
      → lookup p st.bridges ≡ some b
      → lookup p (send i g st).bridges ≡ some b
  unfolding send
  send-Keeps i g st k = ground arith

  open-Keeps :
      (draws : Draws) (id r pairing_id key joiner_key : ℕ) (offer : List ℕ) (slot : Slot)
      (st : RelayState)
      → lookup p st.bridges ≡ some b
      → p ≢ pairing_id
      → lookup p (open_bridge hash draws id r pairing_id key joiner_key offer slot st).bridges
        ≡ some b
  unfolding open_bridge
  open-Keeps draws id r pairing_id key joiner_key offer slot st k other =
      send-Keeps id _ _ (send-Keeps slot.owner _ _ (insert-Keeps pairing_id _ st.bridges k other))

  admit-Keeps :
      (draws : Draws) (id r pairing_id key joiner_key : ℕ) (offer : List ℕ) (slot : Slot)
      (st st' : RelayState)
      → lookup p st.bridges ≡ some b
      → p ≢ pairing_id
      → admit_pair hash draws id r pairing_id key joiner_key offer slot st ≡ some st'
      → lookup p st'.bridges ≡ some b
  unfolding admit_pair
  admit-Keeps draws id r pairing_id key joiner_key offer slot st st' k other e =
      ground (arith, open-Keeps draws id r pairing_id key joiner_key offer slot st k other)

  begin-Keeps :
      (draws : Draws) (id r pairing_id : ℕ) (handle : Text) (key : ℕ) (offer : List ℕ)
      (st st' : RelayState)
      → lookup p st.bridges ≡ some b
      → begin_pairing hash draws id r pairing_id handle key offer st ≡ some st'
      → lookup p st'.bridges ≡ some b
  unfolding begin_pairing
  begin-Keeps draws id r pairing_id handle key offer st st' k e =
      elim (Option-cases (lookup (hash handle) st.slots)) [
        | inl missing ↦ ground arith
        | inr (slot, found) ↦
            ground (arith, admit-Keeps draws id r pairing_id (hash handle) key offer slot st st' k)
      ]

  accept-Keeps :
      (id pairing_id : ℕ) (token : Text) (response : List ℕ) (st : RelayState)
      → lookup p st.bridges ≡ some b
      → lookup p (accept_pairing hash id pairing_id token response st).bridges ≡ some b
  unfolding accept_pairing
  accept-Keeps id pairing_id token response st k = ground arith

  cancel_slot-Keeps :
      (id : ℕ) (handle capability : Text) (st : RelayState)
      → lookup p st.bridges ≡ some b
      → lookup p (cancel_pairing_slot hash id handle capability st).bridges ≡ some b
  unfolding cancel_pairing_slot
  cancel_slot-Keeps id handle capability st k = ground arith

  authorize_either-HoldsSide :
      (id : ℕ) (token : Text)
      → authorize_either hash (some b) id token ≡ true
      → HoldsSide b id (hash token)
  unfolding authorize_either authorize
  authorize_either-HoldsSide id token h = ground arith

  -- A frame that finishes a pairing under a check of the sender's token.
  guarded-Keeps :
      (id pairing_id : ℕ) (token : Text) (g : ServerFrame) (test : Bool) (st : RelayState)
      → lookup p st.bridges ≡ some b
      → (p ≡ pairing_id → test ≡ true → authorize_either hash (some b) id token ≡ true)
      → (lookup p (if test then finish_pairing pairing_id g st else st).bridges ≡ some b)
        ⊎ ((p ≡ pairing_id) × HoldsSide b id (hash token))
  guarded-Keeps id pairing_id token g test st k holds =
      ground (arith, finish-Keeps pairing_id g st k, authorize_either-HoldsSide id token, holds)

  guarded-Ends :
      (f : ClientFrame) (id q : ℕ) (token : Text) (g : ServerFrame) (test : Bool)
      (st st' : RelayState)
      → ending f ≡ some (q, token)
      → lookup p st.bridges ≡ some b
      → (p ≡ q → test ≡ true → authorize_either hash (some b) id token ≡ true)
      → some (if test then finish_pairing q g st else st) ≡ some st'
      → (lookup p st'.bridges ≡ some b) ⊎ IsEndedBySide hash id p b f
  guarded-Ends f id q token g test st st' names k holds e =
      elim (guarded-Keeps id q token g test st k holds) [
        | inl kept ↦ inl (ground arith)
        | inr (same, side) ↦ inr (token, ground arith, side)
      ]

module _ (hash : Text → ℕ) (draws : Draws) (id p : ℕ) (b : Bridge) where
  dispatch-KeepsOrEnds :
      (f : ClientFrame) (st st' : RelayState)
      → lookup p st.bridges ≡ some b
      → dispatch hash draws id f st ≡ some st'
      → (lookup p st'.bridges ≡ some b) ⊎ IsEndedBySide hash id p b f
  unfolding dispatch
  dispatch-KeepsOrEnds ClientFrame.ping st st' k e =
      inl (ground (arith, send-Keeps hash p b id ServerFrame.pong st k))
  dispatch-KeepsOrEnds (ClientFrame.create_pairing_slot r key t) st st' k e =
      inl (create-Keeps hash p b draws id r key t st st' k e)
  dispatch-KeepsOrEnds (ClientFrame.resolve_pairing_code r d) st st' k e =
      inl (resolve-Keeps hash p b draws id r d st st' k e)
  dispatch-KeepsOrEnds (ClientFrame.begin_pairing r q h key o) st st' k e =
      inl (begin-Keeps hash p b draws id r q h key o st st' k e)
  dispatch-KeepsOrEnds (ClientFrame.accept_pairing q t r) st st' k e =
      inl (ground (arith, accept-Keeps hash p b id q t r st k))
  dispatch-KeepsOrEnds (ClientFrame.reject_pairing q t) st st' k e =
      guarded-Ends hash p b (ClientFrame.reject_pairing q t) id q t _
        (authorize_either hash (lookup q st.bridges) id t) st st' refl k (λ same test. ground arith)
        e
  dispatch-KeepsOrEnds (ClientFrame.pairing_committed q t) st st' k e =
      guarded-Ends hash p b (ClientFrame.pairing_committed q t) id q t _
        (authorize hash (lookup q st.bridges) id t false) st st' refl k (λ same test. ground arith)
        e
  dispatch-KeepsOrEnds (ClientFrame.pairing_finalized q t) st st' k e =
      guarded-Ends hash p b (ClientFrame.pairing_finalized q t) id q t _
        (authorize hash (lookup q st.bridges) id t true) st st' refl k (λ same test. ground arith) e
  dispatch-KeepsOrEnds (ClientFrame.cancel_pairing q t) st st' k e =
      guarded-Ends hash p b (ClientFrame.cancel_pairing q t) id q t _
        (authorize_either hash (lookup q st.bridges) id t) st st' refl k (λ same test. ground arith)
        e
  dispatch-KeepsOrEnds (ClientFrame.cancel_pairing_slot h c) st st' k e =
      inl (ground (arith, cancel_slot-Keeps hash p b id h c st k))

  -- A frame that the relay has processed leaves a bridge as it was, unless the frame is one that
  -- ends a pairing, names this pairing and shows the token of the side that sent it.
  pub process_frame-KeepsOrEnds :
      (f : ClientFrame) (st st' : RelayState)
      → lookup p st.bridges ≡ some b
      → process_frame hash draws id f st ≡ some st'
      → (lookup p st'.bridges ≡ some b) ⊎ IsEndedBySide hash id p b f
  unfolding process_frame
  process_frame-KeepsOrEnds f st st' k e = elim (Bool-cases (is_some (lookup id st.connections))) [
    | inl here ↦ dispatch-KeepsOrEnds f st st' k (rw here at e)
    | inr gone ↦ inl (ground arith)
  ]
