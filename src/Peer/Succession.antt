-- ===== src/Peer/Succession.antt =====
-- The endpoints that a contact's updates lead through (common/torchat-core/src/peer_protocol.rs).
use t_orca.Base.{
  leb, ◌≡◌, ◌<◌, ◌∙◌, not, ◌||◌, List, [], ◌∷◌, text_eq, text_eq→eq, ok, reject_if, arith, All,
}
use t_orca.Base.Int.{ℤ}
use t_orca.Peer.Endpoint.{PeerEndpointBundle, PeerEndpointUpdate}
use t_orca.Peer.Validation.{Primitives, validate, validate_successor, validate_update}
use t_orca.Peer.Acceptance.{IsAccepted, validate-IsAccepted, check_ok, last_ok}

module _ (primitives : Primitives) where
  -- An endpoint accepted at `now` after `previous`: the same identity and key, and a later number.
  pub record Follows (previous e : PeerEndpointBundle) (now : ℤ) : Type 0 where
    pub accepted : IsAccepted primitives e now
    pub same_id : e.installation_id ≡ previous.installation_id
    pub same_key : e.identity_public_key ≡ previous.identity_public_key
    pub later : previous.sequence < e.sequence

  validate_successor-Follows :
      (e previous : PeerEndpointBundle) (now : ℤ)
      → validate_successor primitives e previous now ≡ ok tt
      → Follows previous e now
  unfolding validate_successor
  validate_successor-Follows e previous now h =
      let (h2, ahead) = check_ok _ (reject_if (leb e.sequence previous.sequence) _) h in
      let (valid, identity) =
        check_ok (validate primitives e now)
          (reject_if
            (not (text_eq e.installation_id previous.installation_id)
              || not (text_eq e.identity_public_key previous.identity_public_key))
            _)
          h2 in
      let unchanged =
        last_ok
          (not (text_eq e.installation_id previous.installation_id)
            || not (text_eq e.identity_public_key previous.identity_public_key))
          _ identity in
      let greater = last_ok (leb e.sequence previous.sequence) _ ahead in
      record {
        accepted = validate-IsAccepted primitives e now valid;
        same_id = text_eq→eq e.installation_id previous.installation_id (ground arith);
        same_key = text_eq→eq e.identity_public_key previous.identity_public_key (ground arith);
        later = ground arith;
      }

  -- Updates as they were accepted, each against the endpoint of the one before, with the time.
  abbrev pub Accepted : PeerEndpointBundle → List (ℤ × PeerEndpointUpdate) → Type 0
  Accepted previous [] = Unit
  Accepted previous ((now, update) ∷ updates) =
      (validate_update primitives update previous now ≡ ok tt) × Accepted update.endpoint updates

  -- Every endpoint of the list follows the first one, and every later one follows it.
  abbrev pub IsSuccession : PeerEndpointBundle → List (ℤ × PeerEndpointUpdate) → Type 0
  IsSuccession previous [] = Unit
  IsSuccession previous ((now, update) ∷ updates) =
      All (λ (u : ℤ × PeerEndpointUpdate). Follows previous (u.1).endpoint u.0)
        ((now, update) ∷ updates)
      × IsSuccession update.endpoint updates

  Follows-trans :
      (p e : PeerEndpointBundle) (now : ℤ)
      → Follows p e now
      → (updates : List (ℤ × PeerEndpointUpdate))
      → All (λ (u : ℤ × PeerEndpointUpdate). Follows e (u.1).endpoint u.0) updates
      → All (λ (u : ℤ × PeerEndpointUpdate). Follows p (u.1).endpoint u.0) updates
  Follows-trans p e now first [] rest = tt
  Follows-trans p e now first (u ∷ updates) (next, rest) = (
    record {
      accepted = next.accepted;
      same_id = next.same_id ∙ first.same_id;
      same_key = next.same_key ∙ first.same_key;
      later = (let a = first.later in let b = next.later in omega arith);
    },
    Follows-trans p e now first updates rest,
  )

  succession-All :
      (p : PeerEndpointBundle) (updates : List (ℤ × PeerEndpointUpdate))
      → IsSuccession p updates
      → All (λ (u : ℤ × PeerEndpointUpdate). Follows p (u.1).endpoint u.0) updates
  succession-All p [] h = tt
  succession-All p ((now, update) ∷ updates) (h, rest) = h

  validate_update-Follows :
      (update : PeerEndpointUpdate) (previous : PeerEndpointBundle) (now : ℤ)
      → validate_update primitives update previous now ≡ ok tt
      → Follows previous update.endpoint now
  unfolding validate_update
  validate_update-Follows update previous now h =
      validate_successor-Follows update.endpoint previous now
        (check_ok _ (validate_successor primitives update.endpoint previous now) h).1

  -- Of all endpoints that updates accepted one after another have led through, each has the identity
  -- and the key of every one before it and a greater sequence number, and was at its time a valid,
  -- current endpoint that its own key had signed: no earlier endpoint comes back, and none of
  -- another identity.
  pub updates-IsSuccession :
      (previous : PeerEndpointBundle) (updates : List (ℤ × PeerEndpointUpdate))
      → Accepted previous updates
      → IsSuccession previous updates
  updates-IsSuccession previous [] h = tt
  updates-IsSuccession previous ((now, update) ∷ updates) (accepted, rest) =
      let first = validate_update-Follows update previous now accepted in
      let others = updates-IsSuccession update.endpoint updates rest in
      (
        (
          first,
          Follows-trans previous update.endpoint now first updates
              (succession-All update.endpoint updates others),
        ),
        others,
      )
