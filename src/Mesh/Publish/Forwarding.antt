-- ===== src/Mesh/Publish/Forwarding.antt =====
-- internal/meshnode/node_publish.go: which peers an event is sent to, whether the sends fail or not.
use eventmesh_go.Prelude.{
  ℕ, suc, Str, true, Option, none, some, List, [], ◌∷◌, ◌++◌, ◌≡◌, ◌↔◌, sym, ◌∙◌, append-nil,
  append_assoc, ContextError, In,
}
use eventmesh_go.EventLog.Event.{Event}
use eventmesh_go.Peer.Link.{PeerNode}
use eventmesh_go.Routing.Pattern.{matches_pattern}
use eventmesh_go.Mesh.Interest.{PeerInterest, get_interested_peers}
use eventmesh_go.Mesh.Interest.View.{Distinct, has_interest, get_interested_peers_iff}
use eventmesh_go.Mesh.Publish.{DeliveryResult, PeerLinks, forward_loop, forward_to_peers, peer_sent}

abbrev pub ids_of : List PeerNode → List Str
ids_of [] = []
ids_of (peer ∷ peers) = peer.id ∷ ids_of peers

module _ {S : Type 0} (peer_links : PeerLinks S) where
  -- The peer links, with a list of the peers that SendEvent was called for.
  abbrev pub recording : PeerLinks (S × List Str)
  recording = record {
    get_connected_peers = λ s. peer_links.get_connected_peers s.0;
    send_event = λ id e s.
        let outcome = peer_links.send_event id e s.0 in (outcome.0, (outcome.1, s.1 ++ id ∷ []));
  }

  forward_loop-sends :
      (ctx : ℕ → Option ContextError) (i : ℕ) (e : Event) (peers : List PeerNode)
      (r : DeliveryResult) (s : S) (sent : List Str)
      → ((j : ℕ) → ctx j ≡ none)
      → (forward_loop recording ctx i e peers r (s, sent)).1.1 ≡ sent ++ ids_of peers
  unfolding forward_loop
  forward_loop-sends ctx i e [] r s sent live = sym (append-nil sent)
  forward_loop-sends ctx i e (peer ∷ peers) r s sent live =
      let outcome = peer_links.send_event peer.id e s in
      rw (live i, forward_loop)
        (forward_loop-sends ctx (suc i) e peers (peer_sent peer.id outcome.0 r) outcome.1
            (sent ++ peer.id ∷ []) live
          ∙ append_assoc sent (peer.id ∷ []) (ids_of peers))

  -- While the context is live and the peers can be listed, forwarding an event calls SendEvent once
  -- for each peer that is chosen, in their order, whether earlier sends fail or not; and exactly those
  -- connected peers are chosen that are known to want a pattern that matches the topic.
  pub forward_to_peers-sends :
      (ctx : ℕ → Option ContextError) (e : Event) (interest : PeerInterest) (r : DeliveryResult)
      (s : S) (sent : List Str) (peers : List PeerNode)
      → ((j : ℕ) → ctx j ≡ none)
      → peer_links.get_connected_peers s ≡ some peers
      → Distinct interest.peer_subscriptions
      → ((forward_to_peers recording ctx e interest r (s, sent)).1.1
          ≡ sent ++ ids_of (get_interested_peers e.topic peers interest.peer_subscriptions))
        × ((peer : PeerNode)
            → In peer (get_interested_peers e.topic peers interest.peer_subscriptions)
              ↔ In peer peers
                × ((pattern : Str) × (has_interest interest.peer_subscriptions peer.id pattern
                      ≡ true)
                    × (matches_pattern pattern e.topic ≡ true)))
  unfolding forward_to_peers
  forward_to_peers-sends ctx e interest r s sent peers live connected d = (
    rw (connected, forward_to_peers)
        (forward_loop-sends ctx 0 e (get_interested_peers e.topic peers interest.peer_subscriptions)
          r s sent live),
    λ peer. get_interested_peers_iff e.topic peer peers interest.peer_subscriptions d,
  )
