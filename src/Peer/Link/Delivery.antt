-- ===== src/Peer/Link/Delivery.antt =====
-- What single operations of a link do to a message, and two ways in which they go wrong.
use eventmesh_go.Prelude.{
  ℕ, ◌+◌, ◌≤◌, Str, true, false, Option, none, some, List, ◌≡◌, ◌⊎◌, refl, ◌∙◌, if◌then◌else◌,
  lt→ltb, ◌==◌, get_elem?, ok, arith, Bool-cases, inl, inr,
}
use eventmesh_go.Prelude.Maps.{Map, lookup, insert, delete, lookup-insert_self}
use eventmesh_go.Peer.Messages.{PeerMessage, plane_for_message}
use eventmesh_go.Peer.Metrics.{
  record_plane_drop, record_plane_send_failure, record_peer_send_failure,
}
use eventmesh_go.Peer.Channel.{Channel, close_channel, send, set_elem, get_elem?-set_elem}
use eventmesh_go.Peer.Link.{
  PeerNode, Link, dial_failed, register_peer, connect, close_queue, disconnect, find_queue, crashed,
  offer, handle_send_failure,
}

-- A message whose failures pass MaxSendAttempts is dropped: the channels stay as they are, the failure
-- and the drop are counted on its plane, and the peer is counted as failing.
pub handle_send_failure-gives_up :
    (p : Str) (m : PeerMessage) (q : ℕ) (g : Link)
    → g.config.max_send_attempts ≤ m.send_attempts
    → handle_send_failure p m q g
      ≡ ok (record g {
        metrics = record_peer_send_failure p (
            record_plane_drop p
              (plane_for_message m)
              (record_plane_send_failure p (plane_for_message m) g.metrics));
      })
unfolding handle_send_failure plane_for_message
handle_send_failure-gives_up p m q g h =
    rw (lt→ltb g.config.max_send_attempts (m.send_attempts + 1) (omega arith))

-- The channel at a place is closed.
abbrev ClosedAt : ℕ → List Channel → Type 0
ClosedAt q store = (ch : Channel) × (get_elem? store q ≡ some ch) × (ch.closed ≡ true)

close-ClosedAt :
    (q r : ℕ) (store : List Channel) (old new : Channel)
    → get_elem? store q ≡ some old
    → new.closed ≡ true
    → (q ≡ r) ⊎ (old.closed ≡ true)
    → ClosedAt q (set_elem store r new)
close-ClosedAt q r store old new e c h = elim (Bool-cases (r == q)) [
  | inl same ↦ (new, get_elem?-set_elem store r q old new e ∙ rw same, c)
  | inr other ↦ (
    old,
    get_elem?-set_elem store r q old new e ∙ rw other,
    elim h [ inl eq ↦ absurd (ground arith) | inr k ↦ k ],
  )
]

close_queue-keeps :
    (p : Str) (q : ℕ) (queues : Map ℕ) (store : List Channel)
    → ClosedAt q store
    → ClosedAt q (close_queue p (queues, store)).1
unfolding close_queue
close_queue-keeps p q queues store h = closing (lookup p queues)
  where
    closing_at :
        (r : ℕ) (o : Option Channel)
        → get_elem? store r ≡ o
        → ClosedAt q (elim o as (λ _. List Channel) [
          | none ↦ store
          | some ch ↦ set_elem store r (close_channel ch)
        ])
    closing_at r none e = h
    closing_at r (some ch) e = close-ClosedAt q r store h.0 (close_channel ch) h.1 refl (inr h.2)

    closing :
        (o : Option ℕ)
        → ClosedAt q
            (elim o as (λ _. Map ℕ × List Channel) [
              | none ↦ (queues, store)
              | some r ↦ (
                delete p queues,
                elim (get_elem? store r) [
                  | none ↦ store
                  | some ch ↦ set_elem store r (close_channel ch)
                ],
              )
            ]).1
    closing none = h
    closing (some r) = closing_at r (get_elem? store r) refl

close_queue-closes :
    (p : Str) (q : ℕ) (queues : Map ℕ) (store : List Channel) (ch : Channel)
    → lookup p queues ≡ some q
    → get_elem? store q ≡ some ch
    → ClosedAt q (close_queue p (queues, store)).1
unfolding close_queue
close_queue-closes p q queues store ch e f =
    rw (e, close_queue)
      (rw (f, close_queue) (close-ClosedAt q q store ch (close_channel ch) f refl (inl refl)))

-- A send to a closed channel panics.
offer-ClosedAt :
    (p : Str) (m : PeerMessage) (q : ℕ) (g : Link)
    → ClosedAt q g.channels
    → (offer false p m q g).0 ≡ crashed
unfolding offer send
offer-ClosedAt p m q g (ch, e, c) = rw (e, offer) (rw (c, if◌then◌else◌))

find_queue-ok :
    (p : Str) (queues : Link → Map ℕ) (g : Link) (q : ℕ)
    → find_queue p queues g ≡ ok q
    → (g.closed ≡ false) × (lookup p (queues g) ≡ some q)
unfolding find_queue
find_queue-ok p queues g q h = ground arith

-- If a peer is disconnected after a send has found its queue and before it offers its message, the
-- offer, whose time is not up, is to a closed channel, and the process panics.
pub offer-after_disconnect :
    (p : Str) (m : PeerMessage) (g : Link) (q : ℕ) (ch : Channel)
    → find_queue p (λ l. l.send_queues) g ≡ ok q
    → get_elem? g.channels q ≡ some ch
    → (offer false p m q (disconnect p g).1).0 ≡ crashed
unfolding disconnect
offer-after_disconnect p m g q ch h e =
    let (still, there) = find_queue-ok p (λ l. l.send_queues) g q h in
    offer-ClosedAt p m q (disconnect p g).1 (
      simp still (
        close_queue-keeps p q g.control_queues (close_queue p (g.send_queues, g.channels)).1
          (close_queue-closes p q g.send_queues g.channels ch there e)))

-- The link after a Connect that got as far as the dial.
abbrev pub registered_link : ℕ → PeerNode → Link → Link
registered_link now peer g = register_peer now peer.id (record g {
  connections = insert peer.id (record { node = peer; stream = none }) g.connections;
})

connect-dial_failed :
    (now : ℕ) (peer : PeerNode) (g : Link)
    → g.closed ≡ false
    → lookup peer.id g.connections ≡ none
    → connect now peer none g ≡ (some dial_failed, registered_link now peer g)
unfolding connect
connect-dial_failed now peer g still absent = simp (still, absent)

connect-registered :
    (now later : ℕ) (peer : PeerNode) (dialed : Option ℕ) (g : Link)
    → g.closed ≡ false
    → connect later peer dialed (registered_link now peer g) ≡ (none, registered_link now peer g)
unfolding connect register_peer
connect-registered now later peer dialed g still = simp (still, lookup-insert_self)

-- On an open link to which a peer is not connected, a dial that fails is reported by Connect and adds
-- no outbound connection, but a second Connect returns no error and does nothing, whatever its own dial
-- would return.
pub connect-after_failed_dial :
    (now later : ℕ) (peer : PeerNode) (dialed : Option ℕ) (g : Link)
    → g.closed ≡ false
    → lookup peer.id g.connections ≡ none
    → ((connect now peer none g).0 ≡ some dial_failed)
      × (connect later peer dialed (connect now peer none g).1
          ≡ (none, (connect now peer none g).1))
      × ((connect now peer none g).1.outbound_conns ≡ g.outbound_conns)
connect-after_failed_dial now later peer dialed g still absent =
    let first = connect-dial_failed now peer g still absent in
    rw first (refl, connect-registered now later peer dialed g still, unfold register_peer in refl)
