-- ===== src/Peer/Link/Invariant.antt =====
-- The invariant of a link over any sequence of steps by its callers and goroutines.
use eventmesh_go.Prelude.{
  ℕ, Str, Bool, false, Option, none, some, List, [], ◌∷◌, ◌≡◌, refl, subst, get_elem?, Result, ok,
  err, arith,
}
use eventmesh_go.Prelude.Maps.{lookup}
use eventmesh_go.Peer.Config.{Config, ConfigError, validate, set_defaults}
use eventmesh_go.Peer.Messages.{Body, PeerMessage}
use eventmesh_go.Peer.Channel.{
  Channel, ReceiveOutcome, taken, no_more, nothing_yet, receive, set_elem, Sound-set_elem,
  Sound-get_elem, receive-IsSound,
}
use eventmesh_go.Peer.Link.{
  PeerNode, Link, register_peer, connect, disconnect, offer, handle_send_failure, Arm, context_arm,
  receive_arm, control_arm, data_arm, Next, take_from, message, queue_gone, idle, poll_outbound,
  wait_outbound,
}
use eventmesh_go.Peer.Link.Bounds.{
  LinkSound, link_of, register_peer-LinkSound, connect-LinkSound, disconnect-LinkSound,
  offer-LinkSound, handle_send_failure-LinkSound,
}

take_from-LinkSound : (o : Option ℕ) (g : Link) → LinkSound g → LinkSound (take_from o g).1
unfolding take_from
take_from-LinkSound none g s = s
take_from-LinkSound (some q) g s = at_place (get_elem? g.channels q) refl
  where
    at_receive :
        (ch : Channel) (o : ReceiveOutcome)
        → get_elem? g.channels q ≡ some ch
        → receive ch ≡ o
        → LinkSound
            (elim o as (λ _. Next × Link) [
              | taken m ch' ↦ (message m q, record g { channels = set_elem g.channels q ch' })
              | no_more ↦ (queue_gone, g)
              | nothing_yet ↦ (idle, g)
            ]).1
    at_receive ch (taken m ch') e f =
        Sound-set_elem g.config.max_send_attempts g.channels q ch'
          (receive-IsSound g.config.max_send_attempts ch ch' m
            (Sound-get_elem g.config.max_send_attempts g.channels q ch s e) f)
          s
    at_receive ch no_more e f = s
    at_receive ch nothing_yet e f = s

    at_place :
        (o : Option Channel)
        → get_elem? g.channels q ≡ o
        → LinkSound
            (elim o as (λ _. Next × Link) [
              | none ↦ (idle, g)
              | some ch ↦ elim (receive ch) [
                | taken m ch' ↦ (message m q, record g { channels = set_elem g.channels q ch' })
                | no_more ↦ (queue_gone, g)
                | nothing_yet ↦ (idle, g)
              ]
            ]).1
    at_place none e = s
    at_place (some ch) e = at_receive ch (receive ch) e refl

poll_outbound-LinkSound : (p : Str) (g : Link) → LinkSound g → LinkSound (poll_outbound p g).1
unfolding poll_outbound
poll_outbound-LinkSound p g s = take_from-LinkSound (lookup p g.control_queues) g s

wait_outbound-LinkSound :
    (arm : Arm) (p : Str) (g : Link) → LinkSound g → LinkSound (wait_outbound arm p g).1
unfolding wait_outbound
wait_outbound-LinkSound context_arm p g s = s
wait_outbound-LinkSound receive_arm p g s = s
wait_outbound-LinkSound control_arm p g s = take_from-LinkSound (lookup p g.control_queues) g s
wait_outbound-LinkSound data_arm p g s = take_from-LinkSound (lookup p g.send_queues) g s

-- A step by a caller, by a server stream or by an outbound connection. A send offers a message that
-- has not been tried yet to some channel, perhaps one that is no longer the peer's.
pub data LinkStep : Type 0 where
  registering : ℕ → Str → LinkStep
  connecting : ℕ → PeerNode → Option ℕ → LinkStep
  disconnecting : Str → LinkStep
  offering : Bool → Str → Body → ℕ → ℕ → LinkStep
  failing : Str → PeerMessage → ℕ → LinkStep
  polling : Str → LinkStep
  waiting : Arm → Str → LinkStep

-- A message that a sender has just made, at the time `now`.
abbrev pub fresh : Str → Body → ℕ → PeerMessage
fresh p body now = record { peer_id = p; body = body; sent_at = now; send_attempts = 0 }

abbrev pub link_step : LinkStep → Link → Link
link_step (registering now p) g = register_peer now p g
link_step (connecting now peer dialed) g = (connect now peer dialed g).1
link_step (disconnecting p) g = (disconnect p g).1
link_step (offering expired p body now q) g = (offer expired p (fresh p body now) q g).1
link_step (failing p m q) g = link_of g (handle_send_failure p m q g)
link_step (polling p) g = (poll_outbound p g).1
link_step (waiting arm p) g = (wait_outbound arm p g).1

abbrev pub link_steps : List LinkStep → Link → Link
link_steps [] g = g
link_steps (step ∷ steps) g = link_steps steps (link_step step g)

link_step-LinkSound : (step : LinkStep) (g : Link) → LinkSound g → LinkSound (link_step step g)
link_step-LinkSound (registering now p) g s = register_peer-LinkSound now p g s
link_step-LinkSound (connecting now peer dialed) g s = connect-LinkSound now peer dialed g s
link_step-LinkSound (disconnecting p) g s = disconnect-LinkSound p g s
link_step-LinkSound (offering expired p body now q) g s =
    offer-LinkSound expired p (fresh p body now) q g (omega arith) s
link_step-LinkSound (failing p m q) g s = handle_send_failure-LinkSound p m q g s
link_step-LinkSound (polling p) g s = poll_outbound-LinkSound p g s
link_step-LinkSound (waiting arm p) g s = wait_outbound-LinkSound arm p g s

-- The link that NewGRPCPeerLink makes of a configuration with its defaults set.
abbrev pub new_link : Config → Link
new_link c = record {
  config = c;
  closed = false;
  connections = [];
  send_queues = [];
  control_queues = [];
  metrics = [];
  outbound_conns = [];
  channels = [];
}

-- NewGRPCPeerLink
unfoldable pub new_grpc_peer_link : Config → Result ConfigError Link
new_grpc_peer_link c = elim (validate c) [ some e ↦ err e | none ↦ ok (new_link (set_defaults c)) ]

new_grpc_peer_link-LinkSound : (c : Config) (g : Link) → new_grpc_peer_link c ≡ ok g → LinkSound g
unfolding new_grpc_peer_link
new_grpc_peer_link-LinkSound c g h = made (validate c) h
  where
    made :
        (o : Option ConfigError)
        → (elim o as (λ _. Result ConfigError Link) [
          | some e ↦ err e
          | none ↦ ok (new_link (set_defaults c))
        ])
          ≡ ok g
        → LinkSound g
    made (some e) h = absurd cc
    made none h = let same : new_link (set_defaults c) ≡ g = cc h in subst LinkSound same tt

link_steps-LinkSound :
    (steps : List LinkStep) (g : Link) → LinkSound g → LinkSound (link_steps steps g)
link_steps-LinkSound [] g s = s
link_steps-LinkSound (step ∷ steps) g s =
    link_steps-LinkSound steps (link_step step g) (link_step-LinkSound step g s)

-- After any interleaving of registrations, connects, disconnects, sends to any channel, failed sends
-- and fetches on a link that NewGRPCPeerLink made, every channel holds at most its capacity, and every message that waits in
-- one has failed at most MaxSendAttempts times.
pub reachable-LinkSound :
    (c : Config) (g : Link) (steps : List LinkStep)
    → new_grpc_peer_link c ≡ ok g
    → LinkSound (link_steps steps g)
reachable-LinkSound c g steps h = link_steps-LinkSound steps g (new_grpc_peer_link-LinkSound c g h)
