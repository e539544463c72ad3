-- ===== src/Peer/Link/Bounds.antt =====
-- The queues of a link stay within their bounds, and no message stays queued that has failed more
-- often than the configuration allows.
use eventmesh_go.Prelude.{
  ℕ, ◌+◌, ◌≤◌, Str, Bool, true, false, Option, none, some, List, [], ◌∷◌, ◌++◌, ◌≡◌, refl, subst,
  length, if◌then◌else◌, ltb, get_elem?, is_some, Result, ok, err, panic, arith, Bool-cases, inl,
  inr,
}
use eventmesh_go.Prelude.Maps.{Map, lookup, insert, delete}
use eventmesh_go.Peer.Messages.{PeerMessage, increment_send_attempts, plane_for_message}
use eventmesh_go.Peer.Metrics.{record_plane_queued, record_plane_send_failure}
use eventmesh_go.Peer.Channel.{
  Channel, new_channel, SendOutcome, accepted, full, send_on_closed, send, set_elem, close_channel,
  Sound, Sound-set_elem, Sound-append, Sound-get_elem, close-IsSound, send-IsSound,
}
use eventmesh_go.Peer.Link.{
  PeerNode, Link, LinkError, ensure_queue, register_peer, connect, close_queue, disconnect,
  SendProgress, offer, requeue, handle_send_failure, sent, waiting, crashed, drop_failed_message,
  count_peer_failure,
}

-- The link's channels are sound for its own limit on attempts.
abbrev pub LinkSound : Link → Type 0
LinkSound g = Sound g.config.max_send_attempts g.channels

module _ (limit : ℕ) where
  ensure_queue-Sound :
      (p : Str) (size : ℕ) (queues : Map ℕ) (store : List Channel)
      → Sound limit store
      → Sound limit (ensure_queue p size (queues, store)).1
  unfolding ensure_queue
  ensure_queue-Sound p size queues store s = ensured (lookup p queues)
    where
      ensured :
          (o : Option ℕ)
          → Sound limit
              (elim o as (λ _. Map ℕ × List Channel) [
                | some q ↦ (queues, store)
                | none ↦ (insert p (length store) queues, store ++ new_channel size ∷ [])
              ]).1
      ensured none = Sound-append limit store size s
      ensured (some q) = s

  close_queue-Sound :
      (p : Str) (queues : Map ℕ) (store : List Channel)
      → Sound limit store
      → Sound limit (close_queue p (queues, store)).1
  unfolding close_queue
  close_queue-Sound p queues store s = closed (lookup p queues)
    where
      closed_at :
          (q : ℕ) (o : Option Channel)
          → get_elem? store q ≡ o
          → Sound limit (elim o as (λ _. List Channel) [
            | none ↦ store
            | some ch ↦ set_elem store q (close_channel ch)
          ])
      closed_at q none e = s
      closed_at q (some ch) e =
          Sound-set_elem limit store q (close_channel ch)
            (close-IsSound limit ch (Sound-get_elem limit store q ch s e)) s

      closed :
          (o : Option ℕ)
          → Sound limit
              (elim o as (λ _. Map ℕ × List Channel) [
                | none ↦ (queues, store)
                | some q ↦ (
                  delete p queues,
                  elim (get_elem? store q) [
                    | none ↦ store
                    | some ch ↦ set_elem store q (close_channel ch)
                  ],
                )
              ]).1
      closed none = s
      closed (some q) = closed_at q (get_elem? store q) refl

pub register_peer-LinkSound :
    (now : ℕ) (p : Str) (g : Link) → LinkSound g → LinkSound (register_peer now p g)
unfolding register_peer
register_peer-LinkSound now p g s =
    ensure_queue-Sound g.config.max_send_attempts p g.config.send_queue_size g.control_queues _ (
      ensure_queue-Sound g.config.max_send_attempts p g.config.send_queue_size g.send_queues
        g.channels s)

LinkSound-if :
    {X : Type 0} (b : Bool) (x y : X × Link)
    → LinkSound x.1
    → LinkSound y.1
    → LinkSound (if b then x else y).1
LinkSound-if true x y hx hy = hx
LinkSound-if false x y hx hy = hy

pub connect-LinkSound :
    (now : ℕ) (peer : PeerNode) (dialed : Option ℕ) (g : Link)
    → LinkSound g
    → LinkSound (connect now peer dialed g).1
unfolding connect
connect-LinkSound now peer none g s = LinkSound-if g.closed _ _ s (
    LinkSound-if (is_some (lookup peer.id g.connections)) _ _ s
      (register_peer-LinkSound now peer.id _ s))
connect-LinkSound now peer (some conn) g s = LinkSound-if g.closed _ _ s (
    LinkSound-if (is_some (lookup peer.id g.connections)) _ _ s
      (register_peer-LinkSound now peer.id _ s))

pub disconnect-LinkSound : (p : Str) (g : Link) → LinkSound g → LinkSound (disconnect p g).1
unfolding disconnect
disconnect-LinkSound p g s = LinkSound-if g.closed _ _ s (
    close_queue-Sound g.config.max_send_attempts p g.control_queues _
      (close_queue-Sound g.config.max_send_attempts p g.send_queues g.channels s))

pub offer-LinkSound :
    (expired : Bool) (p : Str) (m : PeerMessage) (q : ℕ) (g : Link)
    → m.send_attempts ≤ g.config.max_send_attempts
    → LinkSound g
    → LinkSound (offer expired p m q g).1
unfolding offer
offer-LinkSound true p m q g h s = s
offer-LinkSound false p m q g h s = at_place (get_elem? g.channels q) refl
  where
    limit : ℕ
    limit = g.config.max_send_attempts

    at_send :
        (ch : Channel) (o : SendOutcome)
        → get_elem? g.channels q ≡ some ch
        → send m ch ≡ o
        → LinkSound
            (elim o as (λ _. SendProgress × Link) [
              | accepted ch' ↦ (
                sent,
                record g {
                  channels = set_elem g.channels q ch';
                  metrics = record_plane_queued p (plane_for_message m) g.metrics;
                },
              )
              | full ↦ (waiting, g)
              | send_on_closed ↦ (crashed, g)
            ]).1
    at_send ch (accepted ch') e f =
        Sound-set_elem limit g.channels q ch'
          (send-IsSound limit m ch ch' h (Sound-get_elem limit g.channels q ch s e) f) s
    at_send ch full e f = s
    at_send ch send_on_closed e f = s

    at_place :
        (o : Option Channel)
        → get_elem? g.channels q ≡ o
        → LinkSound
            (elim o as (λ _. SendProgress × Link) [
              | none ↦ (waiting, g)
              | some ch ↦ elim (send m ch) [
                | accepted ch' ↦ (
                  sent,
                  record g {
                    channels = set_elem g.channels q ch';
                    metrics = record_plane_queued p (plane_for_message m) g.metrics;
                  },
                )
                | full ↦ (waiting, g)
                | send_on_closed ↦ (crashed, g)
              ]
            ]).1
    at_place none e = s
    at_place (some ch) e = at_send ch (send m ch) e refl

-- The link that a failed send leaves behind, if the process survives it.
abbrev pub link_of : Link → Result LinkError Link → Link
link_of g (ok g') = g'
link_of g (err e) = g
link_of g panic = g

requeue-LinkSound :
    (p : Str) (m : PeerMessage) (q : ℕ) (g : Link)
    → m.send_attempts ≤ g.config.max_send_attempts
    → LinkSound g
    → (g' : Link) → requeue p m q g ≡ ok g'
    → LinkSound g'
unfolding requeue
requeue-LinkSound p m q g h s = at_place (get_elem? g.channels q) refl
  where
    limit : ℕ
    limit = g.config.max_send_attempts

    at_send :
        (ch : Channel) (o : SendOutcome)
        → get_elem? g.channels q ≡ some ch
        → send m ch ≡ o
        → (g' : Link)
        → (elim o as (λ _. Result LinkError Link) [
          | accepted ch' ↦ ok (record g { channels = set_elem g.channels q ch' })
          | full ↦ ok (drop_failed_message p m g)
          | send_on_closed ↦ panic
        ])
          ≡ ok g'
        → LinkSound g'
    at_send ch (accepted ch') e f g' r =
        let same : record g { channels = set_elem g.channels q ch' } ≡ g' = cc r in
        subst LinkSound same (
          Sound-set_elem limit g.channels q ch'
            (send-IsSound limit m ch ch' h (Sound-get_elem limit g.channels q ch s e) f) s)
    at_send ch full e f g' r =
        let same : drop_failed_message p m g ≡ g' = cc r in subst LinkSound same s
    at_send ch send_on_closed e f g' r = absurd (cc r)

    at_place :
        (o : Option Channel)
        → get_elem? g.channels q ≡ o
        → (g' : Link)
        → (elim o as (λ _. Result LinkError Link) [
          | none ↦ ok (drop_failed_message p m g)
          | some ch ↦ elim (send m ch) [
            | accepted ch' ↦ ok (record g { channels = set_elem g.channels q ch' })
            | full ↦ ok (drop_failed_message p m g)
            | send_on_closed ↦ panic
          ]
        ])
          ≡ ok g'
        → LinkSound g'
    at_place none e g' r =
        let same : drop_failed_message p m g ≡ g' = cc r in subst LinkSound same s
    at_place (some ch) e g' r = at_send ch (send m ch) e refl g' r

pub handle_send_failure-LinkSound :
    (p : Str) (m : PeerMessage) (q : ℕ) (g : Link)
    → LinkSound g
    → LinkSound (link_of g (handle_send_failure p m q g))
unfolding handle_send_failure
handle_send_failure-LinkSound p m q g s =
    elim (Bool-cases (ltb g.config.max_send_attempts (m.send_attempts + 1))) [
      | inl over ↦ simp over s
      | inr within ↦ simp within (requeued (requeue p again q counted) refl (ground arith))
    ]
  where
    again : PeerMessage
    again = increment_send_attempts m

    counted : Link
    counted = record g { metrics = record_plane_send_failure p (plane_for_message m) g.metrics }

    requeued :
        (r : Result LinkError Link)
        → requeue p again q counted ≡ r
        → again.send_attempts ≤ g.config.max_send_attempts
        → LinkSound (
            link_of g (elim r as (λ _. Result LinkError Link) [
              | ok g' ↦ ok (count_peer_failure p g')
              | err e ↦ err e
              | panic ↦ panic
            ]))
    requeued (ok g') e h = requeue-LinkSound p again q counted h s g' e
    requeued (err x) e h = s
    requeued panic e h = s
