-- ===== src/Mesh/Publish/Sent.antt =====
-- Deliveries that leave no failure have put the event into every local subscriber's channel.
use eventmesh_go.Prelude.{
  ℕ, suc, ◌≤◌, Str, str_eq, str_eq_iff, Bool, true, false, Option, none, some, List, [], ◌∷◌,
  length, if◌then◌else◌, ltb, ContextError, ◌≡◌, refl, sym, ap, subst, ◌∙◌, arith, Bool-cases, inl,
  inr, In, In-append_left, In-append_right,
}
use eventmesh_go.Prelude.Maps.{Map, lookup, insert, lookup-insert, lookup-insert_self}
use eventmesh_go.EventLog.Event.{Event, copy}
use eventmesh_go.Routing.Table.{Subscriber, SubscriberType, local_client, peer_node}
use eventmesh_go.Mesh.Publish.{
  TrustedClient, deliver_event, channel_capacity, DeliveryResult, count_delivery, deliver_found,
  deliver_to, deliver_loop,
}

-- The events that wait in the channel of a client.
abbrev pub channel_of : Option TrustedClient → List Event
channel_of none = []
channel_of (some c) = c.event_chan

abbrev pub pending : Map TrustedClient → Str → List Event
pending clients id = channel_of (lookup id clients)

-- What waits stays, and failures stay counted.
Grows : DeliveryResult × Map TrustedClient → DeliveryResult × Map TrustedClient → Type 0
Grows x y =
    (x.0.local_failures ≤ y.0.local_failures)
    × ((e : Event) (id : Str) → In e (pending x.1 id) → In e (pending y.1 id))

deliver_event-pending :
    (e x : Event) (c : TrustedClient) → In x c.event_chan → In x (deliver_event e c).1.event_chan
unfolding deliver_event
deliver_event-pending e x c i = elim (Bool-cases (ltb (length c.event_chan) channel_capacity)) [
  | inl room ↦ rw (room, if◌then◌else◌) (In-append_left x c.event_chan (copy e ∷ []) i)
  | inr full ↦ rw (full, if◌then◌else◌) i
]

deliver_event-sent :
    (e : Event) (c : TrustedClient)
    → (deliver_event e c).0 ≡ true
    → In (copy e) (deliver_event e c).1.event_chan
unfolding deliver_event
deliver_event-sent e c h = elim (Bool-cases (ltb (length c.event_chan) channel_capacity)) [
  | inl room ↦
      rw (room, if◌then◌else◌) (In-append_right (copy e) c.event_chan (copy e ∷ []) (inl refl))
  | inr full ↦ absurd (cc (rw (full, if◌then◌else◌) at h))
]

pending-insert :
    (x : Event) (id j : Str) (c d : TrustedClient) (clients : Map TrustedClient)
    → lookup id clients ≡ some c
    → (In x c.event_chan → In x d.event_chan)
    → In x (pending clients j)
    → In x (pending (insert id d clients) j)
pending-insert x id j c d clients at more i = elim (Bool-cases (str_eq id j)) [
  | inl same ↦
      let key = (str_eq_iff id j).0 same in
      subst (λ o. In x (channel_of o)) (sym (lookup-insert id j d clients))
        (rw (same, if◌then◌else◌)
          (more (subst (λ o. In x (channel_of o)) (ap (λ k. lookup k clients) (sym key) ∙ at) i)))
  | inr other ↦
      subst (λ o. In x (channel_of o)) (sym (lookup-insert id j d clients))
        (rw (other, if◌then◌else◌) i)
]

count_delivery-failures :
    (b : Bool) (id : Str) (r : DeliveryResult)
    → r.local_failures ≤ (count_delivery b id r).local_failures
count_delivery-failures true id r = omega arith
count_delivery-failures false id r = omega arith

deliver_found-Grows :
    (o : Option TrustedClient) (id object : Str) (e : Event) (r : DeliveryResult)
    (clients : Map TrustedClient)
    → lookup object clients ≡ o
    → Grows (r, clients) (deliver_found o id object e r clients)
unfolding Grows
deliver_found-Grows none id object e r clients h = (omega arith, λ x j i. i)
deliver_found-Grows (some c) id object e r clients h = (
  count_delivery-failures (deliver_event e c).0 id r,
  (λ x j.
      pending-insert x object j c (deliver_event e c).1 clients h (deliver_event-pending e x c)),
)

-- A delivery that leaves no failure has put a copy of the event into the channel.
deliver_found-sent :
    (o : Option TrustedClient) (id object : Str) (e : Event) (r : DeliveryResult)
    (clients : Map TrustedClient)
    → (deliver_found o id object e r clients).0.local_failures ≡ 0
    → In (copy e) (pending (deliver_found o id object e r clients).1 object)
deliver_found-sent none id object e r clients h = absurd (omega arith)
deliver_found-sent (some c) id object e r clients h =
    subst (λ o. In (copy e) (channel_of o))
      (sym (lookup-insert_self object (deliver_event e c).1 clients))
      (deliver_event-sent e c (sent (deliver_event e c).0 h))
  where
    sent : (b : Bool) → (count_delivery b id r).local_failures ≡ 0 → b ≡ true
    sent true f = refl
    sent false f = absurd (omega arith)

deliver_to-Grows :
    (s : Subscriber) (e : Event) (r : DeliveryResult) (clients : Map TrustedClient)
    → Grows (r, clients) (deliver_to s e r clients)
unfolding Grows
deliver_to-Grows s e r clients = grows s.kind
  where
    grows :
        (k : SubscriberType)
        → Grows
            (r, clients)
            (elim k as (λ _. DeliveryResult × Map TrustedClient) [
              | local_client ↦ deliver_found (lookup s.object clients) s.id s.object e r clients
              | peer_node ↦ (r, clients)
            ])
    grows local_client =
        deliver_found-Grows (lookup s.object clients) s.id s.object e r clients refl
    grows peer_node = (omega arith, λ x j i. i)

deliver_loop-Grows :
    (ctx : ℕ → Option ContextError) (i : ℕ) (e : Event) (subscribers : List Subscriber)
    (r : DeliveryResult) (clients : Map TrustedClient)
    → ((j : ℕ) → ctx j ≡ none)
    → Grows (r, clients) (deliver_loop ctx i e subscribers r clients)
unfolding deliver_loop Grows
deliver_loop-Grows ctx i e [] r clients live = (omega arith, λ x j i. i)
deliver_loop-Grows ctx i e (s ∷ rest) r clients live =
    let (f, g) = deliver_to-Grows s e r clients in
    let (f', g') =
      deliver_loop-Grows ctx (suc i) e rest (deliver_to s e r clients).0
        (deliver_to s e r clients).1 live in
    rw (live i, deliver_loop) (omega (arith, f, f'), λ x j i. g' x j (g x j i))

deliver_loop-cons :
    (ctx : ℕ → Option ContextError) (i : ℕ) (e : Event) (t : Subscriber) (rest : List Subscriber)
    (r : DeliveryResult) (clients : Map TrustedClient)
    → ctx i ≡ none
    → deliver_loop ctx i e (t ∷ rest) r clients
      ≡ deliver_loop ctx (suc i) e rest (deliver_to t e r clients).0 (deliver_to t e r clients).1
unfolding deliver_loop
deliver_loop-cons ctx i e t rest r clients live = rw (live, deliver_loop) refl

deliver_to-sent :
    (s : Subscriber) (e : Event) (r : DeliveryResult) (clients : Map TrustedClient)
    → s.kind ≡ local_client
    → (deliver_to s e r clients).0.local_failures ≡ 0
    → In (copy e) (pending (deliver_to s e r clients).1 s.object)
deliver_to-sent s e r clients k h = sent s.kind k h
  where
    sent :
        (q : SubscriberType)
        → q ≡ local_client
        → (elim q as (λ _. DeliveryResult × Map TrustedClient) [
          | local_client ↦ deliver_found (lookup s.object clients) s.id s.object e r clients
          | peer_node ↦ (r, clients)
        ]).0.local_failures
          ≡ 0
        → In (copy e) (
            pending
              (elim q as (λ _. DeliveryResult × Map TrustedClient) [
                | local_client ↦ deliver_found (lookup s.object clients) s.id s.object e r clients
                | peer_node ↦ (r, clients)
              ]).1
              s.object)
    sent local_client q z = deliver_found-sent (lookup s.object clients) s.id s.object e r clients z
    sent peer_node q z = absurd cc

-- The first delivery of a loop, and what becomes of it.
head_sent :
    (ctx : ℕ → Option ContextError) (i : ℕ) (e : Event) (rest : List Subscriber)
    (r : DeliveryResult) (clients : Map TrustedClient) (s : Subscriber)
    → ((j : ℕ) → ctx j ≡ none)
    → (deliver_loop ctx
        (suc i)
        e
        rest
        (deliver_to s e r clients).0
        (deliver_to s e r clients).1).0.local_failures
      ≡ 0
    → s.kind ≡ local_client
    → In (copy e) (
        pending
          (deliver_loop ctx
            (suc i)
            e
            rest
            (deliver_to s e r clients).0
            (deliver_to s e r clients).1).1
          s.object)
unfolding Grows
head_sent ctx i e rest r clients s live h k =
    let (f, g) =
      deliver_loop-Grows ctx (suc i) e rest (deliver_to s e r clients).0
        (deliver_to s e r clients).1 live in
    g (copy e) s.object (deliver_to-sent s e r clients k (omega (arith, f, h)))

-- A loop that leaves no failure has put a copy of the event into every local subscriber's channel.
pub deliver_loop-sent :
    (ctx : ℕ → Option ContextError) (i : ℕ) (e : Event) (subscribers : List Subscriber)
    (r : DeliveryResult) (clients : Map TrustedClient) (s : Subscriber)
    → ((j : ℕ) → ctx j ≡ none)
    → (deliver_loop ctx i e subscribers r clients).0.local_failures ≡ 0
    → In s subscribers
    → s.kind ≡ local_client
    → In (copy e) (pending (deliver_loop ctx i e subscribers r clients).1 s.object)
deliver_loop-sent ctx i e [] r clients s live h there k = absurd there
deliver_loop-sent ctx i e (t ∷ rest) r clients s live h (inl here) k =
    let step = deliver_loop-cons ctx i e t rest r clients (live i) in
    subst (λ x. In (copy e) (pending x.1 s.object)) (sym step)
      (subst
        (λ u. In (copy e) (
          pending
            (deliver_loop ctx (suc i) e rest (deliver_to u e r clients).0
              (deliver_to u e r clients).1).1
            s.object))
        (sym here)
        (head_sent ctx i e rest r clients s live
          (subst
            (λ u.
              (deliver_loop ctx (suc i) e rest (deliver_to u e r clients).0
                (deliver_to u e r clients).1).0.local_failures
              ≡ 0)
            here (ap (λ x. x.0.local_failures) (sym step) ∙ h))
          k))
deliver_loop-sent ctx i e (t ∷ rest) r clients s live h (inr later) k =
    let step = deliver_loop-cons ctx i e t rest r clients (live i) in
    subst (λ x. In (copy e) (pending x.1 s.object)) (sym step)
      (deliver_loop-sent ctx (suc i) e rest (deliver_to t e r clients).0
        (deliver_to t e r clients).1 s live (ap (λ x. x.0.local_failures) (sym step) ∙ h) later k)
