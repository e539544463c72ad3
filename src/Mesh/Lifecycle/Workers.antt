-- ===== src/Mesh/Lifecycle/Workers.antt =====
-- The goroutines of a mesh node: Stop ends those of the last Start, Close does not.
use eventmesh_go.Prelude.{
  ℕ, Bool, true, false, Bool-cases, Option, none, some, List, [], ◌∷◌, ◌≡◌, refl, subst, inl, inr,
  ◌⊎◌, ◌==◌, ==_iff, ltb, length,
}
use eventmesh_go.Peer
use eventmesh_go.Peer.Link.{PeerNode}
use eventmesh_go.Peer.Lifecycle.{LifecycleError}
use eventmesh_go.Peer.Lifecycle.Invariant.{
  LifecycleSound, start-LifecycleSound, start_heartbeats-LifecycleSound,
}
use eventmesh_go.Mesh.Lifecycle.{
  LifecycleNode, Worker, start, cancel_workers, cancel_lifecycle, after_link, after_heartbeats,
  discovered,
}

-- Every worker is done, but those of this context.
abbrev pub OnlyLive : Option ℕ → List Worker → Type 0
OnlyLive context [] = Unit
OnlyLive context (worker ∷ workers) =
    ((worker.done ≡ true) ⊎ (context ≡ some worker.context)) × OnlyLive context workers

pub record NodeSound {S : Type 0} (n : LifecycleNode S) : Type 0 where
  pub link_sound : LifecycleSound n.link
  pub only_live : OnlyLive n.lifecycle_cancel n.workers
  pub idle : n.closed ≡ false → n.started ≡ false → n.lifecycle_cancel ≡ none
  pub ended :
      n.closed ≡ true
      → (n.started ≡ false)
        × (n.event_log.closed ≡ true)
        × (n.routing_table.closed ≡ true)
        × (n.link.closed ≡ true)

OnlyLive-cancel :
    (context : ℕ) (workers : List Worker)
    → OnlyLive (some context) workers
    → OnlyLive none (cancel_workers context workers)
unfolding cancel_workers
OnlyLive-cancel context [] h = tt
OnlyLive-cancel context (worker ∷ workers) h = elim (Bool-cases (worker.context == context)) [
  | inl same ↦ rw same (inl refl, OnlyLive-cancel context workers h.1)
  | inr other ↦ rw other (elim h.0 [
    | inl done ↦ (inl done, OnlyLive-cancel context workers h.1)
    | inr live ↦ absurd (cc ((==_iff worker.context context).1 (context_eq live), other))
  ])
]
  where
    context_eq : ◌≡◌ {A = Option ℕ} (some context) (some worker.context) → worker.context ≡ context
    context_eq e = cc e

pub OnlyLive-cancel_lifecycle :
    (context : Option ℕ) (workers : List Worker)
    → OnlyLive context workers
    → OnlyLive none (cancel_lifecycle context workers)
OnlyLive-cancel_lifecycle none workers h = h
OnlyLive-cancel_lifecycle (some context) workers h = OnlyLive-cancel context workers h

OnlyLive-done :
    (context : Option ℕ) (workers : List Worker) → OnlyLive none workers → OnlyLive context workers
OnlyLive-done context [] h = tt
OnlyLive-done context (worker ∷ workers) h = elim h.0 [
  | inl done ↦ (inl done, OnlyLive-done context workers h.1)
  | inr live ↦ absurd (cc live)
]

module _ {S : Type 0} (connect : PeerNode → S → Bool × S) where
  with_link-NodeSound :
      (n : LifecycleNode S) (link : Peer.Lifecycle.Lifecycle)
      → n.closed ≡ false
      → NodeSound n
      → LifecycleSound link
      → NodeSound (record n { link = link })
  with_link-NodeSound n link open_node s l = record {
    link_sound = l;
    only_live = s.only_live;
    idle = s.idle;
    ended = λ shut. absurd (cc (shut, open_node));
  }

  started-NodeSound :
      (outcome : Option LifecycleError × Peer.Lifecycle.Lifecycle) (n : LifecycleNode S)
      → n.closed ≡ false
      → n.started ≡ false
      → NodeSound n
      → LifecycleSound outcome.1
      → NodeSound (after_heartbeats connect outcome n).1
  started-NodeSound (some e, link) n open_node off s l = with_link-NodeSound n link open_node s l
  started-NodeSound (none, link) n open_node off s l = record {
    link_sound = l;
    only_live = (
      inr refl,
      OnlyLive-done (some n.next_context) n.workers
          (subst (λ context. OnlyLive context n.workers) (s.idle open_node off) s.only_live),
    );
    idle = λ e f. absurd (cc f);
    ended = λ shut. absurd (cc (shut, open_node));
  }

  discovered-NodeSound :
      (n : LifecycleNode S) (outcome : Option LifecycleError × Peer.Lifecycle.Lifecycle)
      → n.closed ≡ false
      → n.started ≡ false
      → NodeSound n
      → LifecycleSound outcome.1
      → NodeSound (after_heartbeats connect outcome (discovered connect n)).1
  discovered-NodeSound n outcome open_node off s l =
      elim (Bool-cases (ltb 0 (length n.seed_nodes))) [
        | inl seeds ↦ rw seeds (
            started-NodeSound outcome _ open_node off
              (record {
                link_sound = s.link_sound;
                only_live = s.only_live;
                idle = s.idle;
                ended = s.ended;
              })
              l)
        | inr no_seeds ↦ rw no_seeds (started-NodeSound outcome n open_node off s l)
      ]

  linked-NodeSound :
      (outcome : Option LifecycleError × Peer.Lifecycle.Lifecycle) (n : LifecycleNode S)
      → n.closed ≡ false
      → n.started ≡ false
      → NodeSound n
      → LifecycleSound outcome.1
      → NodeSound (after_link connect outcome n).1
  linked-NodeSound (some e, link) n open_node off s l = with_link-NodeSound n link open_node s l
  linked-NodeSound (none, link) n open_node off s l =
      discovered-NodeSound (record n { link = link }) (Peer.Lifecycle.start_heartbeats link)
        open_node off (with_link-NodeSound n link open_node s l)
        (start_heartbeats-LifecycleSound link l)

  pub start-NodeSound :
      (listens : Bool) (n : LifecycleNode S) → NodeSound n → NodeSound (start connect listens n).1
  unfolding start
  start-NodeSound listens n s = elim (Bool-cases n.closed) [
    | inl shut ↦ simp shut s
    | inr open_node ↦ elim (Bool-cases n.started) [
      | inl on ↦ simp (open_node, on) s
      | inr off ↦
          simp (open_node, off)
            (linked-NodeSound (Peer.Lifecycle.start listens n.link) n open_node off s
              (start-LifecycleSound listens n.link s.link_sound))
    ]
  ]
