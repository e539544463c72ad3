-- ===== src/EventLog/Contract.antt =====
-- pkg/eventlog/interfaces.go: what an open event log promises to a caller whose context is live. The
-- specification keeps a list of events for each topic and knows nothing of keys, maps or wrap-around.
use eventmesh_go.Prelude.{
  ℕ, suc, Str, is_empty, str_eq, List, [], ◌∷◌, ◌++◌, ◌≡◌, refl, length, take, drop, if◌then◌else◌,
  Result, ok, err, panic,
}
use eventmesh_go.Prelude.Words.{is_negative}
use eventmesh_go.EventLog.Event.{
  Event, with_offset, LogError, empty_topic, negative_offset, negative_max_count,
}

pub data Request : Type 0 where
  append : Str → Event → Request
  read : Str → ℕ → ℕ → Request
  end_offset : Str → Request

pub data Reply : Type 0 where
  stored : Event → Reply
  events : List Event → Reply
  offset : ℕ → Reply
  failed : LogError → Reply
  crashed : Reply

-- A result as a reply.
abbrev pub reply_of : {A : Type 0} → (A → Reply) → Result LogError A → Reply
reply_of f (ok a) = f a
reply_of f (err e) = failed e
reply_of f panic = crashed

abbrev pub Contents : Type 0
Contents = Str → List Event

abbrev pub no_contents : Contents
no_contents topic = []

-- One more event at the end of a topic.
abbrev pub extend : Str → Event → Contents → Contents
extend topic event c j = if str_eq topic j then c topic ++ event ∷ [] else c j

unfoldable pub spec_step : Request → Contents → Reply × Contents
spec_step (append topic event) c = if is_empty topic then (failed empty_topic, c) else (
  stored (with_offset (length (c topic)) event),
  extend topic (with_offset (length (c topic)) event) c,
)
spec_step (read topic start max_count) c = (
  (if is_empty topic
      then failed empty_topic
      else if is_negative start
      then failed negative_offset
      else if is_negative max_count
      then failed negative_max_count
      else events (take max_count (drop start (c topic)))),
  c,
)
spec_step (end_offset topic) c =
    ((if is_empty topic then failed empty_topic else offset (length (c topic))), c)

-- The replies to a sequence of requests.
unfoldable pub run : {S : Type 0} → (Request → S → Reply × S) → List Request → S → List Reply
run step [] s = []
run step (r ∷ rs) s = (step r s).0 ∷ run step rs (step r s).1

abbrev pub All : (Request → Type 0) → List Request → Type 0
All P [] = Unit
All P (r ∷ rs) = P r × All P rs

-- How an implementation stands to the contents: `Relates n` leaves room for `n` more requests.
pub record Simulation {S : Type 0} (step : Request → S → Reply × S) (Safe : Request → Type 0)
    : Type 1 where
  pub Relates : ℕ → S → Contents → Type 0
  pub respond :
      (n : ℕ) (r : Request) (s : S) (c : Contents)
      → Safe r
      → Relates (suc n) s c
      → (step r s).0 ≡ (spec_step r c).0
  pub follow :
      (n : ℕ) (r : Request) (s : S) (c : Contents)
      → Safe r
      → Relates (suc n) s c
      → Relates n (step r s).1 (spec_step r c).1

-- An implementation with a simulation gives the replies of the specification, request by request.
pub run-eq-spec :
    {S : Type 0} (step : Request → S → Reply × S) (Safe : Request → Type 0)
    (sim : Simulation step Safe) (rs : List Request) (s : S) (c : Contents)
    → All Safe rs
    → sim.Relates (length rs) s c
    → run step rs s ≡ run spec_step rs c
unfolding run
run-eq-spec step Safe sim [] s c safe rel = refl
run-eq-spec step Safe sim (r ∷ rs) s c safe rel =
    let first = sim.respond (length rs) r s c safe.0 rel in
    let rest = run-eq-spec step Safe sim rs _ _ safe.1 (sim.follow (length rs) r s c safe.0 rel) in
    λ i. first i ∷ rest i
