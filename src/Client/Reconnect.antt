-- ===== src/Client/Reconnect.antt =====
-- pkg/httpclient/streaming.go: the loop that keeps a stream connected, and its end.
use eventmesh_go.Prelude.{
  ℕ, zero, suc, ◌≤◌, Str, Bool, not, ◌&&◌, Option, none, some, false, [], ◌∷◌, ◌≡◌, ltb, leb,
  if◌then◌else◌,
}
use eventmesh_go.Prelude.Words.{is_negative}
use eventmesh_go.Prelude.Maps.{Map, insert}
use eventmesh_go.Client.{StreamConfig}

-- What a round meets: whether the context is done at its start, while an error of the subscriptions
-- is reported, while an error of the connection is reported, and while it waits; what
-- ensureStreamSubscriptions and connectAndStream return, `none` and `true` for an error; and whether,
-- once the limit is reached, the errors channel ever takes the report or the context is ever done. The
-- other reports have a default and wait for nobody.
pub record Round : Type 0 where
  pub done_at_start : Bool
  pub ensured : Option (Map Str)
  pub done_ensuring : Bool
  pub connect_failed : Bool
  pub done_connected : Bool
  pub limit_reported : Bool
  pub done_waiting : Bool

-- What the goroutine keeps, and whether it is stuck in the report of the limit.
pub record Streaming : Type 0 where
  pub temporary_subscriptions : Map Str
  pub connections : ℕ
  pub stuck : Bool

-- `for topic, subscriptionID := range subscriptions`
abbrev pub remember : Map Str → Map Str → Map Str
remember kept [] = kept
remember kept ((topic, id) ∷ more) = remember (insert topic id kept) more

abbrev pub connect_round :
    StreamConfig → Round → ℕ → Streaming → (Streaming → Option Streaming) → Option Streaming
connect_round config round attempts st rest =
    let connected : Streaming = record st { connections = suc st.connections } in
    if round.connect_failed && round.done_connected
    then some connected
    else if not (is_negative config.max_reconnect_attempts)
        && ltb 0 config.max_reconnect_attempts
        && leb config.max_reconnect_attempts attempts
    then some (record connected { stuck = not round.limit_reported })
    else if round.done_waiting
    then some connected
    else rest connected

abbrev pub ensure_round :
    StreamConfig
    → Round
    → Option (Map Str)
    → ℕ
    → Streaming
    → (Streaming → Option Streaming)
    → Option Streaming
ensure_round config round none attempts st rest =
    if round.done_ensuring then some st else connect_round config round attempts st rest
ensure_round config round (some created) attempts st rest =
    connect_round config round attempts
      (record st { temporary_subscriptions = remember st.temporary_subscriptions created }) rest

-- startStreaming, from the given number of attempts on; `none` if the fuel runs out before it ends or
-- is stuck.
unfoldable pub start_streaming : StreamConfig → (ℕ → Round) → ℕ → ℕ → Streaming → Option Streaming
start_streaming config rounds zero attempts st = none
start_streaming config rounds (suc fuel) attempts st =
    if (rounds attempts).done_at_start
    then some st
    else ensure_round config (rounds attempts) (rounds attempts).ensured attempts st
        (start_streaming config rounds fuel (suc attempts))

-- The loop has ended, after at most `n` connections, and the goroutine has returned.
pub record EndsWithin (n : ℕ) (outcome : Option Streaming) : Type 0 where
  pub last : Streaming
  pub ended : outcome ≡ some last
  pub few : last.connections ≤ n
  pub returned : last.stuck ≡ false
