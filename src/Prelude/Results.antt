-- ===== src/Prelude/Results.antt =====
-- What a Go function hands back: a value, an error value, or a run-time panic.

pub data Result (E A : Type 0) : Type 0 where
  ok : A → Result E A
  err : E → Result E A
  panic : Result E A

-- What `ctx.Err()` can be once a context is done.
pub data ContextError : Type 0 where
  canceled deadline_exceeded : ContextError
