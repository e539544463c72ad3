-- ===== src/Peer/Channel.antt =====
-- Go channels of messages, by reference: a queue is a place in a store of channels, so that a sender
-- and the link may hold the same one.
use eventmesh_go.Prelude.{
  ℕ, zero, suc, ◌≤◌, Bool, true, false, some, List, [], ◌∷◌, ◌++◌, ◌≡◌, refl, subst, ◌∙◌, length,
  length-append, if◌then◌else◌, ltb, ltb→lt, ◌==◌, arith, Bool-cases, inl, inr, get_elem?,
}
use eventmesh_go.Peer.Messages.{PeerMessage}

pub record Channel : Type 0 where
  pub buffer : List PeerMessage
  pub capacity : ℕ
  pub closed : Bool

-- make(chan PeerMessage, n)
abbrev pub new_channel : ℕ → Channel
new_channel n = record { buffer = []; capacity = n; closed = false }

abbrev pub close_channel : Channel → Channel
close_channel ch = record ch { closed = true }

-- What a send does at once.
pub data SendOutcome : Type 0 where
  accepted : Channel → SendOutcome
  full : SendOutcome
  send_on_closed : SendOutcome

-- `ch <- m`
unfoldable pub send : PeerMessage → Channel → SendOutcome
send m ch =
    if ch.closed
    then send_on_closed
    else if ltb (length ch.buffer) ch.capacity
    then accepted (record ch { buffer = ch.buffer ++ m ∷ [] })
    else full

-- What a receive does at once.
pub data ReceiveOutcome : Type 0 where
  taken : PeerMessage → Channel → ReceiveOutcome
  no_more : ReceiveOutcome
  nothing_yet : ReceiveOutcome

-- `m, ok := <-ch`
unfoldable pub receive : Channel → ReceiveOutcome
receive ch = elim ch.buffer [
  | m ∷ rest ↦ taken m (record ch { buffer = rest })
  | [] ↦ if ch.closed then no_more else nothing_yet
]

abbrev pub set_elem : List Channel → ℕ → Channel → List Channel
set_elem [] i ch = []
set_elem (x ∷ xs) zero ch = ch ∷ xs
set_elem (x ∷ xs) (suc i) ch = x ∷ set_elem xs i ch

pub get_elem?-set_elem :
    (store : List Channel) (i j : ℕ) (old ch : Channel)
    → get_elem? store j ≡ some old
    → get_elem? (set_elem store i ch) j ≡ (if i == j then some ch else some old)
get_elem?-set_elem [] i j old ch e = absurd cc
get_elem?-set_elem (x ∷ store) zero zero old ch e = ground arith
get_elem?-set_elem (x ∷ store) zero (suc j) old ch e = ground arith
get_elem?-set_elem (x ∷ store) (suc i) zero old ch e = ground arith
get_elem?-set_elem (x ∷ store) (suc i) (suc j) old ch e =
    get_elem?-set_elem store i j old ch e ∙ ground arith

-- No message has failed more often than `limit`.
abbrev pub Tried : ℕ → List PeerMessage → Type 0
Tried limit [] = Unit
Tried limit (m ∷ ms) = (m.send_attempts ≤ limit) × Tried limit ms

Tried-append :
    (limit : ℕ) (ms : List PeerMessage) (m : PeerMessage)
    → Tried limit ms
    → m.send_attempts ≤ limit
    → Tried limit (ms ++ m ∷ [])
Tried-append limit [] m t h = (h, tt)
Tried-append limit (x ∷ ms) m t h = (t.0, Tried-append limit ms m t.1 h)

-- A channel holds no more than it has room for, and no message that was tried too often.
pub record IsSound (limit : ℕ) (ch : Channel) : Type 0 where
  pub fits : length ch.buffer ≤ ch.capacity
  pub tried : Tried limit ch.buffer

abbrev pub Sound : ℕ → List Channel → Type 0
Sound limit [] = Unit
Sound limit (ch ∷ store) = IsSound limit ch × Sound limit store

module _ (limit : ℕ) where
  pub Sound-set_elem :
      (store : List Channel) (i : ℕ) (ch : Channel)
      → IsSound limit ch
      → Sound limit store
      → Sound limit (set_elem store i ch)
  Sound-set_elem [] i ch h b = tt
  Sound-set_elem (x ∷ store) zero ch h b = (h, b.1)
  Sound-set_elem (x ∷ store) (suc i) ch h b = (b.0, Sound-set_elem store i ch h b.1)

  pub Sound-append :
      (store : List Channel) (n : ℕ) → Sound limit store → Sound limit (store ++ new_channel n ∷ [])
  Sound-append [] n b = (record { fits = omega arith; tried = tt }, tt)
  Sound-append (x ∷ store) n b = (b.0, Sound-append store n b.1)

  pub Sound-get_elem :
      (store : List Channel) (i : ℕ) (ch : Channel)
      → Sound limit store
      → get_elem? store i ≡ some ch
      → IsSound limit ch
  Sound-get_elem [] i ch b e = absurd cc
  Sound-get_elem (x ∷ store) zero ch b e = let same : x ≡ ch = cc in subst (IsSound limit) same b.0
  Sound-get_elem (x ∷ store) (suc i) ch b e = Sound-get_elem store i ch b.1 e

  pub close-IsSound : (ch : Channel) → IsSound limit ch → IsSound limit (close_channel ch)
  close-IsSound ch h = record { fits = h.fits; tried = h.tried }

  pub send-IsSound :
      (m : PeerMessage) (ch ch' : Channel)
      → m.send_attempts ≤ limit
      → IsSound limit ch
      → send m ch ≡ accepted ch'
      → IsSound limit ch'
  unfolding send
  send-IsSound m ch ch' h s e = elim (Bool-cases ch.closed) [
    | inl shut ↦ absurd (cc (rw (shut, if◌then◌else◌) at e))
    | inr still ↦ elim (Bool-cases (ltb (length ch.buffer) ch.capacity)) [
      | inl room ↦
          let same : record ch { buffer = ch.buffer ++ m ∷ [] } ≡ ch' =
            cc (simp (still, room) at e) in
          subst (IsSound limit) same (record {
            fits = omega (
              arith,
              length-append {0} ch.buffer (m ∷ []),
              ltb→lt (length ch.buffer) ch.capacity room,
            );
            tried = Tried-append limit ch.buffer m s.tried h;
          })
      | inr none_left ↦ absurd (cc (simp (still, none_left) at e))
    ]
  ]

  pub receive-IsSound :
      (ch ch' : Channel) (m : PeerMessage)
      → IsSound limit ch
      → receive ch ≡ taken m ch'
      → IsSound limit ch'
  unfolding receive
  receive-IsSound ch ch' m s e = received ch.buffer refl s.fits s.tried
    where
      received :
          (b : List PeerMessage)
          → ch.buffer ≡ b
          → length b ≤ ch.capacity
          → Tried limit b
          → IsSound limit ch'
      received [] q f t = absurd (ground arith)
      received (x ∷ rest) q f t =
          let same : record ch { buffer = rest } ≡ ch' = ground arith in
          subst (IsSound limit) same (record { fits = omega arith; tried = t.1 })
