-- ===== src/Tunnel/Flow.antt =====
-- One direction of a tunnel between two sessions of realm/features/services/session.go: the
-- sender's bytes, the frames on the wire to the receiver, and the acknowledgements that come back.
pub mod Lists
pub mod Sending
pub mod Receiving
pub mod Applying
use foilen_box.Prelude.{
  ℕ, ◌+◌, ◌-◌, ◌≤◌, ◌<◌, ◌≡◌, refl, Bool, true, false, Option, none, some, List, [], ◌∷◌, ◌++◌,
  arith, length, take, drop, All, length-append, append_assoc,
}
use foilen_box.Tunnel.{Session, Apply, Frame, data_frame, ack_frame, fin_frame}
use foilen_box.Tunnel.Views.{Sender, Receiver}

-- The bytes of an `applyData` that has not returned.
abbrev pub chunk : Option Apply → List ℕ
chunk none = []
chunk (some a) = a.payload

abbrev pub frame_bytes : Frame → List ℕ
frame_bytes (data_frame p) = p
frame_bytes (ack_frame n) = []
frame_bytes fin_frame = []

abbrev pub wire_bytes : List Frame → List ℕ
wire_bytes [] = []
wire_bytes (f ∷ w) = frame_bytes f ++ wire_bytes w

-- No acknowledgement is above `n`.
abbrev pub AckBelow : ℕ → Frame → Type 0
AckBelow n (data_frame p) = Unit {0}
AckBelow n (ack_frame m) = m ≤ n
AckBelow n fin_frame = Unit {0}

-- How far the receiver will be once the call in flight returns, and once the wire is empty.
abbrev pub taken : Receiver → ℕ
taken r = r.recv + length (chunk r.applying)

abbrev pub reach : Receiver → List Frame → ℕ
reach r w = taken r + length (wire_bytes w)

-- `applyData` captured whether the connection was dead.
abbrev pub Captured : Option Apply → Bool → Type 0
Captured none d = Unit {0}
Captured (some a) d = a.dead ≡ d

-- `w` holds the frames on their way to the receiver, `v` those on their way back.
pub record Flow (link : ℕ) (s : Sender) (r : Receiver) (w v : List Frame) : Type 0 where
  pub small : length s.read < 18446744073709551616
  pub buffered : s.buf ≡ drop s.base s.read
  pub base_sent : s.base ≤ s.sent
  pub sent_read : s.sent ≤ length s.read
  pub base_recv : s.base ≤ r.recv
  pub room : reach r w ≤ length s.read
  pub held : chunk r.applying ++ drop (taken r) s.read ≡ drop r.recv s.read
  pub wired : wire_bytes w ++ drop (reach r w) s.read ≡ drop (taken r) s.read
  pub live : s.stream ≡ some link → s.sent ≡ reach r w
  pub intact : r.dead ≡ false → r.written ++ drop r.recv s.read ≡ s.read
  pub ahead : List ℕ
  pub prefix : r.written ++ ahead ≡ s.read
  pub captured : Captured r.applying r.dead
  pub acked : r.ack_sent ≤ r.recv
  pub acks : All (AckBelow r.recv) v
