-- ===== src/Tunnel/System.antt =====
-- The two ends of a tunnel and the stream between them: `a` opened the tunnel (`forward` and
-- `resumeTunnel` in realm/features/services/feature.go), `b` serves it (`handleTunnelStream` and
-- `resumeSession`). Frames arrive in order, and any that are on the way are lost with their stream.
-- The environment chooses the order of the steps: reads, writes, failures, shutdowns, reconnects.
use foilen_box.Prelude.{
  ℕ, suc, ◌+◌, ◌≤◌, ◌<◌, ◌≡◌, Bool, Option, none, some, List, [], ◌∷◌, ◌++◌, length,
}
use foilen_box.Tunnel.{
  Session, Frame, data_frame, ack_frame, fin_frame, attached, stopped, more, writes, WriteResult,
  frame_max, new_session, attach, detach, force_detach, shutdown, grace_over, pump_local,
  write_turn, begin_data, end_data, apply_ack, apply_fin,
}

pub record System : Type 0 where
  pub a : Session
  pub b : Session
  pub ab : List Frame
  pub ba : List Frame
  pub link : ℕ
  pub pending : Option ℕ

-- A step of one session that neither reads nor writes a frame. The read buffer holds
-- `frameMax` bytes, and fewer than 2^64 bytes are read in all.
pub data Local (s : Session) : Session → Type 0 where
  pumped :
      {t : Session} (p : List ℕ) (failed : Bool)
      → length p ≤ frame_max
      → length s.conn.read + length p < 18446744073709551616
      → pump_local p failed s ≡ more t
      → Local s t
  pump_ended :
      {t : Session} (p : List ℕ) (failed : Bool)
      → length p ≤ frame_max
      → length s.conn.read + length p < 18446744073709551616
      → pump_local p failed s ≡ stopped t
      → Local s t
  applied : (r : WriteResult) → Local s (end_data r s)
  detached : (gen : ℕ) → Local s (detach gen s).0
  forced : Local s (force_detach s)
  expired : (gen : ℕ) → Local s (grace_over gen s)
  shut : Local s (shutdown s)

-- `Ready` is what holds of the system when `resumeSession` attaches. A session with no stream has
-- no loop of its own generation. `serve` reports the offset of `b`, and `accept` is told it.
pub data Step (Ready : System → Type 0) (s : System) : System → Type 0 where
  local_a : {t : Session} → Local s.a t → Step Ready s (record s { a = t })
  local_b : {t : Session} → Local s.b t → Step Ready s (record s { b = t })
  write_a :
      {t : Session} {f : Frame}
      → s.a.stream ≡ some s.link
      → write_turn s.a.gen s.a ≡ writes t f
      → Step Ready s (record s { a = t; ab = s.ab ++ f ∷ [] })
  write_b :
      {t : Session} {f : Frame}
      → s.b.stream ≡ some s.link
      → write_turn s.b.gen s.b ≡ writes t f
      → Step Ready s (record s { b = t; ba = s.ba ++ f ∷ [] })
  data_a :
      {t : Session} {p : List ℕ} {w : List Frame}
      → s.ba ≡ data_frame p ∷ w
      → s.a.stream ≡ some s.link
      → s.a.applying ≡ none
      → begin_data s.a.gen p s.a ≡ some t
      → Step Ready s (record s { a = t; ba = w })
  data_b :
      {t : Session} {p : List ℕ} {w : List Frame}
      → s.ab ≡ data_frame p ∷ w
      → s.b.stream ≡ some s.link
      → s.b.applying ≡ none
      → begin_data s.b.gen p s.b ≡ some t
      → Step Ready s (record s { b = t; ab = w })
  ack_a :
      {t : Session} {n : ℕ} {w : List Frame}
      → s.ba ≡ ack_frame n ∷ w
      → s.a.stream ≡ some s.link
      → apply_ack s.a.gen n s.a ≡ some t
      → Step Ready s (record s { a = t; ba = w })
  ack_b :
      {t : Session} {n : ℕ} {w : List Frame}
      → s.ab ≡ ack_frame n ∷ w
      → s.b.stream ≡ some s.link
      → apply_ack s.b.gen n s.b ≡ some t
      → Step Ready s (record s { b = t; ab = w })
  fin_a :
      {w : List Frame}
      → s.ba ≡ fin_frame ∷ w
      → s.a.stream ≡ some s.link
      → s.a.applying ≡ none
      → Step Ready s (record s { a = (apply_fin s.a.gen s.a).0; ba = w })
  fin_b :
      {w : List Frame}
      → s.ab ≡ fin_frame ∷ w
      → s.b.stream ≡ some s.link
      → s.b.applying ≡ none
      → Step Ready s (record s { b = (apply_fin s.b.gen s.b).0; ab = w })
  serve :
      {t : Session}
      → s.a.stream ≡ none
      → s.a.applying ≡ none
      → s.b.stream ≡ none
      → Ready s
      → attach (suc s.link) s.a.recv s.b ≡ attached t
      → Step Ready s
          (record s { b = t; ab = []; ba = []; link = suc s.link; pending = some s.b.recv })
  accept :
      {t : Session} {n : ℕ}
      → s.pending ≡ some n
      → attach s.link n s.a ≡ attached t
      → Step Ready s (record s { a = t; pending = none })

unfoldable pub start : System
unfolding new_session
start = record { a = new_session; b = new_session; ab = []; ba = []; link = 0; pending = none }

pub data Reach (Ready : System → Type 0) : System → Type 0 where
  here : Reach Ready start
  next : {s t : System} → Reach Ready s → Step Ready s t → Reach Ready t

-- No call of `applyData` is in flight at the end that serves.
abbrev pub Settled : System → Type 0
Settled s = s.b.applying ≡ none

-- What the code waits for when it has found no stream to detach: nothing.
abbrev pub Always : System → Type 0
Always s = Unit {0}
