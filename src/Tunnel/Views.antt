-- ===== src/Tunnel/Views.antt =====
-- A session of realm/features/services/session.go seen as the sender of one byte stream and as
-- the receiver of the other, and what each critical section does to the two views.
use foilen_box.Prelude.{
  ℕ, ◌+◌, ◌≤◌, ◌≡◌, refl, ◌⊎◌, Bool, true, false, Option, none, some, List, ◌++◌, arith, length,
  drop, ltb, subst₂, if◌then◌else◌,
}
use foilen_box.Tunnel.{
  Session, Apply, Frame, data_frame, ack_frame, fin_frame, attached, stopped, more, writes, returns,
  waits, has_work, WriteResult, u64, sub_u64, next_chunk, send_end, attach, detach, force_detach,
  shutdown, grace_over, pump_local, next_frame, write_turn, begin_data, end_data, apply_ack,
  apply_fin,
}

pub record Sender : Type 0 where
  pub read : List ℕ
  pub buf : List ℕ
  pub base : ℕ
  pub sent : ℕ
  pub stream : Option ℕ

pub record Receiver : Type 0 where
  pub written : List ℕ
  pub applying : Option Apply
  pub recv : ℕ
  pub ack_sent : ℕ
  pub dead : Bool

abbrev pub sender : Session → Sender
sender s = record {
  read = s.conn.read;
  buf = s.send_buf;
  base = s.send_base;
  sent = s.send_sent;
  stream = s.stream;
}

abbrev pub receiver : Session → Receiver
receiver s = record {
  written = s.conn.written;
  applying = s.applying;
  recv = s.recv;
  ack_sent = s.ack_sent;
  dead = s.conn_dead;
}

abbrev pub grow : List ℕ → Sender → Sender
grow p s = record s { read = s.read ++ p; buf = s.buf ++ p }

abbrev pub unplug : Sender → Sender
unplug s = record s { stream = none }

-- The sender keeps its bytes; its stream stays or goes.
abbrev pub Kept : Session → Session → Type 0
Kept s t = ((sender t ≡ sender s) ⊎ (sender t ≡ unplug (sender s))) × (receiver t ≡ receiver s)

pub detach-Kept : (gen : ℕ) (s : Session) → Kept s (detach gen s).0
unfolding detach
detach-Kept gen s = ground arith

pub force_detach-Kept : (s : Session) → Kept s (force_detach s)
unfolding force_detach
force_detach-Kept s = ground arith

pub shutdown-Kept : (s : Session) → Kept s (shutdown s)
unfolding shutdown
shutdown-Kept s = ground arith

pub grace_over-Kept : (gen : ℕ) (s : Session) → Kept s (grace_over gen s)
unfolding grace_over
grace_over-Kept gen s = ground arith

-- A turn of the pump adds its chunk to both lists of the sender, or leaves them.
abbrev pub Grown : List ℕ → Session → Session → Type 0
Grown p s t = ((sender t ≡ sender s) ⊎ (sender t ≡ grow p (sender s))) × (receiver t ≡ receiver s)

pub pump_local-more :
    (p : List ℕ) (failed : Bool) (s t : Session) → pump_local p failed s ≡ more t → Grown p s t
unfolding pump_local
pump_local-more p failed s t h = ground arith

pub pump_local-stopped :
    (p : List ℕ) (failed : Bool) (s t : Session) → pump_local p failed s ≡ stopped t → Grown p s t
unfolding pump_local
pump_local-stopped p failed s t h = ground arith

pub begin_data_lem :
    (gen : ℕ) (p : List ℕ) (s t : Session)
    → begin_data gen p s ≡ some t
    → (sender t ≡ sender s)
      × (receiver t
          ≡ record (receiver s) { applying = some (record { payload = p; dead = s.conn_dead }) })
unfolding begin_data
begin_data_lem gen p s t h = ground arith

pub apply_fin_lem :
    (gen : ℕ) (s : Session)
    → ((sender (apply_fin gen s).0 ≡ sender s) ⊎ (sender (apply_fin gen s).0 ≡ unplug (sender s)))
      × ((receiver (apply_fin gen s).0 ≡ receiver s)
          ⊎ (receiver (apply_fin gen s).0 ≡ record (receiver s) { dead = true }))
unfolding apply_fin
apply_fin_lem gen s = ground arith

pub sender-end_data : (r : WriteResult) (s : Session) → sender (end_data r s) ≡ sender s
unfolding end_data
sender-end_data r s = ground arith

-- A turn of the writer acknowledges, sends the next bytes, or finishes.
pub data Wrote (s t : Session) : Frame → Type 0 where
  acks :
      sender t ≡ sender s
      → receiver t ≡ record (receiver s) { ack_sent = s.recv }
      → Wrote s t (ack_frame s.recv)
  sends :
      sender t ≡ record (sender s) { sent = u64 (s.send_sent + length (next_chunk s)) }
      → receiver t ≡ receiver s
      → Wrote s t (data_frame (next_chunk s))
  fins : sender t ≡ sender s → receiver t ≡ receiver s → Wrote s t fin_frame

next_frame-Wrote : (s : Session) → Wrote s (next_frame s).0 (next_frame s).1
unfolding next_frame
next_frame-Wrote s = go (ltb s.ack_sent s.recv) (ltb s.send_sent (send_end s)) refl refl
  where
    go :
        (b c : Bool)
        → ltb s.ack_sent s.recv ≡ b
        → ltb s.send_sent (send_end s) ≡ c
        → Wrote s (next_frame s).0 (next_frame s).1
    go true c p q = rw p (acks refl refl)
    go false true p q = rw (p, q) (sends refl refl)
    go false false p q = rw (p, q) (fins refl refl)

turn_writes :
    (b c : Bool) (x t : Session) (g f : Frame)
    → (if b then returns else if c then writes x g else waits) ≡ writes t f
    → (x ≡ t) × (g ≡ f)
turn_writes true c x t g f h = cc
turn_writes false true x t g f h = (cc, cc)
turn_writes false false x t g f h = cc

pub write_turn_lem :
    (gen : ℕ) (s t : Session) (f : Frame) → write_turn gen s ≡ writes t f → Wrote s t f
unfolding write_turn
write_turn_lem gen s t f h =
    let (e, k) = turn_writes _ (has_work s) (next_frame s).0 t (next_frame s).1 f h in
    subst₂ (Wrote s) e k (next_frame-Wrote s)

-- An acknowledgement frees bytes, or changes nothing.
pub apply_ack_lem :
    (gen off : ℕ) (s t : Session)
    → apply_ack gen off s ≡ some t
    → (receiver t ≡ receiver s)
      × ((sender t ≡ sender s)
          ⊎ ((s.send_base ≤ off)
              × (sender t ≡ record (sender s) {
                buf = drop (sub_u64 off s.send_base) s.send_buf;
                base = off;
              })))
unfolding apply_ack
apply_ack_lem gen off s t h = ground arith

pub attach_lem :
    (link n : ℕ) (s t : Session)
    → attach link n s ≡ attached t
    → (receiver t ≡ record (receiver s) { ack_sent = s.recv })
      × (sender t ≡ record (sender s) {
        buf = drop (sub_u64 n s.send_base) s.send_buf;
        base = n;
        sent = n;
        stream = some link;
      })
unfolding attach
attach_lem link n s t h = ground arith
