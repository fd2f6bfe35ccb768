-- ===== src/Tunnel.antt =====
-- realm/features/services/session.go: one end of a tunnel that survives the loss of its stream.
-- Bytes read from the local connection are buffered until the peer has acknowledged them, and a
-- new stream resumes at the offset that the peer reports.
--
-- Each function is one critical section under `s.mu`, with the calls on the connection and the
-- streams that its caller makes next. Streams are numbered by the link that they belong to.
-- Offsets are uint64 and wrap; the generation is an int that is never near its end.
-- `done` counts the closings of the `done` channel: a second one would panic.
pub mod Views
pub mod Flow
pub mod System
pub mod Resume
pub mod Safety
pub mod Race
pub mod Codec
pub mod Lifecycle
pub mod Bounds
pub mod Progress
mod Examples
use foilen_box.Prelude.{
  ℕ, suc, ◌+◌, ◌-◌, ◌*◌, ◌%◌, Bool, true, false, not, ◌&&◌, ◌||◌, Option, none, some, List, [],
  ◌++◌, length, take, drop, ltb, leb, ◌==◌, if◌then◌else◌,
}

abbrev pub u64 : ℕ → ℕ
u64 n = n % 18446744073709551616

abbrev pub frame_max : ℕ
frame_max = 32 * 1024

abbrev pub max_unacked : ℕ
max_unacked = 1024 * 1024

-- The local connection: what `pumpLocal` took from it, what `applyData` wrote to it, and whether
-- this side has closed it.
pub record Conn : Type 0 where
  pub read : List ℕ
  pub written : List ℕ
  pub closed : Bool

-- A call of `applyData` between its two critical sections; it holds `applyMu` all along.
pub record Apply : Type 0 where
  pub payload : List ℕ
  pub dead : Bool

pub record Session : Type 0 where
  pub conn : Conn
  pub applying : Option Apply
  pub timer : Option ℕ
  pub stream : Option ℕ
  pub gen : ℕ
  pub closed : Bool
  pub send_buf : List ℕ
  pub send_base : ℕ
  pub send_sent : ℕ
  pub ack_sent : ℕ
  pub recv : ℕ
  pub fin_queued : Bool
  pub fin_sent : Bool
  pub peer_fin : Bool
  pub conn_dead : Bool
  pub done : ℕ

unfoldable pub new_session : Session
new_session = record {
  conn = record { read = []; written = []; closed = false };
  applying = none;
  timer = none;
  stream = none;
  gen = 0;
  closed = false;
  send_buf = [];
  send_base = 0;
  send_sent = 0;
  ack_sent = 0;
  recv = 0;
  fin_queued = false;
  fin_sent = false;
  peer_fin = false;
  conn_dead = false;
  done = 0;
}

-- `s.sendBase + uint64(len(s.sendBuf))`
abbrev pub send_end : Session → ℕ
send_end s = u64 (s.send_base + length s.send_buf)

-- A difference of two uint64.
abbrev pub sub_u64 : ℕ → ℕ → ℕ
sub_u64 a b = (a + 18446744073709551616 - b) % 18446744073709551616

pub data Attached : Type 0 where
  attached : Session → Attached
  session_closed missing_bytes : Attached

-- The slice `s.sendBuf[peerRecv-s.sendBase:]` is in range whenever the guard above it lets it run.
unfoldable pub attach : ℕ → ℕ → Session → Attached
attach link peer_recv s =
    if s.closed
    then session_closed
    else if ltb peer_recv s.send_base || ltb (send_end s) peer_recv
    then missing_bytes
    else attached (record s {
      send_buf = drop (sub_u64 peer_recv s.send_base) s.send_buf;
      send_base = peer_recv;
      send_sent = peer_recv;
      ack_sent = s.recv;
      fin_sent = false;
      stream = some link;
      gen = s.gen + 1;
      timer = none;
    })

-- The grace timer is armed with the generation that it was started for.
unfoldable pub detach_locked : Session → Session
detach_locked s = record s { stream = none; gen = s.gen + 1; timer = some (s.gen + 1) }

abbrev pub is_none {ℓ} : {A : Type ℓ} → Option A → Bool
is_none none = true
is_none (some a) = false

-- The result says whether `onDetach` is called.
unfoldable pub detach : ℕ → Session → Session × Bool
unfolding detach_locked
detach gen s =
    if s.closed || not (s.gen == gen) || is_none s.stream
    then (s, false)
    else (detach_locked s, true)

unfoldable pub force_detach : Session → Session
unfolding detach_locked
force_detach s = if s.closed || is_none s.stream then s else detach_locked s

unfoldable pub shutdown : Session → Session
shutdown s = if s.closed then s else record s {
  closed = true;
  stream = none;
  timer = none;
  conn = record (s.conn) { closed = true };
  done = suc s.done;
}

-- The function given to `time.AfterFunc` in `detachLocked`, where `gen` is the armed generation.
unfoldable pub grace_over : ℕ → Session → Session
unfolding shutdown
grace_over gen s = if s.closed || not (s.gen == gen) then s else shutdown s

pub data Pumped : Type 0 where
  blocked : Pumped
  stopped more : Session → Pumped

queue_bytes : List ℕ → Session → Session
queue_bytes chunk s = record s {
  send_buf = s.send_buf ++ chunk;
  conn = record (s.conn) { read = s.conn.read ++ chunk };
}

-- What the loop does with an error from `conn.Read`.
pump_error : Bool → Session → Pumped
pump_error true s = stopped (record s { fin_queued = true })
pump_error false s = more s

-- One turn of `pumpLocal`, after `conn.Read` returned `chunk` and perhaps an error. The turn is
-- blocked while it would wait on the condition variable.
unfoldable pub pump_local : List ℕ → Bool → Session → Pumped
unfolding queue_bytes pump_error
pump_local chunk failed s =
    if ltb 0 (length chunk)
    then if leb max_unacked (length s.send_buf) && not s.closed
      then blocked
      else if s.closed
      then stopped s
      else pump_error failed (queue_bytes chunk s)
    else pump_error failed s

pub data Frame : Type 0 where
  data_frame : List ℕ → Frame
  ack_frame : ℕ → Frame
  fin_frame : Frame

unfoldable pub has_work : Session → Bool
has_work s =
    ltb s.ack_sent s.recv || ltb s.send_sent (send_end s) || (s.fin_queued && not s.fin_sent)

-- `n := copy(wbuf[5:], s.sendBuf[start:])`, with room for `frameMax` bytes.
abbrev pub next_chunk : Session → List ℕ
next_chunk s = take frame_max (drop (sub_u64 s.send_sent s.send_base) s.send_buf)

unfoldable pub next_frame : Session → Session × Frame
next_frame s =
    if ltb s.ack_sent s.recv
    then (record s { ack_sent = s.recv }, ack_frame s.recv)
    else if ltb s.send_sent (send_end s)
    then (
      record s { send_sent = u64 (s.send_sent + length (next_chunk s)) },
      data_frame (next_chunk s),
    )
    else (record s { fin_sent = true }, fin_frame)

pub data Turn : Type 0 where
  waits returns : Turn
  writes : Session → Frame → Turn

-- One turn of `writeLoop` up to the write of the frame.
unfoldable pub write_turn : ℕ → Session → Turn
unfolding has_work next_frame
write_turn gen s =
    if not (s.gen == gen) || s.closed
    then returns
    else if has_work s
    then writes (next_frame s).0 (next_frame s).1
    else waits

-- What `writeLoop` does once a FIN has been written.
unfoldable pub fin_written : ℕ → Session → Session
unfolding shutdown
fin_written gen s = if s.peer_fin && (s.gen == gen) then shutdown s else s

-- The first critical section of `applyData`; `none` where it returns false.
unfoldable pub begin_data : ℕ → List ℕ → Session → Option Session
begin_data gen p s =
    if s.closed || not (s.gen == gen)
    then none
    else some (record s { applying = some (record { payload = p; dead = s.conn_dead }) })

-- How `conn.Write(p)` ended: in full, or with an error after the first few bytes.
pub data WriteResult : Type 0 where
  wrote : WriteResult
  failed_after : ℕ → WriteResult

conn_write : WriteResult → List ℕ → Conn → Conn
conn_write wrote p c = record c { written = c.written ++ p }
conn_write (failed_after k) p c = record c { written = c.written ++ take k p; closed = true }

is_failure : WriteResult → Bool
is_failure wrote = false
is_failure (failed_after k) = true

-- The rest of `applyData`: the write, unless the connection is dead, and the second section.
end_apply : WriteResult → Apply → Session → Session
unfolding conn_write is_failure
end_apply r a s =
    let failed = not a.dead && is_failure r in
    record s {
      applying = none;
      conn = if a.dead then s.conn else conn_write r a.payload s.conn;
      recv = u64 (s.recv + length a.payload);
      conn_dead = s.conn_dead || failed;
      fin_queued = s.fin_queued || failed;
    }

unfoldable pub end_data : WriteResult → Session → Session
unfolding end_apply
end_data r s = elim s.applying [ none ↦ s | some a ↦ end_apply r a s ]

-- `none` where it returns false.
unfoldable pub apply_ack : ℕ → ℕ → Session → Option Session
apply_ack gen off s =
    if s.closed || not (s.gen == gen)
    then none
    else if ltb s.send_base off && leb off (send_end s)
    then some (record s { send_buf = drop (sub_u64 off s.send_base) s.send_buf; send_base = off })
    else some s

-- The result says whether `readLoop` returns.
unfoldable pub apply_fin : ℕ → Session → Session × Bool
unfolding shutdown
apply_fin gen s =
    if s.closed || not (s.gen == gen)
    then (s, true)
    else let t = record s {
      peer_fin = true;
      conn_dead = true;
      fin_queued = true;
      conn = record (s.conn) { closed = true };
    } in
      if s.fin_sent then (shutdown t, true) else (t, false)
