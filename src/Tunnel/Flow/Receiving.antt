-- ===== src/Tunnel/Flow/Receiving.antt =====
-- Steps of the receiver: `applyData` in its two critical sections, a dead connection, and the
-- acknowledgements that it sends.
use foilen_box.Prelude.{
  ℕ, ◌+◌, ◌≡◌, refl, sym, ap, ◌∙◌, true, none, some, List, [], ◌∷◌, ◌++◌, arith, length, drop,
  length-append, append_assoc,
}
use foilen_box.Tunnel.Views.{Sender, Receiver}
use foilen_box.Tunnel.Flow.{Flow, wire_bytes, frame_bytes, reach, taken, chunk, AckBelow}
use foilen_box.Tunnel.{Frame, data_frame, ack_frame}
use foilen_box.Tunnel.Flow.Lists.{drop_split, AckBelow-snoc}

module _ {link : ℕ} {s : Sender} {r : Receiver} {w v : List Frame} where
  pub take_plain : (f : Frame) → frame_bytes f ≡ [] → Flow link s r (f ∷ w) v → Flow link s r w v
  take_plain f e flow = record {
    small = flow.small;
    buffered = flow.buffered;
    base_sent = flow.base_sent;
    sent_read = flow.sent_read;
    base_recv = flow.base_recv;
    room = rw e at (flow.room);
    held = flow.held;
    wired = rw e at (flow.wired);
    live = rw e at (flow.live);
    intact = flow.intact;
    ahead = flow.ahead;
    prefix = flow.prefix;
    captured = flow.captured;
    acked = flow.acked;
    acks = flow.acks;
  }

  pub take_ack : (f : Frame) → Flow link s r w (f ∷ v) → Flow link s r w v
  take_ack f flow = record {
    small = flow.small;
    buffered = flow.buffered;
    base_sent = flow.base_sent;
    sent_read = flow.sent_read;
    base_recv = flow.base_recv;
    room = flow.room;
    held = flow.held;
    wired = flow.wired;
    live = flow.live;
    intact = flow.intact;
    ahead = flow.ahead;
    prefix = flow.prefix;
    captured = flow.captured;
    acked = flow.acked;
    acks = flow.acks.1;
  }

  -- The first section of `applyData`.
  pub begin :
      (p : List ℕ)
      → r.applying ≡ none
      → Flow link s r (data_frame p ∷ w) v
      → Flow link s (record r { applying = some (record { payload = p; dead = r.dead }) }) w v
  begin p idle flow = record {
    small = flow.small;
    buffered = flow.buffered;
    base_sent = flow.base_sent;
    sent_read = flow.sent_read;
    base_recv = flow.base_recv;
    room = omega (arith, same);
    held = rw rest after;
    wired = rw (← same) (sym rest);
    live = λ e. flow.live e ∙ same;
    intact = flow.intact;
    ahead = flow.ahead;
    prefix = flow.prefix;
    captured = refl;
    acked = flow.acked;
    acks = flow.acks;
  }
    where
      same : reach r (data_frame p ∷ w) ≡ r.recv + length p + length (wire_bytes w)
      same = omega (arith, length-append p (wire_bytes w), ap (λ a. length (chunk a)) idle)

      start : taken r ≡ r.recv
      start = omega (arith, ap (λ a. length (chunk a)) idle)

      after : p ++ (wire_bytes w ++ drop (reach r (data_frame p ∷ w)) s.read) ≡ drop r.recv s.read
      after = sym (append_assoc p _ _) ∙ flow.wired ∙ ap (λ k. drop k s.read) start

      rest :
          drop (r.recv + length p) s.read ≡ wire_bytes w ++ drop (reach r (data_frame p ∷ w)) s.read
      rest = drop_split r.recv p _ s.read after

  -- The receiver sends an acknowledgement of all that it has.
  pub send_ack :
      Flow link s r w v
      → Flow link s (record r { ack_sent = r.recv }) w (v ++ ack_frame r.recv ∷ [])
  send_ack flow = record {
    small = flow.small;
    buffered = flow.buffered;
    base_sent = flow.base_sent;
    sent_read = flow.sent_read;
    base_recv = flow.base_recv;
    room = flow.room;
    held = flow.held;
    wired = flow.wired;
    live = flow.live;
    intact = flow.intact;
    ahead = flow.ahead;
    prefix = flow.prefix;
    captured = flow.captured;
    acked = omega arith;
    acks = AckBelow-snoc r.recv v (ack_frame r.recv) flow.acks (omega arith);
  }

  pub send_other :
      (f : Frame) → AckBelow r.recv f → Flow link s r w v → Flow link s r w (v ++ f ∷ [])
  send_other f b flow = record {
    small = flow.small;
    buffered = flow.buffered;
    base_sent = flow.base_sent;
    sent_read = flow.sent_read;
    base_recv = flow.base_recv;
    room = flow.room;
    held = flow.held;
    wired = flow.wired;
    live = flow.live;
    intact = flow.intact;
    ahead = flow.ahead;
    prefix = flow.prefix;
    captured = flow.captured;
    acked = flow.acked;
    acks = AckBelow-snoc r.recv v f flow.acks b;
  }

  -- `attach` counts everything received as acknowledged: the resume header says it.
  pub attach_acks : Flow link s r w v → Flow link s (record r { ack_sent = r.recv }) w v
  attach_acks flow = record {
    small = flow.small;
    buffered = flow.buffered;
    base_sent = flow.base_sent;
    sent_read = flow.sent_read;
    base_recv = flow.base_recv;
    room = flow.room;
    held = flow.held;
    wired = flow.wired;
    live = flow.live;
    intact = flow.intact;
    ahead = flow.ahead;
    prefix = flow.prefix;
    captured = flow.captured;
    acked = omega arith;
    acks = flow.acks;
  }

  -- A connection dies between two calls of `applyData`.
  pub die : r.applying ≡ none → Flow link s r w v → Flow link s (record r { dead = true }) w v
  die idle flow = record {
    small = flow.small;
    buffered = flow.buffered;
    base_sent = flow.base_sent;
    sent_read = flow.sent_read;
    base_recv = flow.base_recv;
    room = flow.room;
    held = flow.held;
    wired = flow.wired;
    live = flow.live;
    intact = λ e. cc;
    ahead = flow.ahead;
    prefix = flow.prefix;
    captured = rw idle tt;
    acked = flow.acked;
    acks = flow.acks;
  }
