-- ===== src/Tunnel/Flow/Sending.antt =====
-- Steps of the sender: `pumpLocal` adds bytes, `writeLoop` puts frames on the wire, `applyAck`
-- frees what the receiver has, `attach` starts again at what the receiver reports.
use foilen_box.Prelude.{
  ℕ, ◌+◌, ◌≤◌, ◌<◌, ◌≡◌, sym, ap, ◌∙◌, none, some, List, [], ◌∷◌, ◌++◌, arith, length, take, drop,
  length-append, append_assoc, append-nil, drop-append_le, length-drop, length-take, drop-drop,
}
use native.Mathlib.Nat.{add-zero}
use foilen_box.Tunnel.Views.{Sender, Receiver, grow, unplug}
use foilen_box.Tunnel.Flow.{Flow, wire_bytes, reach, taken, chunk}
use foilen_box.Tunnel.{Frame, data_frame, sub_u64, u64, frame_max}
use foilen_box.Tunnel.Flow.Lists.{split_grow, wire_bytes-append, take_split}

module _ {link : ℕ} {s : Sender} {r : Receiver} {w v : List Frame} (flow : Flow link s r w v) where
  pub grow-Flow :
      (p : List ℕ) → length s.read + length p < 18446744073709551616 → Flow link (grow p s) r w v
  grow-Flow p fits = record {
    small = omega (arith, length-append s.read p);
    buffered = rw (flow.buffered) (sym (drop-append_le s.base s.read p (omega arith)));
    base_sent = flow.base_sent;
    sent_read = omega (arith, length-append s.read p);
    base_recv = flow.base_recv;
    room = omega (arith, length-append s.read p);
    held = split_grow _ _ _ s.read p (omega arith) (omega arith) flow.held;
    wired = split_grow _ _ _ s.read p (omega arith) (omega arith) flow.wired;
    live = flow.live;
    intact =
        λ d. split_grow 0 r.recv r.written s.read p (omega arith) (omega arith) (flow.intact d);
    ahead = flow.ahead ++ p;
    prefix = rw (← append_assoc, flow.prefix);
    captured = flow.captured;
    acked = flow.acked;
    acks = flow.acks;
  }

  pub unplug-Flow : Flow link (unplug s) r w v
  unplug-Flow = record {
    small = flow.small;
    buffered = flow.buffered;
    base_sent = flow.base_sent;
    sent_read = flow.sent_read;
    base_recv = flow.base_recv;
    room = flow.room;
    held = flow.held;
    wired = flow.wired;
    live = λ e. cc;
    intact = flow.intact;
    ahead = flow.ahead;
    prefix = flow.prefix;
    captured = flow.captured;
    acked = flow.acked;
    acks = flow.acks;
  }

  -- A frame that carries no bytes.
  pub send_plain :
      (f : Frame) → wire_bytes (w ++ f ∷ []) ≡ wire_bytes w → Flow link s r (w ++ f ∷ []) v
  send_plain f e = record {
    small = flow.small;
    buffered = flow.buffered;
    base_sent = flow.base_sent;
    sent_read = flow.sent_read;
    base_recv = flow.base_recv;
    room = rw e flow.room;
    held = flow.held;
    wired = rw e flow.wired;
    live = rw e flow.live;
    intact = flow.intact;
    ahead = flow.ahead;
    prefix = flow.prefix;
    captured = flow.captured;
    acked = flow.acked;
    acks = flow.acks;
  }

  -- What the writer copies out of the buffer is what comes next.
  pub unsent : drop (sub_u64 s.sent s.base) s.buf ≡ drop s.sent s.read
  unsent =
      ap (drop (sub_u64 s.sent s.base)) flow.buffered
      ∙ drop-drop (sub_u64 s.sent s.base) s.base s.read
      ∙ ap (λ k. drop k s.read) (omega arith)

  module _ (p : List ℕ) (is : p ≡ take frame_max (drop (sub_u64 s.sent s.base) s.buf)) where
    next_split : p ++ drop (s.sent + length p) s.read ≡ drop s.sent s.read
    next_split =
        rw (is, unsent, ← drop-drop (length (take frame_max (drop s.sent s.read))) s.sent s.read)
          (take_split frame_max (drop s.sent s.read))

    next_room : s.sent + length p ≤ length s.read
    next_room = omega (
      arith,
      ap length is,
      length-take frame_max (drop (sub_u64 s.sent s.base) s.buf),
      ap length unsent,
      length-drop s.sent s.read,
    )

    wire_next : wire_bytes (w ++ data_frame p ∷ []) ≡ wire_bytes w ++ p
    wire_next = wire_bytes-append w (data_frame p ∷ []) ∙ ap (◌++◌ (wire_bytes w)) (append-nil p)

    reach_next : s.stream ≡ some link → reach r (w ++ data_frame p ∷ []) ≡ s.sent + length p
    reach_next on = omega (arith, flow.live on, ap length wire_next, length-append (wire_bytes w) p)

    wired_next :
        s.stream ≡ some link
        → wire_bytes (w ++ data_frame p ∷ []) ++ drop (reach r (w ++ data_frame p ∷ [])) s.read
          ≡ drop (taken r) s.read
    wired_next on = rw (reach_next on, wire_next, append_assoc, next_split, flow.live on) flow.wired

    pub send_data :
        s.stream ≡ some link
        → Flow link (record s { sent = u64 (s.sent + length p) }) r (w ++ data_frame p ∷ []) v
    send_data on = record {
      small = flow.small;
      buffered = flow.buffered;
      base_sent = omega (arith, next_room);
      sent_read = omega (arith, next_room);
      base_recv = flow.base_recv;
      room = omega (arith, reach_next on, next_room);
      held = flow.held;
      wired = wired_next on;
      live = λ _. omega (arith, reach_next on, next_room);
      intact = flow.intact;
      ahead = flow.ahead;
      prefix = flow.prefix;
      captured = flow.captured;
      acked = flow.acked;
      acks = flow.acks;
    }

  -- The buffer is cut at an offset that the receiver has passed.
  cut : (n : ℕ) → s.base ≤ n → n ≤ r.recv → drop (sub_u64 n s.base) s.buf ≡ drop n s.read
  cut n lo hi =
      ap (drop (sub_u64 n s.base)) flow.buffered
      ∙ drop-drop (sub_u64 n s.base) s.base s.read
      ∙ ap (λ k. drop k s.read) (omega arith)

  pub free_acked :
      s.stream ≡ some link
      → (n : ℕ) → s.base ≤ n
      → n ≤ r.recv
      → Flow link (record s { buf = drop (sub_u64 n s.base) s.buf; base = n }) r w v
  free_acked on n lo hi = record {
    small = flow.small;
    buffered = cut n lo hi;
    base_sent = omega (arith, flow.live on);
    sent_read = flow.sent_read;
    base_recv = hi;
    room = flow.room;
    held = flow.held;
    wired = flow.wired;
    live = flow.live;
    intact = flow.intact;
    ahead = flow.ahead;
    prefix = flow.prefix;
    captured = flow.captured;
    acked = flow.acked;
    acks = flow.acks;
  }

  -- A new stream starts empty, at the offset of a receiver that has no call in flight.
  pub restart :
      (link' : ℕ)
      → chunk r.applying ≡ []
      → Flow link'
          (record s {
            buf = drop (sub_u64 r.recv s.base) s.buf;
            base = r.recv;
            sent = r.recv;
            stream = some link';
          })
          r
          []
          v
  restart link' idle = record {
    small = flow.small;
    buffered = cut r.recv flow.base_recv (omega arith);
    base_sent = omega arith;
    sent_read = omega arith;
    base_recv = omega arith;
    room = omega arith;
    held = flow.held;
    wired = rw add-zero;
    live = λ _. omega (arith, ap length idle);
    intact = flow.intact;
    ahead = flow.ahead;
    prefix = flow.prefix;
    captured = flow.captured;
    acked = flow.acked;
    acks = flow.acks;
  }

  -- The frames that were on the wires are lost with their stream.
  pub lose_wires : (link' : ℕ) → s.stream ≡ none → Flow link' s r [] []
  lose_wires link' off = record {
    small = flow.small;
    buffered = flow.buffered;
    base_sent = flow.base_sent;
    sent_read = flow.sent_read;
    base_recv = flow.base_recv;
    room = omega arith;
    held = flow.held;
    wired = rw add-zero;
    live = λ e. cc;
    intact = flow.intact;
    ahead = flow.ahead;
    prefix = flow.prefix;
    captured = flow.captured;
    acked = flow.acked;
    acks = tt;
  }

  pub lose_acks : Flow link s r w []
  lose_acks = record {
    small = flow.small;
    buffered = flow.buffered;
    base_sent = flow.base_sent;
    sent_read = flow.sent_read;
    base_recv = flow.base_recv;
    room = flow.room;
    held = flow.held;
    wired = flow.wired;
    live = flow.live;
    intact = flow.intact;
    ahead = flow.ahead;
    prefix = flow.prefix;
    captured = flow.captured;
    acked = flow.acked;
    acks = tt;
  }
