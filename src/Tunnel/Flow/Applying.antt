-- ===== src/Tunnel/Flow/Applying.antt =====
-- The end of `applyData`: the bytes are counted, and stand on the local connection unless it was
-- dead or failed.
use foilen_box.Prelude.{
  ℕ, ◌+◌, ◌≡◌, refl, sym, ap, ◌∙◌, Bool, true, false, none, some, List, ◌++◌, arith, length, take,
  drop, All, append_assoc, take-append-drop, Option-cases, inl, inr, subst,
}
use native.Mathlib.Nat.{add-zero}
use foilen_box.Tunnel.Views.{Sender, Receiver, receiver}
use foilen_box.Tunnel.Flow.{Flow, taken, chunk, AckBelow, Captured}
use foilen_box.Tunnel.{Session, Frame, Apply, u64, WriteResult, wrote, failed_after, end_data}
use foilen_box.Tunnel.Flow.Lists.{AckBelow-mono}

-- Skipped because the connection was dead, written in full, or failed after `k` bytes.
pub data Outcome : Type 0 where
  skipped in_full : Outcome
  partly : ℕ → Outcome

abbrev outcome : Bool → WriteResult → Outcome
outcome true r = skipped
outcome false wrote = in_full
outcome false (failed_after k) = partly k

abbrev finish : Outcome → Apply → Receiver → Receiver
finish skipped a r = record r { applying = none; recv = u64 (r.recv + length a.payload) }
finish in_full a r = record r {
  written = r.written ++ a.payload;
  applying = none;
  recv = u64 (r.recv + length a.payload);
}
finish (partly k) a r = record r {
  written = r.written ++ take k a.payload;
  applying = none;
  recv = u64 (r.recv + length a.payload);
  dead = true;
}

receiver-end_data :
    (res : WriteResult) (a : Apply) (s : Session)
    → s.applying ≡ some a
    → receiver (end_data res s) ≡ finish (outcome a.dead res) a (receiver s)
unfolding end_data
receiver-end_data wrote a s h = ground arith
receiver-end_data (failed_after k) a s h = ground arith

end_data-idle :
    (res : WriteResult) (s : Session) → s.applying ≡ none → receiver (end_data res s) ≡ receiver s
unfolding end_data
end_data-idle res s h = ground arith

module _ {link : ℕ} {s : Sender} {r : Receiver} {w v : List Frame} (flow : Flow link s r w v)
    (a : Apply) (busy : r.applying ≡ some a) where
  start : taken r ≡ r.recv + length a.payload
  start = omega (arith, ap (λ b. length (chunk b)) busy)

  fits : u64 (r.recv + length a.payload) ≡ taken r
  fits = omega (arith, start)

  body : a.payload ++ drop (taken r) s.read ≡ drop r.recv s.read
  body = ap (λ b. chunk b ++ drop (taken r) s.read) (sym busy) ∙ flow.held

  kept_acks : All (AckBelow (u64 (r.recv + length a.payload))) v
  kept_acks = AckBelow-mono v (omega (arith, fits)) flow.acks

  advance :
      (out : List ℕ) (d : Bool) (left : List ℕ)
      → (d ≡ false → out ++ drop (taken r) s.read ≡ s.read)
      → out ++ left ≡ s.read
      → Flow link s
          (record r {
            written = out;
            applying = none;
            recv = u64 (r.recv + length a.payload);
            dead = d;
          })
          w
          v
  advance out d left whole part = record {
    small = flow.small;
    buffered = flow.buffered;
    base_sent = flow.base_sent;
    sent_read = flow.sent_read;
    base_recv = omega (arith, fits);
    room = omega (arith, fits, flow.room);
    held = ap (λ k. drop k s.read) (add-zero _);
    wired = rw (fits, add-zero) flow.wired;
    live = rw (fits, add-zero) flow.live;
    intact = λ e. rw fits (whole e);
    ahead = left;
    prefix = part;
    captured = tt;
    acked = omega (arith, fits, flow.acked);
    acks = kept_acks;
  }

  next : a.dead ≡ r.dead
  next = subst (λ b. Captured b r.dead) busy flow.captured

  finish-Flow : (res : WriteResult) → Flow link s (finish (outcome a.dead res) a r) w v
  finish-Flow res = go (a.dead) refl res
    where
      whole : a.dead ≡ false → (r.written ++ a.payload) ++ drop (taken r) s.read ≡ s.read
      whole e =
          append_assoc r.written a.payload _ ∙ ap (◌++◌ r.written) body ∙ flow.intact (sym next ∙ e)

      go : (d : Bool) → a.dead ≡ d → (o : WriteResult) → Flow link s (finish (outcome d o) a r) w v
      go true e o = advance r.written r.dead flow.ahead (λ f. cc (next)) flow.prefix
      go false e wrote = advance _ r.dead _ (λ f. whole e) (whole e)
      go false e (failed_after k) =
          advance _ true (drop k a.payload ++ drop (taken r) s.read) (λ f. cc)
            (append_assoc r.written (take k a.payload) _
              ∙ ap (◌++◌ r.written) (
                  sym (append_assoc (take k a.payload) (drop k a.payload) _)
                  ∙ ap (λ x. x ++ drop (taken r) s.read) (take-append-drop k a.payload))
              ∙ sym (append_assoc r.written a.payload _)
              ∙ whole e)

-- However the write ends, the flow goes on.
pub end_data-Flow :
    {link : ℕ} {s : Sender} {w v : List Frame} (t : Session) (res : WriteResult)
    → Flow link s (receiver t) w v
    → Flow link s (receiver (end_data res t)) w v
end_data-Flow t res flow = elim (Option-cases t.applying) [
  | inl e ↦ rw (end_data-idle res t e) flow
  | inr (a, e) ↦ rw (receiver-end_data res a t e) (finish-Flow flow a e res)
]
