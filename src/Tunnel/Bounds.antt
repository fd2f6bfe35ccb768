-- ===== src/Tunnel/Bounds.antt =====
-- The size of what `writeLoop` of realm/features/services/session.go writes.
use foilen_box.Prelude.{
  ℕ, ◌+◌, ◌≤◌, ◌<◌, ◌≡◌, sym, ap, subst, List, length, drop, arith, length-take,
}
use foilen_box.Tunnel.{
  Session, Frame, data_frame, ack_frame, fin_frame, writes, frame_max, new_session, attach, detach,
  force_detach, shutdown, grace_over, pump_local, write_turn, begin_data, end_data, apply_ack,
  apply_fin, next_chunk, sub_u64,
}
use foilen_box.Tunnel.System.{Local, pumped, pump_ended, applied, detached, forced, expired, shut}
use foilen_box.Tunnel.Views.{acks, sends, fins, Wrote, write_turn_lem}
use foilen_box.Tunnel.Codec.{encode, Encodable}
use foilen_box.Tunnel.Lifecycle.{
  Life, born, lives, Act, acts, attaches, turns, begins, acked, ended,
}

abbrev Fits : Session → Type 0
Fits s = s.recv < 18446744073709551616

Local-Fits : {s t : Session} → Local s t → Fits s → Fits t
unfolding pump_local end_data detach force_detach grace_over shutdown
Local-Fits (pumped p failed short fits e) v = ground arith
Local-Fits (pump_ended p failed short fits e) v = ground arith
Local-Fits (applied r) v = ground arith
Local-Fits (detached gen) v = ground arith
Local-Fits forced v = ground arith
Local-Fits (expired gen) v = ground arith
Local-Fits shut v = ground arith

Wrote-Fits : {s t : Session} {f : Frame} → Wrote s t f → Fits s → Fits t
Wrote-Fits (acks p q) v = subst (λ n. n < 18446744073709551616) (sym (ap (λ r. r.recv) q)) v
Wrote-Fits (sends p q) v = subst (λ n. n < 18446744073709551616) (sym (ap (λ r. r.recv) q)) v
Wrote-Fits (fins p q) v = subst (λ n. n < 18446744073709551616) (sym (ap (λ r. r.recv) q)) v

Act-Fits : {s t : Session} → Act s t → Fits s → Fits t
unfolding attach begin_data apply_ack apply_fin
Act-Fits (acts l) v = Local-Fits l v
Act-Fits (attaches link n e) v = ground arith
Act-Fits {s} {t} (turns {f = f} gen e) v = Wrote-Fits (write_turn_lem gen s t f e) v
Act-Fits (begins gen p e) v = ground arith
Act-Fits (acked gen off e) v = ground arith
Act-Fits (ended gen) v = ground arith

Life-Fits : {s : Session} → Life s → Fits s
unfolding new_session
Life-Fits born = omega arith
Life-Fits (lives l a) = Act-Fits a (Life-Fits l)

-- The frame fits the buffer of `writeLoop`.
abbrev pub InBuffer : Frame → Type 0
InBuffer f = Encodable f × (length (encode f) ≤ frame_max + 5)

data-InBuffer : (p : List ℕ) → length p ≤ frame_max → InBuffer (data_frame p)
unfolding encode
data-InBuffer p h = (h, omega arith)

ack-InBuffer : (n : ℕ) → n < 18446744073709551616 → InBuffer (ack_frame n)
unfolding encode
ack-InBuffer n h = (h, omega arith)

fin-InBuffer : InBuffer fin_frame
unfolding encode
fin-InBuffer = (tt, omega arith)

Wrote-InBuffer : {s t : Session} {f : Frame} → Wrote s t f → Fits s → InBuffer f
Wrote-InBuffer {s} (acks p q) v = ack-InBuffer s.recv v
Wrote-InBuffer {s} (sends p q) v =
    data-InBuffer (next_chunk s)
      (omega (arith, length-take frame_max (drop (sub_u64 s.send_sent s.send_base) s.send_buf)))
Wrote-InBuffer (fins p q) v = fin-InBuffer

-- Whatever critical sections have run, in any order, a frame that a session writes carries at most
-- frameMax bytes or an offset of 64 bits, so that the peer reads it back, and its bytes fit the buffer
-- of frameMax and five bytes that it is put together in.
pub write_turn-InBuffer :
    {s t : Session} {f : Frame} (gen : ℕ) → Life s → write_turn gen s ≡ writes t f → InBuffer f
write_turn-InBuffer {s} {t} {f} gen life e =
    Wrote-InBuffer (write_turn_lem gen s t f e) (Life-Fits life)
