-- ===== src/Tunnel/Safety.antt =====
-- What holds in every state that two sessions reach, whatever is lost and resumed on the way.
use foilen_box.Prelude.{
  ℕ, suc, ◌+◌, ◌≤◌, ◌<◌, ◌≡◌, ◌≢◌, refl, sym, ap, ◌∙◌, false, none, some, List, [], ◌++◌, length,
  arith, subst, take, drop, length-append, length-drop, take-length-append,
}
use foilen_box.Tunnel.{
  Session, Frame, attached, missing_bytes, attach, detach, force_detach, shutdown, grace_over,
  pump_local, end_data, new_session,
}
use foilen_box.Tunnel.Views.{sender, receiver, acks, sends, fins, Wrote, write_turn_lem, attach_lem}
use foilen_box.Tunnel.System.{
  System, Local, pumped, pump_ended, applied, detached, forced, expired, shut, Step, local_a,
  local_b, write_a, write_b, data_a, data_b, ack_a, ack_b, fin_a, fin_b, serve, accept, start,
  Reach, here, next, Settled,
}
use foilen_box.Tunnel.Flow.{Flow}
use foilen_box.Tunnel.Resume.{
  Both, turn, Local-Both, write-Both, data-Both, ack-Both, fin-Both, serve-Both, accept-Both,
}

-- Without a stream a session gets none by itself.
Local-offline : {s t : Session} → Local s t → s.stream ≡ none → t.stream ≡ none
unfolding pump_local end_data detach force_detach grace_over shutdown
Local-offline (pumped p failed short fits e) h = ground arith
Local-offline (pump_ended p failed short fits e) h = ground arith
Local-offline (applied r) h = ground arith
Local-offline (detached gen) h = ground arith
Local-offline forced h = ground arith
Local-offline (expired gen) h = ground arith
Local-offline shut h = ground arith

-- Without a call in flight nothing is received.
Local-settled :
    {s t : Session} → Local s t → s.applying ≡ none → (t.applying ≡ none) × (t.recv ≡ s.recv)
unfolding pump_local end_data detach force_detach grace_over shutdown
Local-settled (pumped p failed short fits e) h = ground arith
Local-settled (pump_ended p failed short fits e) h = ground arith
Local-settled (applied r) h = ground arith
Local-settled (detached gen) h = ground arith
Local-settled forced h = ground arith
Local-settled (expired gen) h = ground arith
Local-settled shut h = ground arith

-- The reply that `a` waits for is still true of `b`, and nothing is on its way.
abbrev pub Waiting : System → Type 0
Waiting s =
    (n : ℕ)
    → s.pending ≡ some n
    → (n ≡ s.b.recv) × (s.a.stream ≡ none) × (s.b.applying ≡ none) × (s.ab ≡ [])

pub record Safe (s : System) : Type 0 where
  pub both : Both s.link s.a s.b s.ab s.ba
  pub waiting : Waiting s

Wrote-settled :
    {s t : Session} {f : Frame} → Wrote s t f → (t.applying ≡ s.applying) × (t.recv ≡ s.recv)
Wrote-settled (acks p q) = (cc, cc)
Wrote-settled (sends p q) = (cc, cc)
Wrote-settled (fins p q) = (cc, cc)

Step-Safe : {s t : System} → Step Settled s t → Safe s → Safe t
Step-Safe (local_a l) safe = record {
  both = Local-Both safe.both l;
  waiting =
      λ n e. let (q, off, idle, wire) = safe.waiting n e in (q, Local-offline l off, idle, wire);
}
Step-Safe (local_b l) safe = record {
  both = turn (Local-Both (turn safe.both) l);
  waiting = λ n e.
      let (q, off, idle, wire) = safe.waiting n e in
      let (idle', same) = Local-settled l idle in (q ∙ sym same, off, idle', wire);
}
Step-Safe {s} (write_a {t} {f} on e) safe = record {
  both = write-Both safe.both on (write_turn_lem s.a.gen s.a t f e);
  waiting = λ n p. let (q, off, idle, wire) = safe.waiting n p in cc;
}
Step-Safe {s} (write_b {t} {f} on e) safe =
    let wrote = write_turn_lem s.b.gen s.b t f e in
    record {
      both = turn (write-Both (turn safe.both) on wrote);
      waiting = λ n p.
          let (q, off, idle, wire) = safe.waiting n p in
          (q ∙ sym (Wrote-settled wrote).1, off, (Wrote-settled wrote).0 ∙ idle, wire);
    }
Step-Safe {s} (data_a {t} {p} {w} h on idle e) safe = record {
  both = data-Both p idle e (subst (Both s.link s.a s.b s.ab) h safe.both);
  waiting = λ n p. let (q, off, idle, wire) = safe.waiting n p in cc;
}
Step-Safe {s} (data_b {t} {p} {w} h on idle e) safe = record {
  both = turn (data-Both p idle e (turn (subst (λ v. Both s.link s.a s.b v s.ba) h safe.both)));
  waiting = λ n p. let (q, off, idle, wire) = safe.waiting n p in cc;
}
Step-Safe {s} (ack_a {t} {n} {w} h on e) safe = record {
  both = ack-Both n on e (subst (Both s.link s.a s.b s.ab) h safe.both);
  waiting = λ n p. let (q, off, idle, wire) = safe.waiting n p in cc;
}
Step-Safe {s} (ack_b {t} {n} {w} h on e) safe = record {
  both = turn (ack-Both n on e (turn (subst (λ v. Both s.link s.a s.b v s.ba) h safe.both)));
  waiting = λ n p. let (q, off, idle, wire) = safe.waiting n p in cc;
}
Step-Safe {s} (fin_a {w} h on idle) safe = record {
  both = fin-Both idle (subst (Both s.link s.a s.b s.ab) h safe.both);
  waiting = λ n p. let (q, off, idle, wire) = safe.waiting n p in cc;
}
Step-Safe {s} (fin_b {w} h on idle) safe = record {
  both = turn (fin-Both idle (turn (subst (λ v. Both s.link s.a s.b v s.ba) h safe.both)));
  waiting = λ n p. let (q, off, idle, wire) = safe.waiting n p in cc;
}
Step-Safe {s} (serve {t} off idle away ready e) safe = record {
  both = serve-Both safe.both off idle e;
  waiting = λ n q.
      let (same, _) = attach_lem (suc s.link) s.a.recv s.b t e in
      (cc (q, ap (λ r. r.recv) same), off, ap (λ r. r.applying) same ∙ ready, refl);
}
Step-Safe {s} (accept {t} {n} p e) safe = record {
  both =
      let (q, off, settled, wire) = safe.waiting n p in
      subst (λ v. Both s.link t s.b v s.ba) (sym wire)
        (accept-Both settled (subst (λ k. attach s.link k s.a ≡ attached t) q e)
          (subst (λ v. Both s.link s.a s.b v s.ba) wire safe.both));
  waiting = λ n q. cc;
}

start-Safe : Safe start
unfolding start
start-Safe = record { both = record { there = empty; back = empty }; waiting = λ n e. cc }
  where
    empty : Flow 0 (sender new_session) (receiver new_session) [] []
    empty = record {
      small = omega arith;
      buffered = refl;
      base_sent = omega arith;
      sent_read = omega arith;
      base_recv = omega arith;
      room = omega arith;
      held = refl;
      wired = refl;
      live = λ e. cc;
      intact = λ e. refl;
      ahead = [];
      prefix = refl;
      captured = tt;
      acked = omega arith;
      acks = tt;
    }

pub Reach-Safe : {s : System} → Reach Settled s → Safe s
Reach-Safe here = start-Safe
Reach-Safe (next r st) = Step-Safe st (Reach-Safe r)

-- `p` is what has come of `q` so far.
abbrev pub IsPrefix : List ℕ → List ℕ → Type 0
IsPrefix p q = (rest : List ℕ) × (p ++ rest ≡ q)

-- While no session is resumed with a write in flight, what either end has written to its local
-- connection is a prefix of what the other end read from its own: nothing is skipped, repeated or
-- reordered, whatever streams are lost and resumed on the way. Fewer than 2^64 bytes are read.
pub tunnel_delivers :
    {s : System}
    → Reach Settled s
    → IsPrefix s.b.conn.written s.a.conn.read × IsPrefix s.a.conn.written s.b.conn.read
tunnel_delivers reached =
    let both = (Reach-Safe reached).both in
    ((both.there.ahead, both.there.prefix), (both.back.ahead, both.back.prefix))

take_of_split : (n : ℕ) (p xs : List ℕ) → n ≤ length xs → p ++ drop n xs ≡ xs → p ≡ take n xs
take_of_split n p xs h e =
    sym (take-length-append p (drop n xs)) ∙ ap (take (length p)) e ∙ ap (λ k. take k xs) full
  where
    full : length p ≡ n
    full = omega (arith, ap length e, length-append p (drop n xs), length-drop n xs)

-- While no session is resumed with a write in flight and the serving end's connection is not dead,
-- that end has written exactly as many of the other's bytes as its receive offset says.
pub written-eq-take :
    {s : System}
    → Reach Settled s
    → s.b.conn_dead ≡ false
    → s.b.conn.written ≡ take s.b.recv s.a.conn.read
written-eq-take {s} reached alive =
    let flow = (Reach-Safe reached).both.there in
    take_of_split s.b.recv s.b.conn.written s.a.conn.read (omega arith) (flow.intact alive)

attach_in_range :
    (link n : ℕ) (s : Session)
    → s.send_base ≤ n
    → n ≤ s.send_base + length s.send_buf
    → s.send_base + length s.send_buf < 18446744073709551616
    → attach link n s ≢ missing_bytes
unfolding attach
attach_in_range link n s lo hi fits = ground arith

Flow-in_range :
    {link : ℕ} {w v : List Frame} (link' : ℕ) (s t : Session)
    → Flow link (sender s) (receiver t) w v
    → attach link' t.recv s ≢ missing_bytes
Flow-in_range l s t flow =
    let size = ap length flow.buffered in
    attach_in_range l t.recv s flow.base_recv
      (omega (arith, size, length-drop s.send_base s.conn.read, flow.room))
      (omega (arith, size, length-drop s.send_base s.conn.read, flow.small, flow.sent_read))

-- While no session is resumed with a write in flight, a resume never finds bytes missing: the
-- offset that either end reports is always within what the other end still buffers.
pub resume_in_range :
    {s : System}
    → Reach Settled s
    → (attach (suc s.link) s.a.recv s.b ≢ missing_bytes)
      × ((n : ℕ) → s.pending ≡ some n → attach s.link n s.a ≢ missing_bytes)
resume_in_range {s} reached = (
  Flow-in_range (suc s.link) s.b s.a both.back,
  λ n e.
      subst (λ k. attach s.link k s.a ≢ missing_bytes) (sym ((Reach-Safe reached).waiting n e).0)
        (Flow-in_range s.link s.a s.b both.there),
)
  where
    both : Both s.link s.a s.b s.ab s.ba
    both = (Reach-Safe reached).both
