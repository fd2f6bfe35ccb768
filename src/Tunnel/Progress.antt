-- ===== src/Tunnel/Progress.antt =====
-- A tunnel of realm/features/services whose streams are resumed delivers what was read.
use foilen_box.Prelude.{
  ℕ, zero, suc, ◌+◌, ◌≤◌, ◌<◌, ◌≡◌, ◌≢◌, refl, sym, ap, ◌∙◌, inl, inr, ◌||◌, true, false, none,
  some, List, [], ◌∷◌, ◌++◌, length, arith, subst, take, drop, length-drop, length-take,
  take-length-append, append-nil, ltb, ==_iff, Bool-cases,
}
use foilen_box.Tunnel.{
  Session, data_frame, attached, missing_bytes, attach, force_detach, writes, write_turn, has_work,
  next_frame, next_chunk, send_end, u64, sub_u64, begin_data, end_data, wrote, frame_max,
  detach_locked,
}
use foilen_box.Tunnel.System.{
  System, applied, forced, Step, local_a, local_b, write_a, data_b, serve, accept, Reach, next,
  Settled,
}
use foilen_box.Tunnel.Safety.{written-eq-take, Reach-Safe, resume_in_range}

-- Steps one after another.
pub data Run : System → System → Type 0 where
  stays : {s : System} → Run s s
  goes : {s t u : System} → Step Settled s t → Run t u → Run s u

Reach-Run : {s t : System} → Reach Settled s → Run s t → Reach Settled t
Reach-Run r stays = r
Reach-Run r (goes st run) = Reach-Run (next r st) run

Run-trans : {s t u : System} → Run s t → Run t u → Run s u
Run-trans stays r = r
Run-trans (goes st run) r = goes st (Run-trans run r)

-- Both ends have the stream of the link, nothing is on its way from `a` to `b`, and `a` has nothing to
-- acknowledge.
record Online (s : System) : Type 0 where
  a_open : s.a.closed ≡ false
  b_open : s.b.closed ≡ false
  a_on : s.a.stream ≡ some s.link
  b_on : s.b.stream ≡ some s.link
  idle : s.b.applying ≡ none
  quiet : s.ab ≡ []
  alive : s.b.conn_dead ≡ false
  acked : s.a.ack_sent ≡ s.a.recv

-- `a` sends its next bytes.
abbrev sent_chunk : Session → Session
sent_chunk a = record a { send_sent = u64 (a.send_sent + length (next_chunk a)) }

writes_chunk :
    (a : Session)
    → a.closed ≡ false
    → a.ack_sent ≡ a.recv
    → a.send_sent < send_end a
    → write_turn a.gen a ≡ writes (sent_chunk a) (data_frame (next_chunk a))
unfolding write_turn has_work next_frame
writes_chunk a is_open same more =
    let no_ack : ltb a.ack_sent a.recv ≡ false = ground arith in
    let bytes : ltb a.send_sent (send_end a) ≡ true = ground arith in
    rw (is_open, (==_iff a.gen a.gen).1 refl, no_ack, bytes) refl

-- `b` takes the bytes in.
abbrev taking : List ℕ → Session → Session
taking p b = record b { applying = some (record { payload = p; dead = b.conn_dead }) }

takes_chunk :
    (p : List ℕ) (b : Session) → b.closed ≡ false → begin_data b.gen p b ≡ some (taking p b)
unfolding begin_data
takes_chunk p b is_open = rw (is_open, (==_iff b.gen b.gen).1 refl) refl

taken_in :
    (p : List ℕ) (b : Session)
    → b.conn_dead ≡ false
    → let t = end_data wrote (taking p b) in
      (t.closed ≡ b.closed)
      × (t.stream ≡ b.stream)
      × (t.applying ≡ none)
      × (t.conn_dead ≡ false)
      × (t.recv ≡ u64 (b.recv + length p))
unfolding end_data
taken_in p b alive = (refl, refl, refl, rw alive refl, refl)

-- What the flow says of the offsets when nothing is on its way.
record Offsets (s : System) : Type 0 where
  sent_here : s.a.send_sent ≡ s.b.recv
  end_here : send_end s.a ≡ length s.a.conn.read
  small : length s.a.conn.read < 18446744073709551616
  chunk_here : length (next_chunk s.a) ≡ length (take frame_max (drop s.b.recv s.a.conn.read))
  within : s.b.recv ≤ length s.a.conn.read

offsets : {s : System} → Reach Settled s → Online s → Offsets s
offsets {s} r on =
    let flow = (Reach-Safe r).both.there in
    let lived = flow.live on.a_on in
    let at : s.a.send_sent ≡ s.b.recv = omega (arith, rw (on.quiet, on.idle) at lived) in
    let size = ap length flow.buffered in
    let room : s.b.recv ≤ length s.a.conn.read = omega (arith, at, flow.sent_read) in
    record {
      sent_here = at;
      end_here = omega (
        arith,
        size,
        length-drop s.a.send_base s.a.conn.read,
        flow.base_sent,
        flow.sent_read,
        flow.small,
      );
      small = flow.small;
      chunk_here = omega (
        arith,
        at,
        size,
        length-drop s.a.send_base s.a.conn.read,
        length-take frame_max (drop (sub_u64 s.a.send_sent s.a.send_base) s.a.send_buf),
        length-drop (sub_u64 s.a.send_sent s.a.send_base) s.a.send_buf,
        length-take frame_max (drop s.b.recv s.a.conn.read),
        length-drop s.b.recv s.a.conn.read,
        flow.base_sent,
        flow.sent_read,
        flow.small,
      );
      within = room;
    }

-- One chunk further.
Further : System → System → Type 0
Further s t = Run s t × Online t × (t.a.conn.read ≡ s.a.conn.read) × (s.b.recv < t.b.recv)

one_chunk :
    {s : System}
    → Reach Settled s
    → Online s
    → s.b.recv < length s.a.conn.read
    → (t : System) × Further s t
unfolding Further
one_chunk {s} r on more =
    let o = offsets r on in
    let p = next_chunk s.a in
    let grew : s.b.recv < u64 (s.b.recv + length p) = omega (
      arith,
      o.small,
      o.chunk_here,
      length-take frame_max (drop s.b.recv s.a.conn.read),
      length-drop s.b.recv s.a.conn.read,
    ) in
    let b' = end_data wrote (taking p s.b) in
    let (closed', stream', idle', alive', recv') = taken_in p s.b on.alive in
    let s1 : System = record s { a = sent_chunk s.a; ab = s.ab ++ data_frame p ∷ [] } in
    let s2 : System = record s1 { b = taking p s.b; ab = [] } in
    let s3 : System = record s2 { b = b' } in
    let wrote_it = writes_chunk s.a on.a_open on.acked (omega (arith, o.sent_here, o.end_here)) in
    let arrives : s1.ab ≡ data_frame p ∷ [] = ap (λ w. w ++ data_frame p ∷ []) on.quiet in
    let first : Step Settled s s1 = write_a on.a_on wrote_it in
    let second : Step Settled s1 s2 =
      data_b arrives on.b_on on.idle (takes_chunk p s.b on.b_open) in
    let third : Step Settled s2 s3 = local_b (applied wrote) in
    (
      s3,
      (
        goes first (goes second (goes third stays)),
        record {
          a_open = on.a_open;
          b_open = closed' ∙ on.b_open;
          a_on = on.a_on;
          b_on = stream' ∙ on.b_on;
          idle = idle';
          quiet = refl;
          alive = alive';
          acked = on.acked;
        },
        refl,
        subst (λ n. s.b.recv < n) (sym recv') grew,
      ),
    )

-- All bytes are over.
Finished : System → System → Type 0
Finished s t =
    Run s t
    × (t.a.conn.read ≡ s.a.conn.read)
    × (t.b.recv ≡ length t.a.conn.read)
    × (t.b.conn_dead ≡ false)

all_chunks :
    (n : ℕ) {s : System}
    → Reach Settled s
    → Online s
    → length s.a.conn.read ≤ s.b.recv + n
    → (t : System) × Finished s t
unfolding Finished Further
all_chunks zero {s} r on bound =
    (s, (stays, refl, omega (arith, bound, (offsets r on).within), on.alive))
all_chunks (suc k) {s} r on bound = elim (Bool-cases (ltb s.b.recv (length s.a.conn.read))) [
  | inr e ↦ (s, (stays, refl, ground (arith, e, (offsets r on).within), on.alive))
  | inl e ↦
      let (t, (run, on', read, up)) = one_chunk r on (ground (arith, e)) in
      let left : length t.a.conn.read ≤ t.b.recv + k = omega (arith, ap length read, bound, up) in
      let (u, (run', read', all, alive)) = all_chunks k (Reach-Run r run) on' left in
      (u, (Run-trans run run', read' ∙ read, all, alive))
]

-- A session that is open has no stream after it is detached, and is otherwise as it was.
detached_open :
    (x : Session)
    → x.closed ≡ false
    → let t = force_detach x in
      (t.stream ≡ none)
      × (t.closed ≡ false)
      × (t.applying ≡ x.applying)
      × (t.conn_dead ≡ x.conn_dead)
      × (t.conn ≡ x.conn)
unfolding force_detach detach_locked
detached_open x is_open = ground arith

abbrev resumed_at : ℕ → ℕ → Session → Session
resumed_at l n x = record x {
  send_buf = drop (sub_u64 n x.send_base) x.send_buf;
  send_base = n;
  send_sent = n;
  ack_sent = x.recv;
  fin_sent = false;
  stream = some l;
  gen = x.gen + 1;
  timer = none;
}

attach_succeeds :
    (l n : ℕ) (x : Session)
    → x.closed ≡ false
    → attach l n x ≢ missing_bytes
    → (t : Session) × (attach l n x ≡ attached t)
      × (t.closed ≡ false)
      × (t.stream ≡ some l)
      × (t.applying ≡ x.applying)
      × (t.conn_dead ≡ x.conn_dead)
      × (t.conn ≡ x.conn)
      × (t.ack_sent ≡ t.recv)
unfolding attach
attach_succeeds l n x is_open within = elim (Bool-cases (ltb n x.send_base || ltb (send_end x) n)) [
  | inl e ↦ absurd (within (rw (is_open, e) refl))
  | inr e ↦ (resumed_at l n x, rw (is_open, e) refl, is_open, refl, refl, refl, refl, refl)
]

-- Both streams are lost, and `b` is resumed and then `a`.
after_resume :
    {s : System}
    → Reach Settled s
    → s.a.closed ≡ false
    → s.b.closed ≡ false
    → s.a.applying ≡ none
    → s.b.applying ≡ none
    → s.b.conn_dead ≡ false
    → (t : System) × (Run s t × Online t × (t.a.conn.read ≡ s.a.conn.read))
after_resume {s} r a_open b_open a_idle b_idle alive =
    let (a_off, a_open', a_idle', _, a_conn) = detached_open s.a a_open in
    let (b_off, b_open', b_idle', b_alive, b_conn) = detached_open s.b b_open in
    let s1 : System = record s { a = force_detach s.a } in
    let s2 : System = record s1 { b = force_detach s.b } in
    let first : Step Settled s s1 = local_a forced in
    let second : Step Settled s1 s2 = local_b forced in
    let r2 : Reach Settled s2 = next (next r first) second in
    let (b3, b_is, b_open3, b_on, b_idle3, b_alive3, b_conn3, _) =
      attach_succeeds (suc s2.link) s2.a.recv s2.b b_open' (resume_in_range r2).0 in
    let s3 : System = record s2 {
      b = b3;
      ab = [];
      ba = [];
      link = suc s2.link;
      pending = some s2.b.recv;
    } in
    let third : Step Settled s2 s3 = serve a_off (a_idle' ∙ a_idle) b_off (b_idle' ∙ b_idle) b_is in
    let r3 : Reach Settled s3 = next r2 third in
    let (a4, a_is, a_open4, a_on, _, _, a_conn4, a_acked) =
      attach_succeeds s3.link s2.b.recv s3.a a_open' ((resume_in_range r3).1 s2.b.recv refl) in
    let s4 : System = record s3 { a = a4; pending = none } in
    let fourth : Step Settled s3 s4 = accept refl a_is in
    (
      s4,
      (
        goes first (goes second (goes third (goes fourth stays))),
        record {
          a_open = a_open4;
          b_open = b_open3;
          a_on = a_on;
          b_on = b_on;
          idle = b_idle3 ∙ (b_idle' ∙ b_idle);
          quiet = refl;
          alive = b_alive3 ∙ (b_alive ∙ alive);
          acked = a_acked;
        },
        ap (λ c. c.read) (a_conn4 ∙ a_conn),
      ),
    )

take_all : (xs : List ℕ) → take (length xs) xs ≡ xs
take_all xs = ap (take (length xs)) (sym (append-nil xs)) ∙ take-length-append xs []

-- From every state that is reached while no session is resumed with a write in flight, in which both
-- sessions are open, no write is in flight and the connection of the serving end is not dead, some
-- steps lead to a state in which that end has written to its connection everything that the other end
-- had read from its own, whatever was lost with earlier streams.
pub tunnel_can_deliver :
    {s : System}
    → Reach Settled s
    → s.a.closed ≡ false
    → s.b.closed ≡ false
    → s.a.applying ≡ none
    → s.b.applying ≡ none
    → s.b.conn_dead ≡ false
    → (t : System) × (Run s t
        × (t.a.conn.read ≡ s.a.conn.read)
        × (t.b.conn.written ≡ s.a.conn.read))
unfolding Finished
tunnel_can_deliver {s} r a_open b_open a_idle b_idle alive =
    let (t, (run, on, read)) = after_resume r a_open b_open a_idle b_idle alive in
    let r' = Reach-Run r run in
    let (u, (run', read', all, alive')) = all_chunks (length t.a.conn.read) r' on (omega arith) in
    let whole = written-eq-take (Reach-Run r' run') alive' in
    (
      u,
      (
        Run-trans run run',
        read' ∙ read,
        whole ∙ (ap (λ n. take n u.a.conn.read) all ∙ (take_all u.a.conn.read ∙ (read' ∙ read))),
      ),
    )
