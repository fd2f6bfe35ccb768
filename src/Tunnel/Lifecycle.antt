-- ===== src/Tunnel/Lifecycle.antt =====
-- The life of one session: its generation, its grace timer, its end, and the bound on its buffer.
use foilen_box.Prelude.{
  ℕ, ◌+◌, ◌≤◌, ◌<◌, ◌≡◌, ◌≢◌, refl, inl, inr, Bool, true, false, not, ◌||◌, none, some, List,
  length, arith, length-append, length-drop, Bool-cases, ◌==◌, ==_iff, ltb, if◌then◌else◌, sym,
  subst,
}
use foilen_box.Tunnel.{
  Session, Frame, fin_frame, attached, waits, returns, writes, max_unacked, frame_max, send_end,
  new_session, attach, detach, force_detach, shutdown, grace_over, pump_local, has_work, next_frame,
  write_turn, begin_data, end_data, apply_ack, apply_fin, sub_u64,
}
use foilen_box.Tunnel.System.{Local, pumped, pump_ended, applied, detached, forced, expired, shut}

abbrev closings : Bool → ℕ
closings true = 1
closings false = 0

-- What holds of a session between two critical sections.
pub record IsValid (s : Session) : Type 0 where
  pub buffer_bounded : length s.send_buf < max_unacked + frame_max
  pub closed_once : s.done ≡ closings s.closed
  pub closed_offline :
      s.closed ≡ true → (s.stream ≡ none) × (s.timer ≡ none) × (s.conn.closed ≡ true)
  pub timer_current : (g : ℕ) → s.timer ≡ some g → (g ≡ s.gen) × (s.stream ≡ none)
  pub fin_queued_first : s.fin_sent ≡ true → s.fin_queued ≡ true
  pub peer_fin_dead : s.peer_fin ≡ true → (s.conn_dead ≡ true) × (s.conn.closed ≡ true)
  pub dead_queues_fin : s.conn_dead ≡ true → s.fin_queued ≡ true

-- Every critical section of a session.
pub data Act (s : Session) : Session → Type 0 where
  acts : {t : Session} → Local s t → Act s t
  attaches : {t : Session} (link n : ℕ) → attach link n s ≡ attached t → Act s t
  turns : {t : Session} {f : Frame} (gen : ℕ) → write_turn gen s ≡ writes t f → Act s t
  begins : {t : Session} (gen : ℕ) (p : List ℕ) → begin_data gen p s ≡ some t → Act s t
  acked : {t : Session} (gen off : ℕ) → apply_ack gen off s ≡ some t → Act s t
  ended : (gen : ℕ) → Act s (apply_fin gen s).0

pub data Life : Session → Type 0 where
  born : Life new_session
  lives : {s t : Session} → Life s → Act s t → Life t

new_session-IsValid : IsValid new_session
unfolding new_session
new_session-IsValid = ground arith

Local-IsValid : {s t : Session} → Local s t → IsValid s → IsValid t
unfolding pump_local end_data detach force_detach grace_over shutdown
Local-IsValid {s} (pumped p failed short fits e) v = ground (arith, length-append s.send_buf p)
Local-IsValid {s} (pump_ended p failed short fits e) v = ground (arith, length-append s.send_buf p)
Local-IsValid (applied r) v = ground arith
Local-IsValid (detached gen) v = ground arith
Local-IsValid forced v = ground arith
Local-IsValid (expired gen) v = ground arith
Local-IsValid shut v = ground arith

turn_cases :
    (b c d : Bool) (x t : Session) (g f : Frame)
    → (if not b || c then returns else if d then writes x g else waits) ≡ writes t f
    → (b ≡ true) × (c ≡ false) × (d ≡ true) × (x ≡ t) × (g ≡ f)
turn_cases true false true x t g f h = (refl, refl, refl, cc, cc)
turn_cases false c d x t g f h = cc
turn_cases true true d x t g f h = cc
turn_cases true false false x t g f h = cc

-- A frame is written only by a loop of the current generation that has work.
write_turn_inv :
    (gen : ℕ) (s t : Session) (f : Frame)
    → write_turn gen s ≡ writes t f
    → ((s.gen == gen) ≡ true)
      × (s.closed ≡ false)
      × (has_work s ≡ true)
      × ((next_frame s).0 ≡ t)
      × ((next_frame s).1 ≡ f)
unfolding write_turn
write_turn_inv gen s t f h =
    turn_cases (s.gen == gen) s.closed (has_work s) (next_frame s).0 t (next_frame s).1 f h

-- With no bytes to acknowledge or to send, the work is the FIN.
only_fin :
    (s : Session)
    → has_work s ≡ true
    → ltb s.ack_sent s.recv ≡ false
    → ltb s.send_sent (send_end s) ≡ false
    → (s.fin_queued ≡ true) × (s.fin_sent ≡ false)
unfolding has_work
only_fin s h e k = ground arith

next_frame-IsValid : (s : Session) → has_work s ≡ true → IsValid s → IsValid (next_frame s).0
unfolding next_frame
next_frame-IsValid s h v = elim (Bool-cases (ltb s.ack_sent s.recv)) [
  | inl e ↦ rw e (ground arith)
  | inr e ↦ elim (Bool-cases (ltb s.send_sent (send_end s))) [
    | inl k ↦ rw (e, k) (ground arith)
    | inr k ↦ rw (e, k) (ground (arith, only_fin s h e k))
  ]
]

Act-IsValid : {s t : Session} → Act s t → IsValid s → IsValid t
unfolding attach begin_data apply_ack apply_fin
Act-IsValid (acts l) v = Local-IsValid l v
Act-IsValid {s} (attaches link n e) v =
    ground (arith, length-drop (sub_u64 n s.send_base) s.send_buf)
Act-IsValid {s} {t} (turns {f = f} gen e) v =
    let (_, _, work, e', _) = write_turn_inv gen s t f e in
    subst IsValid e' (next_frame-IsValid s work v)
Act-IsValid (begins gen p e) v = ground arith
Act-IsValid {s} (acked gen off e) v =
    ground (arith, length-drop (sub_u64 off s.send_base) s.send_buf)
Act-IsValid (ended gen) v = ground arith

-- Whatever critical sections run, in any order: the send buffer stays below maxUnacked and one frame,
-- `done` is closed once if the session is closed and never otherwise, a closed session has neither
-- stream nor timer and its connection is closed, an armed timer is of the current generation and
-- there is no stream then, a FIN is sent only once it is queued, the peer's FIN leaves the connection
-- dead and closed, and a dead connection has its FIN queued.
pub Life-IsValid : {s : Session} → Life s → IsValid s
Life-IsValid born = new_session-IsValid
Life-IsValid (lives l a) = Act-IsValid a (Life-IsValid l)

fin_order :
    (s : Session)
    → has_work s ≡ true
    → (next_frame s).1 ≡ fin_frame
    → (s.fin_queued ≡ true)
      × (s.fin_sent ≡ false)
      × (send_end s ≤ s.send_sent)
      × (s.recv ≤ s.ack_sent)
      × (has_work (next_frame s).0 ≡ false)
unfolding next_frame
fin_order s w h = elim (Bool-cases (ltb s.ack_sent s.recv)) [
  | inl e ↦ absurd (ground arith)
  | inr e ↦ elim (Bool-cases (ltb s.send_sent (send_end s))) [
    | inl k ↦ absurd (ground arith)
    | inr k ↦
        let (q, n) = only_fin s w e k in
        (q, n, ground arith, ground arith, rw (e, k) (unfold has_work in rw (e, k, q)))
  ]
]

-- A FIN is written once for a stream, after the end was queued, and only when every buffered byte
-- has been sent and everything received has been acknowledged.
pub fin_after_data :
    (gen : ℕ) (s t : Session)
    → write_turn gen s ≡ writes t fin_frame
    → (s.fin_queued ≡ true)
      × (s.fin_sent ≡ false)
      × (send_end s ≤ s.send_sent)
      × (s.recv ≤ s.ack_sent)
      × (has_work t ≡ false)
unfolding write_turn
fin_after_data gen s t h =
    let (cur, open_, work, e, k) = write_turn_inv gen s t fin_frame h in
    let (a, b, c, d, z) = fin_order s work k in (a, b, c, d, subst (λ u. has_work u ≡ false) e z)

-- A loop, a timer or a frame of an older generation changes nothing.
pub stale_ignored :
    (gen : ℕ) (s : Session)
    → gen ≢ s.gen
    → (write_turn gen s ≡ returns)
      × ((p : List ℕ) → begin_data gen p s ≡ none)
      × ((off : ℕ) → apply_ack gen off s ≡ none)
      × (apply_fin gen s ≡ (s, true))
      × (detach gen s ≡ (s, false))
      × (grace_over gen s ≡ s)
unfolding write_turn begin_data apply_ack apply_fin detach grace_over
stale_ignored gen s h = elim (Bool-cases (s.gen == gen)) [
  | inl e ↦ absurd (h (sym ((==_iff s.gen gen).0 e)))
  | inr e ↦ (rw e, λ p. ground arith, λ off. ground arith, ground arith, ground arith, ground arith)
]

-- The grace period: after a detach the armed timer ends the session, unless a stream was attached
-- in time; then it does nothing.
pub grace_after_detach :
    (gen link n : ℕ) (s t u : Session)
    → detach gen s ≡ (t, true)
    → attach link n t ≡ attached u
    → (t.timer ≡ some t.gen) × ((grace_over t.gen t).closed ≡ true) × (grace_over t.gen u ≡ u)
unfolding detach attach grace_over
grace_after_detach gen link n s t u h k = ground arith
