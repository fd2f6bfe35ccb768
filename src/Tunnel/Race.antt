-- ===== src/Tunnel/Race.antt =====
-- A run of two sessions in which `resumeSession` attaches while a write to the local connection is
-- still in flight: `forceDetach` returns at once when the writer has already detached, so nothing
-- waits for `applyMu`, and the reply names an offset that the write in flight will pass.
use foilen_box.Prelude.{
  ℕ, zero, suc, ◌+◌, ◌≤◌, ◌<◌, ◌≡◌, refl, ap, true, false, Option, none, some, List, [], ◌∷◌, ◌++◌,
  length, arith, take, ltb, ==_iff,
}
use native.Mathlib.Nat.{zero-add}
use foilen_box.Tunnel.{
  Session, Apply, Frame, data_frame, more, writes, wrote, frame_max, attach, detach, pump_local,
  write_turn, begin_data, end_data, new_session, u64,
}
use foilen_box.Tunnel.System.{
  System, local_a, local_b, write_a, data_b, serve, accept, pumped, applied, detached, start, Reach,
  here, next, Always,
}

take_all : (n : ℕ) (p : List ℕ) → length p ≤ n → take n p ≡ p
take_all zero [] h = refl
take_all zero (x ∷ p) h = absurd (omega arith)
take_all (suc n) [] h = refl
take_all (suc n) (x ∷ p) h = ap (◌∷◌ x) (take_all n p (omega arith))

-- The two ends as they stand along the run.
abbrev pub client : List ℕ → Option ℕ → Option ℕ → ℕ → ℕ → Session
client p timer stream gen sent = record {
  conn = record { read = p; written = []; closed = false };
  applying = none;
  timer = timer;
  stream = stream;
  gen = gen;
  closed = false;
  send_buf = p;
  send_base = 0;
  send_sent = sent;
  ack_sent = 0;
  recv = 0;
  fin_queued = false;
  fin_sent = false;
  peer_fin = false;
  conn_dead = false;
  done = 0;
}

abbrev pub server : List ℕ → Option Apply → Option ℕ → Option ℕ → ℕ → ℕ → Session
server out applying timer stream gen recv = record {
  conn = record { read = []; written = out; closed = false };
  applying = applying;
  timer = timer;
  stream = stream;
  gen = gen;
  closed = false;
  send_buf = [];
  send_base = 0;
  send_sent = 0;
  ack_sent = 0;
  recv = recv;
  fin_queued = false;
  fin_sent = false;
  peer_fin = false;
  conn_dead = false;
  done = 0;
}

abbrev pub state : Session → Session → List Frame → ℕ → Option ℕ → System
state a b ab link pending = record {
  a = a;
  b = b;
  ab = ab;
  ba = [];
  link = link;
  pending = pending;
}

module _ (p : List ℕ) (some_bytes : 0 < length p) (short : length p ≤ frame_max) where
  abbrev busy : Option Apply
  busy = some (record { payload = p; dead = false })

  pumps : pump_local p false (client [] none (some 1) 1 0) ≡ more (client p none (some 1) 1 0)
  unfolding pump_local
  pumps = ground arith

  unsent_bytes : ltb 0 (u64 (0 + length p)) ≡ true
  unsent_bytes = ground arith

  sends :
      (link gen : ℕ)
      → write_turn gen (client p none (some link) gen 0)
        ≡ writes (client p none (some link) gen (u64 (length p))) (data_frame p)
  unfolding write_turn
  sends link gen = rw ((==_iff gen gen).1 refl, unsent_bytes, take_all frame_max p short, zero-add)

  connected :
      Reach Always
        (state (client [] none (some 1) 1 0) (server [] none none (some 1) 1 0) [] 1 none)
  unfolding start attach new_session
  connected = next (next here (serve refl refl refl tt refl)) (accept refl refl)

  first_write : Reach Always (
      state
        (client p none (some 1) 1 (u64 (length p)))
        (server [] none none (some 1) 1 0)
        (data_frame p ∷ [])
        1
        none)
  first_write =
      next (next connected (local_a (pumped p false short (omega arith) pumps)))
        (write_a refl (sends 1 1))

  both_detached : Reach Always (
      state
        (client p (some 2) none 2 (u64 (length p)))
        (server [] busy (some 2) none 2 0)
        []
        1
        none)
  unfolding detach begin_data
  both_detached =
      next (next (next first_write (data_b refl refl refl refl)) (local_b (detached 1)))
        (local_a (detached 1))

  resumed : Reach Always (
      state
        (client p none (some 2) 3 0)
        (server p none none (some 2) 3 (u64 (0 + length p)))
        []
        2
        none)
  unfolding attach end_data
  resumed =
      next (next (next both_detached (serve refl refl refl tt refl)) (local_b (applied wrote)))
        (accept refl (ground arith))

  twice : Reach Always (
      state
        (client p none (some 2) 3 (u64 (length p)))
        (server (p ++ p) none none (some 2) 3 (u64 (u64 (0 + length p) + length p)))
        []
        2
        none)
  unfolding begin_data end_data
  twice =
      next (next (next resumed (write_a refl (sends 2 3))) (data_b refl refl refl refl))
        (local_b (applied wrote))

  -- When a resume does not wait for a write in flight, as the code does not after a detach, some
  -- run writes any given bytes, at least one and at most a frame, twice to the served connection.
  pub resume_duplicates :
      (s : System) × Reach Always s × (s.a.conn.read ≡ p) × (s.b.conn.written ≡ p ++ p)
  resume_duplicates = (_, twice, refl, refl)
