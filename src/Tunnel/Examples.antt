-- ===== src/Tunnel/Examples.antt =====
-- Runs of the tunnel of realm/features/services/session.go on concrete bytes.
use foilen_box.Prelude.{ℕ, ◌≡◌, ◌≢◌, refl, false, none, some, List, [], ◌∷◌, ◌++◌, take, arith}
use foilen_box.Tunnel.{
  data_frame, missing_bytes, writes, wrote, new_session, attach, pump_local, write_turn, begin_data,
  end_data,
}
use foilen_box.Tunnel.System.{
  System, local_a, local_b, write_a, data_b, serve, accept, pumped, applied, start, Reach, here,
  next, Settled, Always,
}
use foilen_box.Tunnel.Race.{client, server, state, resume_duplicates}
use foilen_box.Tunnel.Safety.{IsPrefix, tunnel_delivers, written-eq-take, resume_in_range}
use foilen_box.Tunnel.Progress.{Run, tunnel_can_deliver}
use foilen_box.Tunnel.Bounds.{InBuffer, write_turn-InBuffer}
use foilen_box.Tunnel.Codec.{encode, read_frame, got, read_frame-encode}
use foilen_box.Tunnel.Lifecycle.{IsValid, Life, born, lives, acts, attaches, Life-IsValid}

abbrev three : List ℕ
three = 7 ∷ 8 ∷ 9 ∷ []

connected :
    Reach Settled (state (client [] none (some 1) 1 0) (server [] none none (some 1) 1 0) [] 1 none)
unfolding start attach new_session
connected = next (next here (serve refl refl refl refl refl)) (accept refl refl)

abbrev delivered : System
delivered = state (client three none (some 1) 1 3) (server three none none (some 1) 1 3) [] 1 none

-- Three bytes cross the tunnel.
delivers : Reach Settled delivered
unfolding pump_local write_turn begin_data end_data
delivers =
    next
      (next
        (next (next connected (local_a (pumped three false (omega arith) (omega arith) refl)))
          (write_a refl refl))
        (data_b refl refl refl refl))
      (local_b (applied wrote))

tunnel_delivers_example : IsPrefix three three × IsPrefix [] []
tunnel_delivers_example = tunnel_delivers delivers

written-eq-take_example : three ≡ take 3 three
written-eq-take_example = written-eq-take delivers refl

resume_in_range_example :
    (attach 2 0 delivered.b ≢ missing_bytes)
    × ((n : ℕ) → none ≡ some n → attach 1 n delivered.a ≢ missing_bytes)
resume_in_range_example = resume_in_range delivers

resume_duplicates_example :
    (s : System) × Reach Always s × (s.a.conn.read ≡ three) × (s.b.conn.written ≡ three ++ three)
resume_duplicates_example = resume_duplicates three (omega arith) (omega arith)

read_frame-encode_example :
    read_frame (encode (data_frame three) ++ three) ≡ got (data_frame three) three
read_frame-encode_example = read_frame-encode (data_frame three) three (omega arith)

started : Life (client [] none (some 1) 1 0)
unfolding new_session attach
started = lives born (attaches 1 0 refl)

Life-IsValid_example : IsValid (client [] none (some 1) 1 0)
Life-IsValid_example = Life-IsValid started

abbrev in_flight : System
in_flight =
    state (client three none (some 1) 1 3) (server [] none none (some 1) 1 0)
      (data_frame three ∷ []) 1 none

-- Three bytes are on their way.
sends_three : Reach Settled in_flight
unfolding pump_local write_turn
sends_three =
    next (next connected (local_a (pumped three false (omega arith) (omega arith) refl)))
      (write_a refl refl)

tunnel_can_deliver_example :
    (t : System) × (Run in_flight t × (t.a.conn.read ≡ three) × (t.b.conn.written ≡ three))
tunnel_can_deliver_example = tunnel_can_deliver sends_three refl refl refl refl refl

has_read : Life (client three none (some 1) 1 0)
unfolding pump_local
has_read = lives started (acts (pumped three false (omega arith) (omega arith) refl))

turn_writes :
    write_turn 1 (client three none (some 1) 1 0)
    ≡ writes (client three none (some 1) 1 3) (data_frame three)
unfolding write_turn
turn_writes = refl

write_turn-InBuffer_example : InBuffer (data_frame three)
write_turn-InBuffer_example = write_turn-InBuffer 1 has_read turn_writes
