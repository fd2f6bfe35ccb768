-- ===== src/Tunnel/Resume.antt =====
-- Both directions of a tunnel hold along every step of the two sessions.
use foilen_box.Prelude.{
  ℕ, suc, ◌+◌, ◌≤◌, ◌<◌, ◌∙◌, ◌≡◌, refl, ap, ◌⊎◌, inl, inr, true, none, some, List, [], ◌∷◌, ◌++◌,
  length, append-nil, drop,
}
use foilen_box.Tunnel.{
  Session, Frame, data_frame, ack_frame, fin_frame, attached, attach, begin_data, apply_ack,
  apply_fin, next_chunk, sub_u64,
}
use foilen_box.Tunnel.Views.{
  sender, receiver, grow, unplug, Kept, Grown, detach-Kept, force_detach-Kept, shutdown-Kept,
  grace_over-Kept, pump_local-more, pump_local-stopped, begin_data_lem, apply_fin_lem,
  sender-end_data, Wrote, acks, sends, fins, apply_ack_lem, attach_lem,
}
use foilen_box.Tunnel.System.{Local, pumped, pump_ended, applied, detached, forced, expired, shut}
use foilen_box.Tunnel.Flow.{Flow, chunk, wire_bytes, frame_bytes}
use foilen_box.Tunnel.Flow.Lists.{wire_bytes-append}
use foilen_box.Tunnel.Flow.Sending.{
  grow-Flow, unplug-Flow, send_plain, send_data, free_acked, restart, lose_wires, lose_acks,
}
use foilen_box.Tunnel.Flow.Receiving.{
  take_plain, take_ack, begin, send_ack, send_other, attach_acks, die,
}
use foilen_box.Tunnel.Flow.Applying.{end_data-Flow}

-- `w` goes from `x` to `y`, and `v` back.
pub record Both (link : ℕ) (x y : Session) (w v : List Frame) : Type 0 where
  pub there : Flow link (sender x) (receiver y) w v
  pub back : Flow link (sender y) (receiver x) v w

pub turn : {link : ℕ} {x y : Session} {w v : List Frame} → Both link x y w v → Both link y x v w
turn both = record { there = both.back; back = both.there }

wire_plain :
    (w : List Frame) (f : Frame) → frame_bytes f ≡ [] → wire_bytes (w ++ f ∷ []) ≡ wire_bytes w
wire_plain w f e =
    wire_bytes-append w (f ∷ []) ∙ ap (λ p. wire_bytes w ++ (p ++ [])) e ∙ append-nil (wire_bytes w)

module _ {link : ℕ} {x y : Session} {w v : List Frame} (both : Both link x y w v) where
  with_sender :
      (t : Session)
      → (sender t ≡ sender x) ⊎ (sender t ≡ unplug (sender x))
      → Flow link (sender t) (receiver y) w v
  with_sender t (inl e) = rw e both.there
  with_sender t (inr e) = rw e (unplug-Flow both.there)

  Kept-Both : (t : Session) → Kept x t → Both link t y w v
  Kept-Both t k = record { there = with_sender t k.0; back = rw (k.1) both.back }

  Grown-Both :
      (t : Session) (p : List ℕ)
      → length x.conn.read + length p < 18446744073709551616
      → Grown p x t
      → Both link t y w v
  Grown-Both t p fits g = record { there = go (g.0); back = rw (g.1) both.back }
    where
      go :
          (sender t ≡ sender x) ⊎ (sender t ≡ grow p (sender x))
          → Flow link (sender t) (receiver y) w v
      go (inl e) = rw e both.there
      go (inr e) = rw e (grow-Flow both.there p fits)

  pub Local-Both : {t : Session} → Local x t → Both link t y w v
  Local-Both {t} (pumped p failed short fits e) =
      Grown-Both t p fits (pump_local-more p failed x t e)
  Local-Both {t} (pump_ended p failed short fits e) =
      Grown-Both t p fits (pump_local-stopped p failed x t e)
  Local-Both (applied r) = record {
    there = rw (sender-end_data r x) both.there;
    back = end_data-Flow x r both.back;
  }
  Local-Both (detached gen) = Kept-Both _ (detach-Kept gen x)
  Local-Both forced = Kept-Both _ (force_detach-Kept x)
  Local-Both (expired gen) = Kept-Both _ (grace_over-Kept gen x)
  Local-Both shut = Kept-Both _ (shutdown-Kept x)

  pub write-Both :
      {t : Session} {f : Frame} → x.stream ≡ some link → Wrote x t f → Both link t y (w ++ f ∷ []) v
  write-Both on (acks p q) = record {
    there = rw p (send_plain both.there _ (wire_plain w (ack_frame x.recv) refl));
    back = rw q (send_ack both.back);
  }
  write-Both on (sends p q) = record {
    there = rw p (send_data both.there (next_chunk x) refl on);
    back = rw q (send_other _ tt both.back);
  }
  write-Both on (fins p q) = record {
    there = rw p (send_plain both.there _ (wire_plain w fin_frame refl));
    back = rw q (send_other _ tt both.back);
  }

module _ {link : ℕ} {x y : Session} {w v : List Frame} where
  pub data-Both :
      {t : Session} (p : List ℕ)
      → x.applying ≡ none
      → begin_data x.gen p x ≡ some t
      → Both link x y w (data_frame p ∷ v)
      → Both link t y w v
  data-Both {t} p idle e both =
      let (same, new) = begin_data_lem x.gen p x t e in
      record { there = rw same (take_ack _ both.there); back = rw new (begin p idle both.back) }

  pub ack-Both :
      {t : Session} (n : ℕ)
      → x.stream ≡ some link
      → apply_ack x.gen n x ≡ some t
      → Both link x y w (ack_frame n ∷ v)
      → Both link t y w v
  ack-Both {t} n on e both = record {
    there = go (apply_ack_lem x.gen n x t e).1;
    back = rw ((apply_ack_lem x.gen n x t e).0) (take_plain _ refl both.back);
  }
    where
      go :
          (sender t ≡ sender x)
            ⊎ ((x.send_base ≤ n)
                × (sender t ≡ record (sender x) {
                  buf = drop (sub_u64 n x.send_base) x.send_buf;
                  base = n;
                }))
          → Flow link (sender t) (receiver y) w v
      go (inl s) = rw s (take_ack _ both.there)
      go (inr (lo, s)) = rw s (free_acked (take_ack _ both.there) on n lo both.there.acks.0)

  pub fin-Both :
      x.applying ≡ none → Both link x y w (fin_frame ∷ v) → Both link (apply_fin x.gen x).0 y w v
  fin-Both idle both = record {
    there = with_sender' (apply_fin_lem x.gen x).0;
    back = with_receiver (apply_fin_lem x.gen x).1;
  }
    where
      t : Session
      t = (apply_fin x.gen x).0

      with_sender' :
          (sender t ≡ sender x) ⊎ (sender t ≡ unplug (sender x))
          → Flow link (sender t) (receiver y) w v
      with_sender' (inl e) = rw e (take_ack _ both.there)
      with_sender' (inr e) = rw e (unplug-Flow (take_ack _ both.there))

      with_receiver :
          (receiver t ≡ receiver x) ⊎ (receiver t ≡ record (receiver x) { dead = true })
          → Flow link (sender y) (receiver t) v w
      with_receiver (inl e) = rw e (take_plain _ refl both.back)
      with_receiver (inr e) = rw e (die idle (take_plain _ refl both.back))

module _ {link : ℕ} {x y : Session} {w v : List Frame} (both : Both link x y w v) where
  -- `resumeSession`: `y` attaches at the offset in the header of `x`.
  pub serve-Both :
      {t : Session}
      → x.stream ≡ none
      → x.applying ≡ none
      → attach (suc link) x.recv y ≡ attached t
      → Both (suc link) x t [] []
  serve-Both {t} off idle e =
      let (r, s) = attach_lem (suc link) x.recv y t e in
      record {
        there = rw r (attach_acks (lose_wires both.there (suc link) off));
        back = rw s (lose_acks (restart both.back (suc link) (ap chunk idle)));
      }

-- `resumeTunnel`: `x` attaches at the offset in the reply of `y`.
pub accept-Both :
    {link : ℕ} {x y t : Session} {v : List Frame}
    → y.applying ≡ none
    → attach link y.recv x ≡ attached t
    → Both link x y [] v
    → Both link t y [] v
accept-Both {link} {x} {y} {t} idle e both =
    let (r, s) = attach_lem link y.recv x t e in
    record {
      there = rw s (restart both.there link (ap chunk idle));
      back = rw r (attach_acks both.back);
    }
