-- ===== src/Tunnel/Flow/Lists.antt =====
-- The list equations behind the flow of bytes in one direction of a tunnel.
use foilen_box.Prelude.{
  ℕ, zero, suc, ◌+◌, ◌≤◌, ◌≡◌, refl, sym, ap, ◌∙◌, List, [], ◌∷◌, ◌++◌, arith, length, take, drop,
  All, append_assoc, drop-append_le, drop-length-append, drop-drop,
}
use foilen_box.Tunnel.{Frame, data_frame, ack_frame, fin_frame}
use foilen_box.Tunnel.Flow.{wire_bytes, frame_bytes, AckBelow}

module _ {ℓ} {A : Type ℓ} where
  -- A split of a suffix survives growth at the end.
  pub split_grow :
      (j k : ℕ) (xs p q : List A)
      → j ≤ length p
      → k ≤ length p
      → xs ++ drop k p ≡ drop j p
      → xs ++ drop k (p ++ q) ≡ drop j (p ++ q)
  split_grow j k xs p q hj hk e =
      rw (drop-append_le k p q hk, drop-append_le j p q hj, ← append_assoc, e)

  -- What follows a prefix of `drop k xs` is a later suffix.
  pub drop_split :
      (k : ℕ) (p rest xs : List A) → p ++ rest ≡ drop k xs → drop (k + length p) xs ≡ rest
  drop_split k p rest xs e =
      sym (drop-drop (length p) k xs) ∙ ap (drop (length p)) (sym e) ∙ drop-length-append p rest

pub wire_bytes-append : (w v : List Frame) → wire_bytes (w ++ v) ≡ wire_bytes w ++ wire_bytes v
wire_bytes-append [] v = refl
wire_bytes-append (f ∷ w) v =
    ap (◌++◌ (frame_bytes f)) (wire_bytes-append w v)
    ∙ sym (append_assoc (frame_bytes f) (wire_bytes w) (wire_bytes v))

-- The chunk that is copied out of a buffer, and what follows it.
pub take_split {ℓ} :
    {A : Type ℓ} (n : ℕ) (xs : List A) → take n xs ++ drop (length (take n xs)) xs ≡ xs
take_split zero xs = refl
take_split (suc n) [] = refl
take_split (suc n) (x ∷ xs) = ap (◌∷◌ x) (take_split n xs)

pub AckBelow-mono : {m n : ℕ} (v : List Frame) → m ≤ n → All (AckBelow m) v → All (AckBelow n) v
AckBelow-mono [] h a = tt
AckBelow-mono (data_frame p ∷ v) h a = (tt, AckBelow-mono v h a.1)
AckBelow-mono (ack_frame k ∷ v) h a = (omega arith, AckBelow-mono v h a.1)
AckBelow-mono (fin_frame ∷ v) h a = (tt, AckBelow-mono v h a.1)

pub AckBelow-snoc :
    (n : ℕ) (v : List Frame) (f : Frame)
    → All (AckBelow n) v
    → AckBelow n f
    → All (AckBelow n) (v ++ f ∷ [])
AckBelow-snoc n [] f a b = (b, tt)
AckBelow-snoc n (g ∷ v) f a b = (a.0, AckBelow-snoc n v f a.1 b)
