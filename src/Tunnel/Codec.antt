-- ===== src/Tunnel/Codec.antt =====
-- The frames of `writeLoop` as bytes, and how `readLoop` reads them back.
use foilen_box.Prelude.{
  ℕ, ◌+◌, ◌*◌, ◌/◌, ◌%◌, ◌≤◌, ◌<◌, ◌≡◌, refl, ap, List, [], ◌∷◌, ◌++◌, length, take, drop, arith,
  ltb, ◌==◌, if◌then◌else◌, drop-length-append, take-length-append, length-append,
}
use foilen_box.Tunnel.{Frame, data_frame, ack_frame, fin_frame, frame_max}

-- `binary.BigEndian.PutUint32` and `Uint32`, and the same for 64 bits.
abbrev be32 : ℕ → List ℕ
be32 n = n / 16777216 % 256 ∷ n / 65536 % 256 ∷ n / 256 % 256 ∷ n % 256 ∷ []

abbrev be64 : ℕ → List ℕ
be64 n = be32 (n / 4294967296) ++ be32 n

abbrev from_be32 : ℕ → ℕ → ℕ → ℕ → ℕ
from_be32 a b c d = a * 16777216 + b * 65536 + c * 256 + d

unfoldable pub encode : Frame → List ℕ
encode (data_frame p) = b'D' ∷ (be32 (length p) ++ p)
encode (ack_frame n) = b'A' ∷ be64 n
encode fin_frame = b'X' ∷ []

-- Why `readLoop` detaches the stream.
pub data ReadError : Type 0 where
  read_failed length_failed oversized data_failed ack_failed unknown_type : ReadError

pub data ReadResult : Type 0 where
  got : Frame → List ℕ → ReadResult
  failed : ReadError → ReadResult

-- `io.ReadFull(br, buf[:n])` after the check of `n`; the stream ends where the list does.
read_body : ℕ → List ℕ → ReadResult
read_body n bs =
    if ltb frame_max n
    then failed oversized
    else if ltb (length bs) n
    then failed data_failed
    else got (data_frame (take n bs)) (drop n bs)

read_data : List ℕ → ReadResult
unfolding read_body
read_data (a ∷ b ∷ c ∷ d ∷ bs) = read_body (from_be32 a b c d) bs
read_data _ = failed length_failed

read_ack : List ℕ → ReadResult
read_ack (a ∷ b ∷ c ∷ d ∷ e ∷ f ∷ g ∷ h ∷ bs) =
    got (ack_frame (from_be32 a b c d * 4294967296 + from_be32 e f g h)) bs
read_ack _ = failed ack_failed

pub read_frame : List ℕ → ReadResult
unfolding read_data read_ack
read_frame [] = failed read_failed
read_frame (t ∷ bs) =
    if t == b'D'
    then read_data bs
    else if t == b'A'
    then read_ack bs
    else if t == b'X'
    then got fin_frame bs
    else failed unknown_type

from_be32-be32 :
    (n : ℕ)
    → n < 4294967296
    → from_be32 (n / 16777216 % 256) (n / 65536 % 256) (n / 256 % 256) (n % 256) ≡ n
from_be32-be32 n h = omega arith

-- What a frame may carry: at most `frameMax` bytes, a 64-bit offset.
abbrev pub Encodable : Frame → Type 0
Encodable (data_frame p) = length p ≤ frame_max
Encodable (ack_frame n) = n < 18446744073709551616
Encodable fin_frame = Unit {0}

read_body-append :
    (p rest : List ℕ)
    → length p ≤ frame_max
    → read_body (length p) (p ++ rest) ≡ got (data_frame p) rest
unfolding read_body
read_body-append p rest h =
    ground (arith, length-append p rest, take-length-append p rest, drop-length-append p rest)

-- A frame that a session can send, followed by anything, reads back as that frame and the rest.
pub read_frame-encode :
    (f : Frame) (rest : List ℕ) → Encodable f → read_frame (encode f ++ rest) ≡ got f rest
unfolding read_frame encode
read_frame-encode (data_frame p) rest h =
    rw (from_be32-be32 (length p) (omega arith)) (read_body-append p rest h)
read_frame-encode (ack_frame n) rest h = ap (λ k. got (ack_frame k) rest) (omega arith)
read_frame-encode fin_frame rest h = refl
