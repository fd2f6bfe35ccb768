-- ===== src/Exchange/Editing/Open.antt =====
-- Boxes to run realm/features/maps/crypto.go on: nothing is hidden, and a box carries the key that
-- opens it.
use foilen_box.Prelude.{
  ◌≡◌, refl, sym, Option, none, some, [], ◌∷◌, ◌++◌, Text, length, take, drop, take-length-append,
  drop-length-append, cut_prefix, cut_prefix-append,
}
use foilen_box.Access.Plain.{plain}
use foilen_box.Exchange.Encryption.{Boxes}

-- A key of 32 bytes.
abbrev pub bytes_32 : Text
bytes_32 =
    1 ∷ 2 ∷ 3 ∷ 4 ∷ 5 ∷ 6 ∷ 7 ∷ 8 ∷ 1 ∷ 2 ∷ 3 ∷ 4 ∷ 5 ∷ 6 ∷ 7 ∷ 8 ∷ 1 ∷ 2 ∷ 3 ∷ 4 ∷ 5 ∷ 6 ∷ 7 ∷ 8
    ∷ 1 ∷ 2 ∷ 3 ∷ 4 ∷ 5 ∷ 6 ∷ 7 ∷ 8 ∷ []

-- The payload starts with the length of the key.
abbrev pub decode_pair : Text → Option (Text × Text)
decode_pair [] = none
decode_pair (n ∷ t) = some (take n t, drop n t)

pub decode_pair-cons : (k v : Text) → decode_pair (length k ∷ (k ++ v)) ≡ some (k, v)
decode_pair-cons k v = rw (take-length-append k v, drop-length-append k v) refl

abbrev pub glass : Boxes plain
glass = record {
  raw_public = λ k. some bytes_32;
  raw_private = λ k. some (bytes_32 ++ bytes_32);
  montgomery = λ raw. some raw;
  sha512 = λ t. t ++ t;
  sha256 = λ t. t;
  hex = λ t. t;
  seal_anonymous = λ r m p. some m;
  open_anonymous = λ sealed p s. some sealed;
  seal = λ m n k. k ++ m;
  open_secret = λ sealed n k. cut_prefix k sealed;
  encode_payload = λ k v. length k ∷ (k ++ v);
  decode_payload = decode_pair;
  Paired = λ p s. Unit {0};
  open-seal_anonymous = λ r m sealed p s u e. sym e;
  open-seal = λ m n k. cut_prefix-append k m;
  decode-encode_payload = decode_pair-cons;
}
