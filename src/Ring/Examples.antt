-- ===== src/Ring/Examples.antt =====
-- Small rings of realm/connection_ring.go.
use foilen_box.Prelude.{◌≡◌, true, false, some, List, [], ◌∷◌, Text, codes, arith}
use foilen_box.Ring.{Network, forward, backward, ring_candidate_order}
use foilen_box.Ring.Order.{ring_candidate_order_lem}

abbrev ring : List Text
ring = codes "a" ∷ codes "b" ∷ codes "c" ∷ codes "d" ∷ []

ring_candidate_order_lem_example :
    (ring_candidate_order ring 1 forward ≡ some (codes "c" ∷ codes "d" ∷ codes "a" ∷ []))
    × (ring_candidate_order ring 1 backward ≡ some (codes "a" ∷ codes "d" ∷ codes "c" ∷ []))
ring_candidate_order_lem_example = ring_candidate_order_lem ring 1 (omega arith)

-- A network in which ids are texts and everybody is connected.
abbrev all_connected : Network
all_connected = record {
  Pid = Text;
  Addr = Text;
  decode = λ id. some id;
  connected = λ id. true;
  parse = λ addrs. addrs;
  dial = λ id addrs. false;
}
