-- ===== src/Ring/Connecting.antt =====
-- Which peers `connectRingCandidates` of realm/connection_ring.go ends up with.
use foilen_box.Prelude.{
  ℕ, zero, suc, ◌+◌, ◌≡◌, refl, ap, inl, inr, Bool, true, false, List, [], ◌∷◌, Text, arith, take,
  leb, if◌then◌else◌, Bool-cases,
}
use foilen_box.Peers.{Peers}
use foilen_box.Ring.{Network, reached, connect_from, connect_ring_candidates}

abbrev pub filter : (Text → Bool) → List Text → List Text
filter keep [] = []
filter keep (x ∷ xs) = if keep x then x ∷ filter keep xs else filter keep xs

-- What the loop tries: it goes on until enough are found.
abbrev pub until : (Text → Bool) → ℕ → List Text → List Text
until keep zero xs = []
until keep (suc n) [] = []
until keep (suc n) (x ∷ xs) = x ∷ (if keep x then until keep n xs else until keep (suc n) xs)

module _ (net : Network) (peers : Peers) where
  connect_from_lem :
      (want left found : ℕ) (candidates : List Text)
      → want ≡ found + left
      → ((connect_from net want peers candidates found).0
          ≡ take left (filter (reached net peers) candidates))
        × ((connect_from net want peers candidates found).1
            ≡ until (reached net peers) left candidates)
  unfolding connect_from
  connect_from_lem want zero found [] h = (refl, refl)
  connect_from_lem want (suc left) found [] h = (refl, refl)
  connect_from_lem want zero found (c ∷ cs) h =
      let full : leb want found ≡ true = ground arith in (rw full, rw full)
  connect_from_lem want (suc left) found (c ∷ cs) h =
      let room : leb want found ≡ false = ground arith in
      let hit = connect_from_lem want left (suc found) cs (omega arith) in
      let missed = connect_from_lem want (suc left) found cs h in
      elim (Bool-cases (reached net peers c)) [
        | inl e ↦ (rw (room, e) (ap (◌∷◌ c) hit.0), rw (room, e) (ap (◌∷◌ c) hit.1))
        | inr e ↦ (rw (room, e) missed.0, rw (room, e) (ap (◌∷◌ c) missed.1))
      ]

  -- The peers found are the first reachable candidates, as many as are wanted or there are; those
  -- tried are the candidates in order up to the last one wanted, and nobody after it is dialled.
  pub connect_ring_candidates_lem :
      (candidates : List Text) (want : ℕ)
      → ((connect_ring_candidates net peers candidates want).0
          ≡ take want (filter (reached net peers) candidates))
        × ((connect_ring_candidates net peers candidates want).1
            ≡ until (reached net peers) want candidates)
  unfolding connect_ring_candidates
  connect_ring_candidates_lem candidates want =
      connect_from_lem want want 0 candidates (omega arith)
