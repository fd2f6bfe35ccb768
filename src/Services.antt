-- ===== src/Services.antt =====
-- realm/features/services/feature.go: the tunnels that a peer serves, and the local ports of those
-- that it opens. A session is an object that its table entry, its loops and its closures share, so
-- the sessions stand in a heap and are named by their place in it. A session that is closed leaves
-- the table in the same step; the code closes it under its own lock and calls `onDone` later.
pub mod Ports
pub mod Table
pub mod Handling
pub mod Removal
mod Examples
use foilen_box.Prelude.{
  ℕ, zero, suc, ◌+◌, ◌-◌, ◌%◌, Bool, true, false, not, ◌&&◌, ◌||◌, Option, none, some, List, [],
  ◌∷◌, ◌++◌, Text, codes, Map, lookup, insert, delete, length, get_elem?, text_eq, is_empty, ◌==◌,
  if◌then◌else◌,
}
use foilen_box.Tunnel.{
  Session, Attached, attached, session_closed, missing_bytes, new_session, attach, force_detach,
  shutdown,
}

-- realm/model/service.go
pub record Service : Type 0 where
  pub name : Text
  pub description : Text
  pub hostname : Text
  pub type : Text
  pub port : ℕ

pub record Header : Type 0 where
  pub service_name : Text
  pub session_id : Text
  pub resume : Bool
  pub recv : ℕ

-- A session with what its closure `onDone` knows of it.
pub record Entry : Type 0 where
  pub key : Text
  pub peer_id : Text
  pub session : Session

pub record Feature : Type 0 where
  pub heap : List Entry
  pub sessions : Map ℕ

unfoldable pub set_at : ℕ → Session → List Entry → List Entry
set_at n t [] = []
set_at zero t (e ∷ es) = record e { session = t } ∷ es
set_at (suc n) t (e ∷ es) = e ∷ set_at n t es

unfoldable pub set_session : ℕ → Session → Feature → Feature
unfolding set_at
set_session n t f = record f { heap = set_at n t f.heap }

abbrev pub is_place : ℕ → Option ℕ → Bool
is_place n none = false
is_place n (some k) = k == n

unfoldable pub remove_session : Text → ℕ → Feature → Feature
remove_session key n f =
    if is_place n (lookup key f.sessions) then record f { sessions = delete key f.sessions } else f

-- `shutdown` with the `onDone` that `handleTunnelStream` gives.
unfoldable pub shut : ℕ → Feature → Feature
unfolding set_session remove_session
shut n f = elim (get_elem? f.heap n) [
  | none ↦ f
  | some e ↦
      if e.session.closed then f else remove_session e.key n (set_session n (shutdown e.session) f)
]

unfoldable pub find_service : List Service → Text → Option Service
find_service [] name = none
find_service (s ∷ services) name =
    if text_eq s.name name then some s else find_service services name

-- How the calls of the stream and of the network turn out: the terminator of the header is read,
-- the service is dialled, the answer is written.
pub record Io : Type 0 where
  pub terminated : Bool
  pub dialled : Bool
  pub acked : Bool

pub data Outcome : Type 0 where
  not_allowed session_id_required unterminated no_such_service udp_unsupported : Outcome
  dial_failed unknown_session ack_failed attach_failed opened : Outcome
  resumed : ℕ → Outcome

attach_to : ℕ → Attached → Outcome → Feature → Feature × Outcome
unfolding set_session shut
attach_to n (attached t) ok f = (set_session n t f, ok)
attach_to n session_closed ok f = (shut n f, attach_failed)
attach_to n missing_bytes ok f = (shut n f, attach_failed)

-- `resumeSession` once the session is found.
resume_found : Io → ℕ → ℕ → Entry → ℕ → Feature → Feature × Outcome
unfolding attach_to set_session
resume_found io link n e recv f =
    let s = force_detach e.session in
    if e.session.closed
    then (f, unknown_session)
    else if not io.acked
    then (set_session n s f, ack_failed)
    else attach_to n (attach link recv s) (resumed s.recv) (set_session n s f)

unfoldable pub resume_session : Io → ℕ → Text → Header → Feature → Feature × Outcome
unfolding resume_found
resume_session io link key header f = elim (lookup key f.sessions) [
  | none ↦ (f, unknown_session)
  | some n ↦ elim (get_elem? f.heap n) [
    | none ↦ (f, unknown_session)
    | some e ↦ resume_found io link n e header.recv f
  ]
]

unfoldable pub add_session : Text → Text → Feature → Feature
add_session key remote f = record {
  heap = f.heap ++ (record { key = key; peer_id = remote; session = new_session }) ∷ [];
  sessions = insert key (length f.heap) f.sessions;
}

open_session : Io → ℕ → Text → Text → Option Service → Feature → Feature × Outcome
unfolding add_session attach_to
open_session io link key remote none f = (f, no_such_service)
open_session io link key remote (some svc) f =
    if text_eq svc.type (codes "udp")
    then (f, udp_unsupported)
    else if not io.dialled
    then (f, dial_failed)
    else if not io.acked
    then (f, ack_failed)
    else attach_to (length f.heap) (attach link 0 new_session) opened (add_session key remote f)

abbrev pub session_key : Text → Header → Text
session_key remote header = remote ++ (codes "|" ++ header.session_id)

-- The handler once the header is decoded; `allowed` is what `IsAllowed` says of the remote peer.
unfoldable pub handle_tunnel_stream :
    Io → Bool → List Service → ℕ → Text → Header → Feature → Feature × Outcome
unfolding open_session resume_session
handle_tunnel_stream io allowed services link remote header f =
    if not allowed
    then (f, not_allowed)
    else if is_empty header.session_id
    then (f, session_id_required)
    else if not io.terminated
    then (f, unterminated)
    else if header.resume
    then resume_session io link (session_key remote header) header f
    else open_session io link (session_key remote header) remote
        (find_service services header.service_name) f

served_by : Text → List Entry → Map ℕ → List ℕ
served_by id heap [] = []
served_by id heap ((key, n) ∷ sessions) =
    let rest = served_by id heap sessions in
    elim (get_elem? heap n) [
      | none ↦ rest
      | some e ↦ if text_eq e.peer_id id then n ∷ rest else rest
    ]

shut_all : List ℕ → Feature → Feature
unfolding shut
shut_all [] f = f
shut_all (n ∷ ns) f = shut_all ns (shut n f)

-- The first half of `OnPeerRemoved`: the sessions that the removed peer was served.
unfoldable pub end_sessions_of : Text → Feature → Feature
unfolding served_by shut_all
end_sessions_of id f = shut_all (served_by id f.heap f.sessions) f

unfoldable pub proxy_key : Text → Text → Text
proxy_key peer_id service_name = peer_id ++ (codes "|" ++ service_name)

unfoldable pub split_proxy_key : Text → Text × Text
split_proxy_key [] = ([], [])
split_proxy_key (c ∷ key) =
    let rest = split_proxy_key key in if c == b'|' then ([], key) else (c ∷ rest.0, rest.1)

abbrev pub local_port_range_start : ℕ
local_port_range_start = 49152

abbrev pub local_port_range_end : ℕ
local_port_range_end = 65535

abbrev pub range_size : ℕ
range_size = local_port_range_end - local_port_range_start + 1

-- The loop of `listenDeterministic` from its `i`-th turn on, `left` turns before the end; `free`
-- says whether listening on a port succeeds.
unfoldable pub listen_from : (ℕ → Bool) → ℕ → ℕ → ℕ → Option ℕ
listen_from free start i zero = none
listen_from free start i (suc left) =
    let rest = listen_from free start (suc i) left in
    let port = local_port_range_start + (start + i) % range_size in
    if free port then some port else rest

-- `fnv32a` is the hash of hash/fnv.
unfoldable pub listen_deterministic : (Text → ℕ) → (ℕ → Bool) → Text → Text → Option ℕ
unfolding listen_from
listen_deterministic fnv32a free peer_id service_name =
    listen_from free (fnv32a (peer_id ++ (codes "|" ++ service_name)) % range_size) 0 range_size
