-- ===== src/Services/Handling.antt =====
-- `handleTunnelStream` and `OnPeerRemoved` of realm/features/services/feature.go keep the table valid.
use foilen_box.Prelude.{
  ℕ, ◌≡◌, refl, inl, inr, Bool, true, false, not, Option, none, some, List, [], ◌∷◌, arith, Text,
  codes, lookup, length, get_elem?, text_eq, is_empty, if◌then◌else◌, Option-cases,
}
use foilen_box.Tunnel.{
  Session, Attached, attached, session_closed, missing_bytes, new_session, attach, force_detach,
}
use foilen_box.Services.{
  Service, Header, Entry, Feature, Io, Outcome, opened, resumed, unknown_session, ack_failed,
  not_allowed, session_id_required, unterminated, udp_unsupported, dial_failed, set_session, shut,
  attach_to, resume_found, resume_session, add_session, open_session, session_key,
  handle_tunnel_stream, find_service, served_by, shut_all, end_sessions_of,
}
use foilen_box.Services.Table.{IsValid, set_session-IsValid, add_session-IsValid, shut-IsValid}

shut_all-IsValid : (ns : List ℕ) (f : Feature) → IsValid f → IsValid (shut_all ns f)
unfolding shut_all
shut_all-IsValid [] f v = v
shut_all-IsValid (n ∷ ns) f v = shut_all-IsValid ns (shut n f) (shut-IsValid n f v)

force_detach-closed : (s : Session) → s.closed ≡ false → (force_detach s).closed ≡ false
unfolding force_detach
force_detach-closed s h = ground arith

-- What `attach` makes of an open session is open.
abbrev Open : Attached → Type 0
Open (attached t) = t.closed ≡ false
Open session_closed = Unit {0}
Open missing_bytes = Unit {0}

attach-Open : (link n : ℕ) (s : Session) → s.closed ≡ false → Open (attach link n s)
unfolding attach
attach-Open link n s h = ground arith

attach_to-IsValid :
    (n : ℕ) (r : Attached) (ok : Outcome) (f : Feature)
    → Open r
    → IsValid f
    → IsValid (attach_to n r ok f).0
unfolding attach_to
attach_to-IsValid n (attached t) ok f o v = set_session-IsValid n t f o v
attach_to-IsValid n session_closed ok f o v = shut-IsValid n f v
attach_to-IsValid n missing_bytes ok f o v = shut-IsValid n f v

abbrev Keeps : Feature × Outcome → Type 0
Keeps r = IsValid r.0

fork_on :
    (b : Bool) (x y : Feature × Outcome)
    → Keeps x
    → (b ≡ false → Keeps y)
    → Keeps (if b then x else y)
fork_on true x y v w = v
fork_on false x y v w = w refl

fork : (b : Bool) (x y : Feature × Outcome) → Keeps x → Keeps y → Keeps (if b then x else y)
fork true x y v w = v
fork false x y v w = w

resume_found-IsValid :
    (io : Io) (link n : ℕ) (e : Entry) (recv : ℕ) (f : Feature)
    → IsValid f
    → Keeps (resume_found io link n e recv f)
unfolding resume_found
resume_found-IsValid io link n e recv f v =
    fork_on e.session.closed (f, unknown_session) live v
      (λ c.
        let o = force_detach-closed e.session c in
        let w = set_session-IsValid n (force_detach e.session) f o v in
        fork (not io.acked) (detached, ack_failed) again w
          (attach_to-IsValid n (attach link recv (force_detach e.session))
            (resumed (force_detach e.session).recv) detached
            (attach-Open link recv (force_detach e.session) o) w))
  where
    detached : Feature
    detached = set_session n (force_detach e.session) f

    again : Feature × Outcome
    again =
        attach_to n (attach link recv (force_detach e.session))
          (resumed (force_detach e.session).recv) detached

    live : Feature × Outcome
    live = if not io.acked then (detached, ack_failed) else again

resume_session-IsValid :
    (io : Io) (link : ℕ) (key : Text) (header : Header) (f : Feature)
    → IsValid f
    → Keeps (resume_session io link key header f)
unfolding resume_session
resume_session-IsValid io link key header f v = elim (Option-cases (lookup key f.sessions)) [
  | inl a ↦ rw (a, resume_session) v
  | inr (n, a) ↦ elim (Option-cases (get_elem? f.heap n)) [
    | inl b ↦ rw (a, resume_session, b) v
    | inr (e, b) ↦ rw (a, resume_session, b) (resume_found-IsValid io link n e header.recv f v)
  ]
]

open_session-IsValid :
    (io : Io) (link : ℕ) (key remote : Text) (svc : Option Service) (f : Feature)
    → IsValid f
    → Keeps (open_session io link key remote svc f)
unfolding open_session new_session
open_session-IsValid io link key remote none f v = v
open_session-IsValid io link key remote (some svc) f v =
    fork (text_eq svc.type (codes "udp")) (f, udp_unsupported) dials v
      (fork (not io.dialled) (f, dial_failed) answers v
        (fork (not io.acked) (f, ack_failed) serves v
          (attach_to-IsValid (length f.heap) (attach link 0 new_session) opened
            (add_session key remote f) (attach-Open link 0 new_session refl)
            (add_session-IsValid key remote f v))))
  where
    serves : Feature × Outcome
    serves = attach_to (length f.heap) (attach link 0 new_session) opened (add_session key remote f)

    answers : Feature × Outcome
    answers = if not io.acked then (f, ack_failed) else serves

    dials : Feature × Outcome
    dials = if not io.dialled then (f, dial_failed) else answers

-- Whatever a peer asks for and however the network turns out, the table keeps naming open sessions
-- only, each under the key that it was opened for; so does the end of any session, and that of the
-- sessions of a removed peer.
pub handle_tunnel_stream-IsValid :
    (io : Io) (allowed : Bool) (services : List Service) (link : ℕ) (remote : Text)
    (header : Header) (n : ℕ) (f : Feature)
    → IsValid f
    → IsValid (handle_tunnel_stream io allowed services link remote header f).0
      × IsValid (shut n f)
      × IsValid (end_sessions_of remote f)
unfolding handle_tunnel_stream end_sessions_of
handle_tunnel_stream-IsValid io allowed services link remote header n f v = (
  fork (not allowed) (f, not_allowed) named v
      (fork (is_empty header.session_id) (f, session_id_required) framed v
        (fork (not io.terminated) (f, unterminated) served v
          (fork header.resume resumes opens
            (resume_session-IsValid io link (session_key remote header) header f v)
            (open_session-IsValid io link (session_key remote header) remote
              (find_service services header.service_name) f v)))),
  shut-IsValid n f v,
  shut_all-IsValid (served_by remote f.heap f.sessions) f v,
)
  where
    resumes : Feature × Outcome
    resumes = resume_session io link (session_key remote header) header f

    opens : Feature × Outcome
    opens =
        open_session io link (session_key remote header) remote
          (find_service services header.service_name) f

    served : Feature × Outcome
    served = if header.resume then resumes else opens

    framed : Feature × Outcome
    framed = if not io.terminated then (f, unterminated) else served

    named : Feature × Outcome
    named = if is_empty header.session_id then (f, session_id_required) else framed
