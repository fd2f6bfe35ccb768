-- ===== src/Lib.antt =====
-- foilen-box: a box of utilities whose devices meet in a peer to peer realm (Go, over libp2p).
--
-- The development models the parts of the realm that keep state of their own:
--
--   Tunnel     realm/features/services/session.go, one end of a tunnel that survives the loss of its
--              stream. Each critical section under the session's lock is a function on `Session`, of
--              the name of the method it is in (attach, detach, pump_local, write_turn, begin_data
--              and end_data for applyData, apply_ack, apply_fin, ...). Tunnel/System puts two
--              sessions and a stream together, as handleTunnelStream and resumeSession of
--              realm/features/services/feature.go and the client do; its steps come in any order.
--              Tunnel/Views and Tunnel/Flow carry the invariant of one direction, Tunnel/Resume that
--              of both. Tunnel/Codec is the byte format of the frames, Tunnel/Bounds its limits.
--   Services   realm/features/services/feature.go, the handler of tunnel streams and its table of
--              sessions (`Feature`), over the sessions of Tunnel; the sessions that end with a removed
--              peer; the keys and the local ports of the proxies. Services/Table and Services/Handling
--              have the invariant of the table. `Io` says how the calls of the network turn out.
--   Peers      realm/peers/store.go, what is known of each peer. An operation is a function on the
--              map of peers, of the name of its method.
--   RealmMaps  realm/features/maps/store.go, maps that are replicated between the peers of a group.
--              The key-value database is a parameter (RealmMaps/Database), with the documented effect
--              of a write, a removal, a batch and a query as its laws. RealmMaps/Reads has the
--              operations that query: listing, events since a time, removal of a map, loading.
--              RealmMaps/Convergence runs writes one after another on two databases,
--              RealmMaps/Watching has a listener that hears each change before the next write.
--   Exchange   how the maps travel, realm/features/maps: the signed bytes of an event in
--              realm/model/map.go, signEvent, verifyEvent, applyVerified and handlePushStream of
--              feature.go in Exchange itself; who subscribes to what and is asked for what
--              (addIncomingSub, claimStoresToSubscribe, reconcileDesiredStores, ...) in
--              Exchange/Subscriptions; both sides of a subscription (handleSubscribeStream,
--              subscribeToPeer) in Exchange/Responses; crypto.go in Exchange/Encryption; and GetMap,
--              mutate and RunPeriodic of feature.go in Exchange/Editing.
--   Ring       realm/connection_ring.go, the order in which a peer looks for neighbours in a group,
--              and whom it connects to, over the host of libp2p (`Network`).
--   Access     realm/relay.go, realm/peers_helper.go, realm/group_challenge.go and
--              realm/keypair/keypair.go: permissions, and the proof that a peer is in a group, over
--              the keys of libp2p (`Crypto`), of which the laws are what signatures promise.
--   Scripts    realm/features/scripts/feature.go, the scripts that a peer may run here and the list
--              of the runs asked of others.
--   Announce   realm/features/announce/feature.go, what a peer takes in of what the others say of
--              themselves in a map of the group.
--   Sms        internal/sms, the keys of a map of text messages, what is notified, the
--              comparison of the map with the messages of the device, and the conversations.
--   Model      realm/model, the records and the labels that these parts share.
--   Prelude    texts as lists of bytes, Go maps as association lists, sorting.
--
-- The tunnels ask the permissions of a peer before they serve it, the permissions and the ring of
-- connections ask the store of peers, and the replicated maps are exchanged with the peers of a group.
-- Scripts ask the permissions, announcements and text messages are entries of the replicated maps, and
-- what is announced goes to the store of peers.
--
-- Interleavings: the steps of two tunnel sessions come in any order. Elsewhere an operation is one
-- step, also where the code takes a lock more than once or none: the calls of the listeners after
-- ApplyEvent has released its lock, reconcileDesiredStores with its messages between its critical
-- sections, the end of a session with its later onDone, and the read and the upsert of a peer that
-- has announced itself. What another operation does in between is not modelled there.
--
-- Numbers: offsets of a session are uint64 and wrap in the model as they do in the code; fewer than
-- 2^64 bytes are read in the runs considered. Timestamps and generations are taken not to overflow.
-- No definition uses fuel: a loop that waits for events is modelled by one turn of it; any other goes
-- down a list, or counts down the number of turns that the code itself fixes.
--
-- Not modelled: libp2p, sockets and streams themselves, JSON (values stand for their encodings), the
-- logging, the engine that wires the parts together, and the parts that mainly drive the operating
-- system: web server, camera, host information, troubleshooting. Of the modelled files: the start and
-- the restoring of proxies and the port scan of the services, the posting of announcements, the
-- sending of text messages and their notices on the desktop, and the configuration of the summaries
-- of the maps. The messages that are sent to other peers are values in the results.
mod Prelude
pub mod Model
pub mod Tunnel
pub mod Peers
pub mod RealmMaps
pub mod Ring
pub mod Access
pub mod Services
pub mod Exchange
pub mod Scripts
pub mod Sms
pub mod Announce
