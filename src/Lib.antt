-- ===== src/Lib.antt =====
-- vidvnc: the cores of its server.
--
-- vidvnc shares screens with browsers. Its server (apps/server/src) admits clients by connection keys,
-- keeps their sessions, runs one capture worker for each distinct stream that they ask for, and lets
-- one session at a time control the host. This library models the stores that decide who is let in,
-- what runs and who has control.
--
-- Keys is apps/server/src/connection-keys.mjs (`ConnectionKeyRegistry`) and the normal form of typed
-- keys, `normalizePassword` of apps/web-client/src/password-entry.js; Entry is the field of that file.
-- Sessions is apps/server/src/session-store.mjs (`SessionStore`), whose `connect` asks the keys: a
-- store holds its registry of keys. Streams is apps/server/src/stream-registry.mjs (`StreamRegistry`)
-- with apps/server/src/rate-control.mjs; its clients are the sessions, by their identifiers. Control
-- is apps/server/src/control-lease.mjs (`ControlLease`), which names a session and one of its streams.
-- Grants is apps/server/src/viewer-asset-grants.mjs (`ViewerAssetGrants`), which looks sessions up in
-- the store (`peek`). Approved is apps/server/src/approved-clients.mjs (`ApprovedClientStore`), the
-- clients that the owner lets in for good. Admission is apps/server/src/admission-budget.mjs
-- (`AdmissionBudget`), the limits on tries, and Peers is apps/server/src/peer-network.mjs, the forms
-- of addresses; the budget counts a source by `source_group` of Peers, and so does the relay. Relay is
-- apps/server/src/media-relay/stun.mjs and relay.mjs (`RelayCore`): Relay.Stun reads datagrams,
-- Relay.Registrations keeps registrations and pins, Relay.Traffic sends datagrams on, and
-- Relay.Receiving takes those that reach the public port. Offers is
-- apps/server/src/sdp-candidates.mjs, what an offer may name. Latency is
-- apps/server/src/latency-probes.mjs (`LatencyProbes`), which names sessions and streams. Cli is
-- tokenize.mjs and arguments.mjs of apps/server/src/cli. Scope is
-- apps/server/src/local-session-scope.mjs, who may use the standing password on the local network, and
-- Confirmation is apps/server/src/network-confirmation.mjs (`KnownNetworks`), which marks the rows
-- that the scope gets. Profiles is apps/server/src/profile-order.mjs, the order of the profiles that
-- are offered. Connections is apps/server/src/server-limits.mjs, which counts sockets by
-- `source_group` too. Base holds what they share.
--
-- Each class is a record of its fields, and each method a function from the state and the arguments to
-- the new state and the result. A method has its source's name in lower case with underscores:
-- `connectApproved` is `connect_approved`, `use` is `use_key`, and `get` of a session is
-- `get_session`. What a method throws is a value of an error type, beside the state that it leaves. A
-- JavaScript Map is an association list in insertion order (Base.Table). Strings are lists of UTF-16
-- code units. Times are numbers that a call is given, one for a call, in Admission one for each
-- reading of the clock, and differences of times are compared as sums. `randomUUID()`, `randomBytes`,
-- the SHA-256 digest and the limit that the settings give are arguments. `onRevoke` and `onConnect`
-- are logged, newest first. A number of a stream plan that is not a natural number is `none`; the
-- place of a display is a pair of integers. The histories of a store are lists of its calls
-- (Keys.Histories, Sessions.Calls, Approved.Calls, Grants.Links) or a step relation (Streams.Reach,
-- Admission.Tries); Approved.Life says what each call may do to a request for access.
--
-- The lease's asynchronous changes wait in a list, of which the first is under way; one step runs it
-- to its end with the answers of the worker and of `isActive` as arguments (Control.Lease). While a
-- change is under way no other change reads the owner, so one step is enough. `held` is not a field of
-- the source: it is what the worker was told and has not taken back.
--
-- Fuel: `#create` draws keys until one is unused. The model gets a list of bytes, and one try more
-- than there are bytes; each try takes a byte, so the bytes run out first, which is the error
-- `no_more_bytes` of the model where the program would draw on. The numbers of a subnet are printed
-- with fuel for three decimal digits, of at most 255, or four hexadecimal ones, of at most 65535.
--
-- The asynchronous methods of the approved clients that run one after the other wait in `queue`; the
-- first is under way, and `advance` takes it to its next wait, for the write of the sweep or for its
-- own write, which may fail. `disk` is what the file holds. `submit` and `authenticate` are each two
-- functions, before and after the hash of the password (`begin_`, `end_`); `submit` follows a sweep,
-- which is a call of its own. A row that a call keeps over a wait is looked up again, or kept as it
-- was where only its unchanging fields are read, and its permission, whose changes take the
-- authorization away.
--
-- The admission budget gives closures to its callers; a reservation is a value here, and the budget
-- lists those that are not finished and the key starts that are. A class state or a row that a closure
-- still holds after its map has dropped it is told apart by a serial: what happens to it is seen by
-- nobody.
--
-- `isIP` of node:net is an argument of Peers, Admission, Approved, Connections, Scope, Confirmation,
-- Offers and Relay, and the HMAC of node:crypto of Relay. The relay's logs of drops and of datagrams
-- sent stand for its counters. The bytes of a datagram are numbers; `attributes` reads 32 attributes
-- at most, which is the limit of the source. A pin's socket is known by the pin's key, and
-- `socket_ready` is the moment at which it is bound.
--
-- `ipBits` of the scope throws at an IPv6 address with a zone. `allows` and `refresh` of Scope have
-- that error; `update`, `new_scope` and `apply` of Confirmation are for addresses without a zone.
--
-- The check of reported latency results (`validateLatencyResults`) is an argument of Latency, which
-- keeps results without looking at them. Reading words goes over a line once; reading options takes
-- one token at a time, with the option that waits for its value.
--
-- Not modelled: the native capture hosts, the routes and processes (http-app.mjs, main.mjs,
-- stream-runtime.mjs), policies, the relay's process, the check of latency results, the commands that
-- the words of a line are read for, and the views of the web client.
pub mod Admission
pub mod Approved
pub mod Base
pub mod Cli
pub mod Confirmation
pub mod Connections
pub mod Control
pub mod Entry
pub mod Grants
pub mod Keys
pub mod Latency
pub mod Offers
pub mod Peers
pub mod Profiles
pub mod Relay
pub mod Scope
pub mod Sessions
pub mod Streams
