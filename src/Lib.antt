-- ===== src/Lib.antt =====
-- A verification library for go-diameter, a Diameter (RFC 6733) stack in Go.
--
-- The program. The base protocol of one connection is a single-threaded core,
-- diam/internal/protocol. A frontend (the state machine, the client or the peer manager) serializes
-- the inputs of a connection (received messages, timer expiries, results of writes and
-- reservations, decisions of the frontend), calls `HandleInto`, and performs the effects that the
-- call appends: sends, timers, admissions, notifications. The core reads and builds base messages
-- with diam/internal/base and steps the watchdog of diam/internal/watchdog.
--
-- The files. Watchdog is diam/internal/watchdog/machine.go: `Step` is `step`. Diam/Header is
-- diam/header.go and diam/uintconv.go; Diam/Datatype is diam/datatype, with diamuri.go in
-- Diam/Datatype/Uri and diamident.go in Diam/Datatype/Identity, Diam/Codec diam/avp.go and
-- diam/group.go (lengths and serialization), Diam/Codec/Decode the decoder of both and
-- Diam/Codec/Evidence its errors, those of diam/message_error.go; Diam/Wire is the codec of
-- diam/message.go and Diam/Edit its AddAVP, InsertAVP and DeleteAVP; Diam/Dict is the index of
-- diam/dict/skel.go and the lookups of diam/dict/util.go, with the flag texts of
-- diam/dict/register.go in Diam/Dict/Flags; Diam/Grammar is diam/validation.go, validateAVPs in
-- Scan, walkOutgoingFlags in Outgoing and the validators of a whole message in Whole; Diam/Find is
-- the lookups of diam/message.go and Diam/Answer its NewMessage, NewRequest and Answer;
-- Diam/Pending is diam/pending_requests.go and diam/write_gate.go, and Peer/Transition the table of
-- diam/peer/transition.go; Diam/Avp, Diam/Message, Diam/Error and Diam/Codes are the data that the
-- core reads of diam. Base/Header, Base/Request with Base/Validation, Base/Disconnect,
-- Base/Capabilities and Base/Application are header.go, validation.go, disconnect.go,
-- capabilities.go and app.go of diam/internal/base, and Base/Settings its records. Protocol follows
-- diam/internal/protocol: Types (types.go), Core (the receiver's fields), Send (timers,
-- notifications, identifiers and writers of core.go and control.go), Ending (terminate, fail and
-- reject), Identity (capabilities.go), Watch (watchdog.go), Closing (closing.go), Handshake
-- (handshake.go), Results (reserved, writeResult and queued_reply.go), Receive and Dispatch
-- (receive.go, its branches and its guards), Timers (expire), Handle (HandleInto) and Admission
-- (New and admission.go). Protocol/Tracking, Executor, Over, Shutdown and Replies, and the modules
-- of Diam/Codec but Decode and Evidence, the modules below Diam/Grammar but those three, those
-- below Diam/Wire, Diam/Edit, Diam/Pending, Base/Validation and Peer/Transition, and the modules
-- named Laws, Complete, Table, Traces, RoundTrip, Sorted, Offers, Labels and Agreement, hold the
-- lemmas and theorems; Examples holds concrete connections and the theorems at them. Prelude holds
-- what all of them share.
--
-- The model. A method of `*Core` is a function on the state `St`, the receiver's fields with the
-- effects appended so far, so that `es` and the receiver are passed on together. A `*control` is
-- shared by the table of controls and by operations, so it lives in a store of cells and a pointer
-- is a cell's number. Times and durations are numbers of nanoseconds without a bound; tokens wrap
-- at 2 ^ 64 as in Go. The core has no loop but those over its own tables. The loop over the members
-- of a Grouped AVP has fuel for each octet of its payload, and every turn consumes at least eight.
-- The walk back from a failed `BeginWrite` has fuel for each ticket made. The recursion into
-- Grouped AVPs follows the levels that the dictionary's nesting limit leaves. Building the example
-- of a missing AVP has one unit of fuel more than the index has definitions, and each level of
-- nesting that it enters names another one. Text that only reaches a log is shortened. Deep copies
-- are values, an echoed AVP is known by its place, and a message holds no nil AVP and no cycle.
--
-- The interface. Parsers and builders of base messages stand on reflection and on a dictionary that
-- is loaded at run time. They are the fields of the record `Base` (Base/Interface), an argument of
-- every function and theorem that calls on them. What the theorems on the core say holds for every
-- such record, that of the models in Base/Validation, Base/Capabilities and Diam/Grammar among
-- them.
--
-- Not modelled: the reading and writing of a connection's octets, the loading of dictionaries (a
-- dictionary is its snapshot's index), transport, client and server, the frontends and the peer
-- manager (diam/sm, diam/peer), whose goroutines and sockets stand around the core and the table;
-- diam/internal/base's error answers and the Supported-Vendor-Id values it adds; and the free list
-- of operation records, which only saves storage.
pub mod Prelude
pub mod Watchdog
pub mod Diam
pub mod Base
pub mod Peer
pub mod Protocol
pub mod Examples
