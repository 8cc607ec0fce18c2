-- ===== src/Lib.antt =====
-- Verification of gomatrixserverlib: the rules by which a Matrix homeserver accepts events.
--
-- The program. A room is a graph of events. eventauth.go decides whether an event is allowed by
-- the state that it was sent at: `allowed` loads the create, power levels, join rules and member
-- contents (eventcontent.go) from an `AuthEventProvider` and runs the checks of the event's type.
-- stateresolutionv2.go settles which of several state events hold: it puts them in an order that
-- their auth events and the power levels give (Kahn's algorithm, the mainline) and applies those
-- that are allowed one after the other. stateresolution.go is the older algorithm, which resolves
-- the events of each type and state key on their own, and `ResolveConflicts`, which chooses between
-- the two by the room version. authchain.go, authstate.go and `checkAllowedByAuthEvents` of
-- federationtypes.go check an event by the events that its auth event IDs stand for, fetching those
-- that are missing. keys.go checks the keys that a server publishes. eventversion.go says what each
-- room version prescribes; event.go is the event that all of them read; base64.go is the encoding of
-- keys and hashes.
--
-- The parts.
--   Prelude/*       tests, lists, association lists, integers and texts; no part of the program.
--   Result          how a call ends: a value, an error by its message, or a run-time panic.
--   Json            JSON values, and what encoding/json does when it decodes them into a struct:
--                   keys up to ASCII case, fields left alone by null and by unknown keys, decoding
--                   that goes on after a value of the wrong type and reports the error at the end.
--   Version         eventversion.go: Version (the types), Meta (`roomVersionMeta`), Queries (the
--                   methods of `RoomVersion`), Rules (theorems).
--   Base64          base64.go: Encode and Decode on bytes; RoundTrip.
--   Event           event.go: the event and its accessors; Fields (`CheckFields`).
--   Content/*       eventcontent.go: Create, Member, JoinRules, PowerLevels (with Level, the loose
--                   levels), ThirdPartyInvite, History; Accessors (`JoinRule`,
--                   `HistoryVisibility`, `PowerLevels` of event.go).
--   Auth/*          eventauth.go: Provider (`AuthEventProvider`, `AuthEvents`), Context
--                   (`allowerContext`, `eventAllower`), Levels (the comparisons of power levels),
--                   Events (create, aliases, power levels, redactions and the rest), Membership
--                   (`membershipAllower`), Allowed (`allowed`), Needed (`StateNeeded`, also
--                   for an event that is being built).
--   ResolutionV2/*  stateresolutionv2.go and its heaps: the partial state and the events applied to it
--                   (`applyEvents`), Order (`Less` of the heaps), SenderLevel
--                   (`getPowerLevelFromAuthEvents` and its cache), Resolver (`authAndApplyEvents`),
--                   Kahn (`kahnsAlgorithmUsingAuthEvents`, `kahnsAlgorithmUsingPrevEvents`), Mainline
--                   (`createPowerLevelMainline`, `mainlineOrdering`), Driver
--                   (`ResolveStateConflictsV2`, `ReverseTopologicalOrdering`).
--   ResolutionV1/*  stateresolution.go: `stateResolver` with its blocks and its resolved auth events,
--                   Blocks (sorting and resolving them, `ResolveStateConflicts`). The proofs follow the
--                   groups that stand for the blocks (Grouped, Represents, Stored, Collected), what is
--                   added to the resolved events (Added), and the result (Conflicts, OnePerKey, Total).
--   Resolution/*    `ResolveConflicts`.
--   AuthChain/*     `checkAllowedByAuthEvents`, `VerifyEventAuthChain`, `VerifyAuthRulesAtState`.
--   Keys            keys.go (`CheckKeys`, `PublicKey`), `WasValidAt` of keyring.go and
--                   `Timestamp.Time`; Checked, Validity (theorems).
--   Tests/*         samples, tests, and the theorems at concrete inputs.
--
-- How state is modelled. `allowerContext` is shared by pointer, and one check writes to its join
-- rule; the checks of a membership event therefore give back the join rule that they leave,
-- beside their verdict, and `allowed` gives back the context. A Go method that returns a value
-- and an error returns a Result; where the code uses the value beside an error, the pair of both.
-- A nil pointer that is dereferenced and an index that is out of range are `panic`. int64 values
-- are integers within the bounds that decoding enforces; the checks only compare them. A Go map
-- is an association list whose first entry for a key counts; the code's loops over maps stop at
-- the first failed check, and the model takes them in list order, so that which of several errors
-- is reported may differ while the verdict does not; in the loops over the signatures of a third
-- party invite, the order also decides whether a key that VerifyJSON panics on is met before a
-- signature that verifies. A uint64 that the code converts to int64 wraps around (`to_int64`, `time`).
--
-- Orders. sort.Sort is insertion sort: it gives a sorted list of the same elements, and where two
-- elements are not ordered, Go may give either order. A heap is the sorted list of its elements,
-- whose first one is popped. A loop over a Go map whose order could matter (the degrees of Kahn's
-- algorithm, the tuples of ResolveConflicts, the entries of the resolved state) goes through the
-- entries in the order of the association list. Kahn's algorithm stands twice in the source, and
-- once in the model, for any events with an ID and the IDs that they depend on.
--
-- Fuel. The third loop of Kahn's algorithm has one round more than there are events, which is proved
-- to be enough for any input, cycles and double events included. The recursions of the mainline and
-- of the control set have a depth as an argument, and panic below it, as Go does when its stack is
-- exhausted. The loop of `checkAllowedByAuthEvents` behind its label, and the stack of
-- `VerifyEventAuthChain`, have a number of rounds; `none` is a loop that still runs after them.
--
-- What is a parameter. VerifyJSON (signing.go) in the checks of a third party invite, where it may
-- panic as ed25519.Verify does on a key of a wrong length, and in those of keys, whose length is
-- checked before; the present time, util.UniqueStrings in the state needed for auth, SHA-1, the
-- providers of missing events and of the state before an event, and whether a context is cancelled.
-- The texts of the events are parsed outside the model: an event holds its content as a JSON value, or
-- none where that text is missing. A number that is written with a fraction or an exponent comes with
-- the integer that its float64 value is cut to.
--
-- Not modelled. Networking, the fetching of keys, signing, canonical JSON, redaction and the loading of
-- events, which mostly call other packages; the wrappers of base64.go for JSON, YAML and SQL; the
-- parsing and building of events. `ResolveStateConflictsV2` and `VerifyEventAuthChain` are modelled
-- as wholes, but no theorem is stated of more than their parts.
pub mod Prelude
pub mod Result
pub mod Json
pub mod Version
pub mod Base64
pub mod Event
pub mod Auth
pub mod Content
pub mod AuthChain
pub mod ResolutionV1
pub mod ResolutionV2
pub mod Resolution
pub mod Keys
mod Tests
