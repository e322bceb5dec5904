-- ===== src/Lib.antt =====
-- Verification of coredot-editor, a collaborative document editor with AI assistance (Next.js, Tiptap,
-- Yjs).
--
-- Nine parts of the program are modelled.
--
-- Resources is src/features/collaboration/server/resource-limits.ts. The collaboration sidecar counts
-- the connections of a principal, a room and a workspace, the updates of a connection in a window of
-- time, and the bytes of the resident documents. `createCollaborationResourceRegistry` closes over
-- maps; here they are the fields of `Registry`, association lists with the maps' keys. A method is a
-- function of the registry that gives the next one, or the category of the error that it throws. The
-- two closures that `reserveDocumentGrowth` returns are a handle into the list of growths. The clock
-- is an argument. `run` makes any sequence of calls, also where one throws.
--
-- Session is src/features/collaboration/client/session-store.ts and durability-state.ts, the editor's
-- view of a collaborative session. A method is a `Call`; `effect` is the state that it writes, its
-- early return or its error, and `settle` publishes: a new snapshot only where a field differs, and
-- then the calls of the listeners in their order, up to one that throws. They are a log: a listener
-- that calls the store in turn makes one more call of the sequence, as no method writes after it has
-- published. Session/View has the snapshot and its status.
--
-- Blocks is src/features/documents/tiptap-blocks.ts, the operations on a document as a tree of nodes:
-- moves of top-level blocks and list items, indentation, splitting a list and conversion of an item.
-- Blocks/Tree has the nodes, Blocks/ListPath reads, updates and removes at a path of item indices and
-- list ordinals, Blocks has the conversions of items, and Blocks/Moves the operations. Blocks/Landing
-- says where a moved block comes to stand, and Blocks/Parts what becomes of a list that is split.
--
-- Movement is src/features/documents/block-movement.ts, which the editor calls and which calls Blocks:
-- an intent of a source and a target (Movement/Targets) is checked against the document
-- (Movement/Reading), becomes a slot (Movement/Slots) and then an operation of Blocks, with the
-- location of the block after it (Movement). `JSON.stringify` is a parameter.
--
-- Redline is src/features/proposals/redline-diff.ts: the tokens of two texts, their common prefix and
-- suffix, and the segments that are equal, inserted or deleted.
--
-- Awareness is src/features/collaboration/server/awareness-policy.ts, which the sidecar asks about the
-- presence frames of a connection. `createAwarenessPolicy` closes over maps; they are the fields of
-- `Policy` (Awareness/State), and a connection is a number. `validateFrame` (Awareness/Frames) reads a
-- frame (Awareness/Decoding, Awareness/Shape) and says which entries are ignored; `sanitizeStates`
-- (Awareness/Sanitizing) writes what the others see; Awareness/Leaving has `finish` and `release`. A
-- call gives the next policy and whether it returned or threw. The decoder of lib0, `JSON.parse` and
-- `isDeepStrictEqual` are the fields of `Wire`, of which nothing is assumed; the times that a frame
-- reads are arguments. An unsafe number of a frame is any natural number above the bound.
--
-- Profiles is src/features/projects/project-profile.ts, default-project-profiles.ts and
-- active-project-profile.ts. Profiles/Data has the types, Profiles/Defining `defineProjectProfile`
-- with a constructor for each error, Profiles/Metadata `validateProjectMetadata`, Profiles/Readiness
-- the transitions and `validateProjectDocumentState`, and Profiles/Defaults the program's own profiles
-- and their registry. Profiles/Values says what a value of each type of field is. `trim` and the
-- calendar of `Date` are written out in Profiles/Texts. A finite number is the natural number that
-- names it. Profiles/History has the accepted states of a document as a relation.
--
-- Navigation is src/features/collaboration/client/navigation-controller.ts, which asks the user before
-- a document with pending updates (Session) is left. Navigation/State has the variables that
-- `createCollaborationNavigationController` closes over, the owner of the restoration that all
-- controllers share, and the effects on the page; Navigation/Handlers has the inner functions; and
-- Navigation/Events the interface, the listeners and the timer as events. What the page answers (the
-- snapshot, confirm, the href, whether there is a Navigation API, whether restoring the route throws)
-- is an argument of each event. An event whose listener is not installed is not heard.
-- Navigation/Restoration runs several controllers that share the owner.
--
-- Budget is src/features/security/request-budget.ts and the retries of src/db/sqlite-contention.ts:
-- how many requests of a principal pass in a window. Budget/Storage is the table and the SQL on it,
-- Budget/Contention `retrySqliteContention`, and Budget/Consuming `consume` in its three parts, the
-- UPSERT, the decision to prune and the DELETE, and the replies of `enforceRequestBudget`.
-- Budget/Steps has calls under way at the same time, whose parts come in any order. Budget/Counters is
-- the table seen as one counter for a bucket. All instances share the table and each has its time of
-- the next pruning; the clock of an instance, what each attempt at the storage meets and whether
-- pruning fails are arguments.
--
-- Prelude has what these share: texts of UTF-16 units, association lists, results, and `splice`.
--
-- Counts, sizes, times and indices are natural numbers; a size that a caller gives and that the code
-- tests with `Number.isSafeInteger` is a `Number`, which may be negative or a fraction. The indices
-- of Blocks and Movement are natural, so the tests for negative indices have no counterpart;
-- `isInteger` of block-movement.ts is the bound 2 ^ 53. Loops are recursions on a list or a path,
-- but for the one over the common suffix in Redline: its fuel is the number of tokens of the
-- original text, which is enough since the suffix is shorter (Redline/Stops). The retries of Budget are
-- a recursion on the attempts that are left, three for a request. Where an operation of
-- tiptap-blocks.ts gives `{ changed: false }`, the model gives `none`. The fields of a node that no
-- operation reads are one number of its header.
--
-- A finite start of an ordered list is a whole number with a named fraction, and its sums are not
-- rounded. Metadata is a list of its own properties; the names that every object inherits are seen
-- where the code reads them (Profiles/Metadata), but a field or value called `__proto__`, whose write
-- sets the prototype, is not modelled.
--
-- Not modelled: the order in which listeners are called where one of them calls the store, React
-- components and routes, storage in SQLite, Yjs and Hocuspocus, AI providers, authentication by Clerk,
-- conversion of DOCX and Markdown files, and the services around them.
pub mod Prelude
pub mod Resources
pub mod Session
pub mod Blocks
pub mod Movement
pub mod Redline
pub mod Awareness
pub mod Profiles
pub mod Navigation
pub mod Budget
