-- ===== src/Lib.antt =====
-- A model of DIPLOMATIC, an end-to-end encrypted sync protocol: clients write messages about entities,
-- seal them into bags, and exchange the bags through hosts that cannot read them.
--
-- Base/*           shared names, integers, lists, maps as association lists (Keyed), and bit operations
--                  as arithmetic (Bits); Sort: stable insertion sort and its laws; Maps: what holds of all
--                  rows of a map.
-- Consts           shared/consts.ts: sizes and status codes.
-- Exec             shared/valstat.ts: a method that changes an object and returns a status, an exception
--                  or a value; `do` blocks are the source's chains of early returns; Results: the
--                  same without a state; Ends: chains that come to an end.
-- Codec            shared/codec.ts: encodeVarInt, decodeVarInt, Decoder (`Read`) and Encoder (`Write`).
--   Septets, VarInt   the var-int on both sides; Stream: what a step writes and reads, with a rule for
--   Structs           each primitive; Structs: lawful codecs and their sequences; Bounds, Loops,
--   Bounds, Calm      Ends, Calm: the cursor, the end of loops, and exceptions; Strings: var-strings.
-- Text             TextEncoder and TextDecoder on code points.
-- Wire/*           one module for each file of shared/codecs: the structure, `encode`, `decode`, and
--                  `wire`, the bytes as a list of parts.
-- EntDb            web/src/entdb/entdb.ts: applyOp and normalizeTags (apply_op, normalize_tags).
--   Order, Converge   the rule by which the newest operation wins, and the order in which they come.
--   Memory/*          web/src/entdb/memory.ts: put, del, apply, getRow, getEnt and countEntities.
--   Query             dateInRange, dateSpecMayMatch and dateMatches of web/src/entdb/entdb.ts.
--   State             web/src/state.ts: msgToOp, and the results of StateManager.apply.
-- Host/Storage     shared/storage/memory.ts: users and bags; Storage/Log: the seqs of a realm;
--                  Views and Results: where a bag is stored.
-- Host/Requests    the request codecs, encodeReq and decodeResp of shared/api.
-- Host/Server      shared/auth.ts, bagSigValid of shared/bag.ts, handleReq of shared/api/user.ts, peek.ts,
--                  pull.ts and push.ts; Host/Guard: what the handlers may change.
-- Sealing          shared/crypto/derivation.ts and bagman.ts: the keys and the manager of a realm.
--   Bags              sealBag and openBag of shared/bag.ts, decryptPeekItem of shared/sync.ts; Steps,
--                     Opens and Sends: sealed bags opened again; Peeks: their heads; Sound: opened bags.
--   Messages          shared/message.ts: the heads of new messages; Heads: their sealing.
-- Checksum         shared/checksum.ts: cmpBytes, checksumSet, checksumEntRevs; Order and Sets: its order.
-- Client/Batch     web/src/batch.ts; Client/Hlc: web/src/hlc.ts.
-- Client/Singleton shared/singleton.ts: SingletonStateManager and genSingletonUpsert.
-- Client/Coalesce  web/src/coalesce.ts: CoalesceTail and Debounced, with the timeout and the end of a pass as
--                  events; Steps, Served and Rest: runs of events.
-- Stores/Cursor    web/src/stores/cursor.ts: realm keys, download keys and cursors.
-- Stores/Realm     web/src/stores/realm.ts and memory/realms.ts; Stores/Hosts: memory/hosts.ts;
--                  Stores/Msgs: memory/msgs.ts with the archive rows of web/src/types.ts; Stores/Queues:
--                  memory/uplds.ts and dnlds.ts; Stores/Accounts: label.ts, keyTag.ts and memory/account.ts.
-- Tests/*          concrete values on which the theorems are applied.
--
-- How they interact: a request is bytes that the handlers of Host/Server read with the codecs of Wire
-- through the Decoder of Codec. They check the timestamp, call Host/Storage, and write the answer with
-- the same codecs. A client turns what it pulled into operations (State) and applies them (Memory),
-- which asks EntDb for each row. A bag is sealed and opened with the keys of Sealing, and its head is
-- written with the codec of Wire; the host checks the same signature. The rows that a client keeps of
-- realms, hosts and messages are those of Stores, and its passes over them are paced by Client/Coalesce.
--
-- Numbers are the native ones. A JavaScript integer is ℤ; a var-int is below 2 ^ 56, and `number`
-- rounds one above 2 ^ 53 as a double does, and `double` does so with the sum of a time and an offset.
-- Bytes are lists of numbers. A Date is a count of
-- milliseconds within 8.64e15 of 1970, or invalid. Maps keyed by hex or base64 strings are keyed by
-- the bytes, since those encodings are injective. Signatures (HostCrypto), the
-- clock, BLAKE3, encryption and key pairs (Primitives), and the fingerprint of a master are parameters.
--
-- Loops over the input run on fuel, one round for each byte that is left, since each round of the
-- source takes a byte at least. `diverged` marks a loop that runs out of it. The other loops are
-- structural.
--
-- Not modelled: the enclave around the seed, IndexedDB, WebSockets, CORS, passkeys, the workers and
-- the React hooks, which are calls of the platform; the secondary indexes and the queries by parent, tag
-- and date of EntDBMemory; the loop of the client that calls hosts. Rows carry no realm label. Unpaired
-- surrogates in strings have no model.
pub mod Base
pub mod Consts
pub mod Exec
pub mod Codec
pub mod Text
pub mod Wire
pub mod EntDb
pub mod Host
pub mod Client
pub mod Stores
pub mod Checksum
pub mod Sealing
pub mod Tests
