-- ===== src/Lib.antt =====
-- SendSelf: a relay that passes end-to-end encrypted messages and files between the devices of one
-- person's space, and keeps nothing longer than it has to.
--
-- The server (apps/worker/src) is a set of request handlers over the tables of a D1 database and
-- the objects of R2 buckets. A request is parsed (http.ts), its sender is authenticated by the
-- hash of a bearer token (auth.ts), the handler checks it against the tables, and then writes,
-- mostly in one batch, which is one transaction. The handlers meet in the tables: pairing adds a
-- device, revoking a device frees the messages that waited for it and obliges the space to rotate
-- its key, a rotation hands every device a wrapped key of the next epoch, and sending,
-- acknowledging and revoking all delete what nobody waits for any more. The clients share
-- packages/client and packages/shared.
--
-- The vault is the exception: a space's folders, notes and files, which the server keeps and every
-- device has a copy of. Each write takes the next number of the space's change counter, and a
-- device asks for what changed after the number that it has, a page at a time. A purged item
-- leaves a tombstone, which the clean-up forgets one day; a device whose number is older than that
-- starts over.
--
-- Base has the shared helpers: tests on numbers (Base.Tests), lists as tables (Base.Lists,
-- Base.Rows and, for tables with a key, Base.Keyed), and JavaScript strings as sequences of code units (Base.Strings). Errors has the
-- result of a request: a value or an ApiErrorCode. Http is http.ts.
--
-- Worker.Tables has the tables as records and lists of rows, and World, what a request takes from
-- outside: the clock, the hash, the answer of the rate limit, and whether a bucket carries a
-- delete out. Worker.Action has a handler's effect: it runs on the tables, and what it has written
-- stays written where it throws afterwards. Worker.Auth is auth.ts, Worker.Db is db.ts,
-- Worker.Blobs is blobs.ts, Worker.Attestation is attestation.ts, and Worker.Messages,
-- Worker.Keys, Worker.Devices, Worker.Pairing and Worker.Space are the files of those names in
-- apps/worker/src/routes. A function has the name of the handler in snake case (sendMessage is
-- send_message). Where a handler reads the tables and later runs a batch, its checks and its batch
-- are functions of their own (check_rotation and rotate, check_completion and join), so that a
-- theorem on the batch holds whatever ran in between; the handler itself is their composition with
-- nothing in between.
--
-- Worker.Spaces is routes/groups.ts with challenge.ts, and Worker.Uploads is routes/files.ts, where
-- other requests run while an upload is in flight: Transfer has what they make of the table and the
-- bucket before and after the bucket's write.
-- Worker.Vault is vault.ts, on the state of one space's vault (its counter, its floor, its rows and
-- its blobs); Worker.Vault.Requests, Edits and Changes are routes/vault.ts. An edit's checks
-- (parse_edit) and its batch (write_edit) are apart, like those of the other handlers.
--
-- Shared is packages/shared/src/index.ts: the texts that signatures cover, and the items of the
-- vault. Client.Keyring is packages/client/src/keyring.ts, Client.Vault the part of
-- packages/client/src/vault.ts that follows the server's changes. Sync puts the two sides of the
-- vault together: Sync says what it is for a copy to be in sync as of a cursor, Sync.Page is one
-- page, Sync.Pulling a pull, Sync.Ending that it ends, and Sync.Session a device's life, with the
-- requests of others and the clean-up as steps. Web.Retry is apps/web/src/sync/retry.ts, and
-- Web.Thread apps/web/src/state/grouping.ts.
--
-- Bounds and fuel. Numbers are natural numbers; times and epochs are never negative in the source,
-- and request integers are checked against 2 ^ 53 - 1. The loops that purge messages run on as
-- many rounds as there are messages and one more: every round deletes at least one. A list is cut
-- into batches of 100 on its length as fuel. The walk of a tree in the vault runs on as many
-- rounds as there are rows and one: every round but the last adds a row. The purge of an item runs
-- on two rounds. A pull runs on the list of the answers to its requests; one answer more than the
-- counter has numbers is enough, since every page but the last takes the cursor further. The sweep
-- of the trash takes its number of rounds as an argument, and comes to nothing where they are used
-- up. The loop of purge_orphans takes its number of rounds
-- as an argument, and where they are used up it answers with an error. The digits of a number are
-- produced on the number itself as fuel.
--
-- Not modelled: JSON.parse (a parameter of read_json), SHA-256 (a field of World), the texts of
-- errors, the responses' headers, sockets and push messages, the streams of the platform and what
-- a bucket makes of a write (the fields of Transfer), the answer of Turnstile (a field of
-- Challenge), the sealing of items, the clients' storage and interfaces. Between the requests of
-- one pull others may write to the vault, but no tombstone is forgotten. In one request the bucket's
-- deletes all succeed or all fail, but for those of delete_unclaimed_blobs, where it depends on the
-- blobs of each batch. Statements of SQL are the functions on tables that they stand for; a
-- unique index shows where a handler depends on it. JSON columns are the records that they
-- serialise.
pub mod Base
pub mod Errors
pub mod Http
pub mod Shared
pub mod Client
pub mod Web
pub mod Worker
pub mod Sync
