-- ===== src/Lib.antt =====
-- foundationdb-rs, the Rust client of FoundationDB, as far as it is a program of its own: the tuple
-- layer, which turns typed values into keys, the leader election and the ranked register, which are
-- built on it, the accounting of transaction attempts with its budget, and the reading of profiles.
--
-- The program's parts and their files. A value is packed to bytes by the tuple layer
-- (foundationdb-tuple), a subspace puts a prefix in front of such keys, and the recipes
-- (foundationdb/src/recipes) keep their state in keys of a subspace, in transactions.
--
-- - Tuple/Codes, Tuple/Offset: the type codes and errors of foundationdb-tuple/src/lib.rs, and
--   `VersionstampOffset` of pack.rs. A `u32` wraps around, as in a release build: an encoding of 2^32
--   bytes or more, where the docs state a panic, is packed with an offset modulo 2^32.
-- - Tuple/Bytes: `parse_bytes`, `parse_byte`, `parse_code`, `write_bytes`, `parse_slice` of pack.rs.
--   The crate `memchr` is the parameter `Memchr`: its iterator gives the positions of a byte.
-- - Tuple/Words, Tuple/Integers: the macros `impl_ux` and `impl_ix`, for any size of the type in
--   bytes; an integer is its mathematical value. Tuple/Floats: `impl_fx`, on bit patterns.
-- - Tuple/Utf8, Tuple/Versionstamp: the check of strings, and versionstamp.rs.
-- - Tuple/Element: `Element` of element.rs with its `pack` and `unpack` of pack.rs and the loops of
--   `&[T]` and `Vec<T>`. Unpacking recurs on fuel: `unpack_root` gives two units for each byte of the
--   input and three more, which is enough for all that packing writes.
-- - Tuple/Compare: the order of elements of element.rs.
-- - Tuple/Subspace: subspace.rs, and the packing of keys with a versionstamp of lib.rs and pack.rs. A
--   panic is a value of `Panic`. Tuple/Subspace/Made: the subspaces that the code makes. Tuple/Typed:
--   tuples of `u64`, `u32`, `bool` and `String` fields, by the macro `tuple_impls`.
-- - Store: the parameter for a transaction of foundationdb/src/transaction.rs, which calls the C client;
--   Store/Ranges with range reads and Store/InMemory, which meets what is required of it.
-- - Paging: the key selectors of foundationdb/src/keyselector.rs and the streams of range reads of
--   transaction.rs. A batch is a call of the client library, the parameter `get_range`. A stream has one
--   unit of fuel for each batch; one more than the range has rows is enough (Paging/Ranges).
-- - Budget: foundationdb/src/budget.rs, with its calls in transaction.rs: the limits and their check;
--   Budget/Attempts: the attempts of a transaction, with the operations that an older one issued;
--   Budget/Custom: the application metrics.
-- - Register: the ranks of foundationdb/src/recipes/ranked_register/types.rs; Register/Operations: the
--   operations of algorithm.rs; Register/Keys and Register/Chunks: where the metadata and the chunks of
--   the value lie and how they are read; Register/Abstract: the register as an object with two
--   operations, which the operations in a transaction implement (Register/Refinement, Register/Fencing).
--   A chunk has 100,000 bytes; cutting a value takes one unit of fuel for each of its bytes, and no
--   chunk is empty.
-- - Profiling: the events of foundationdb-profiling/src/event.rs. Profiling/Decode: decode.rs, with its
--   reader in Profiling/Decode/Input. The loop over the events has one unit of fuel more than the blob
--   has bytes, which is enough, for each event takes four bytes or more. Profiling/Decode/Wire: the
--   format that the FoundationDB client writes.
-- - Profiling/Reader: reader.rs, with a stream of rows as a list and the answers of `should_stop` in it.
--   Its definitions are in Profiling/Reader/Keys, Process, Finish and Scan. Profiling/Reader/Cut, Settle,
--   Pages: where the next page begins; Assemble, Reassembly: the chunks.
--   Profiling/Aggregate: aggregate.rs, with a `BTreeMap` as the list of its entries.
-- - Election/Types, Election/Step: types.rs, errors.rs and the pure part of algorithm.rs in
--   foundationdb/src/recipes/leader_election: `decide`, `step` and their results.
-- - Election/Durable: the durable record in its key and `poll`, `state` and `resign`.
-- - Election/Legacy: the poll with the clock inside that the tests of algorithm.rs keep as an oracle.
-- - Election/Permission: what permits a poll to lead, stated apart from the code.
-- - Election/System: participants, transactions and local states as a step relation. Transactions are
--   serializable; the callers' clocks run at one rate; each participant uses one lease duration; a
--   leader drops its local state when it resigns.
--
-- The tuple layer is modelled without the features `uuid` and `num-bigint`. A Rust value is told from
-- other values of the model by `IsElement`: bytes below 256, strings in UTF-8, lengths below 2^32.
-- A `Duration` is its number of nanoseconds; the error messages of `InvalidState` are a data type.
--
-- Not modelled: the client library and what only calls it (the rest of transaction, database,
-- future, api), the generators, the simulation and the binding tester; and, of the program's own logic,
-- the directory layer and the retry loop.
pub mod Prelude
pub mod Tuple
pub mod Store
pub mod Register
pub mod Election
pub mod Budget
pub mod Profiling
pub mod Paging
