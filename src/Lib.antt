-- ===== src/Lib.antt =====
-- wedb_embed: a database with Redis commands, embedded over an ordered key-value engine. This
-- library models the layer that all commands share, how a value's keys and its metadata stand in
-- the engine as bytes, and over it the commands on lists and on sets. The database shares one ordered
-- key space, so the correctness of every command rests on the layout: keys of different values
-- differ, the keys of one value lie together and in order, and what is written is read back.
--
-- The parts and how they interact:
--   embed/src/key_composer/oppv.rs: a varint that keeps the order of numbers. File Oppv, functions
--     by the source's names. Both numbers of a scope and the length of a user's key are written
--     with it.
--   embed/src/key_composer/tag.rs: the tags of the kinds of keys. File KeyTag.
--   embed/src/key_composer/small_key.rs: a key in a fixed array of 55 bytes, or on the heap. File
--     SmallKey.
--   embed/src/key_composer/composer.rs: composes keys from scope, tag, user key and subkey, on the
--     heap and on the stack, and takes keys apart. Files KeyComposer, KeyComposer/Subkey,
--     KeyComposer/Parse.
--   embed/src/meta.rs: the header of every composite value, in a standard and in two compact
--     forms, its expiry and remaining time. File KeyMeta. The generator of versions, whose threads
--     share two atomics: file Version, a step relation with one step for each atomic access, and
--     every interleaving. Index ranges with negative indices: file Range. Words in hexadecimal:
--     file Hex.
--   embed/src/key_composer/slot.rs: checksum, hash tag and slot prefixes of the cluster, file
--     Slot, and patterns with wildcards, file Glob. Glob/Meaning gives the rules of patterns, which the
--     modules beside it compare the matcher with.
--   embed/src/key_composer/ns.rs: the system keys of the catalog. File Ns.
--   embed/src/api/string/meta.rs and key.rs: plain strings with their expiry time. File
--     StringValue.
--   embed/src/api/list/meta.rs: a list's metadata, a header and a window of element numbers. File
--     ListMeta.
--   embed/src/api/key/mod.rs: the removal of a composite value by its prefix, over the engine.
--     File Store, with the engine of engine/src as an interface, and Store/Memory, a store that
--     meets it.
--   embed/src/error.rs: the results of the operations. File Outcome.
--   embed/src/wedb/batch.rs and db.rs: a database with its two partitions, and the batch that a
--     command queues and commits. File Db.
--   embed/src/api/key/mod.rs: how a command finds the metadata of its value, and refuses a key with
--     a live value of another type. File KeyApi.
--   embed/src/api/list: the commands on lists. Files ListApi/Keys for key.rs, and ListApi/Push,
--     ListApi/Pop, ListApi/Read and ListApi/Trim for impl.rs, ListApi/Move for move.rs. A command
--     reads the metadata, reads elements, queues its writes in a batch and commits them.
--     ListApi/State relates a database to the plain list that a key holds, with what a command
--     leaves as it was; ListApi/Items does so for the elements alone, ListApi/Queue in the middle of
--     a command and ListApi/Commit at its end. The modules below Push, Pop, Read, Trim and Move
--     compare each command with the operation on plain lists.
--   embed/src/meta.rs, impl_simple_meta!: metadata that is a bare header. File Composite, with what
--     the types that have it share: Composite/State relates a database to the fields of the value
--     that a key holds, Composite/Queue does so in the middle of a command, Composite/Commit at its
--     end and Composite/Pair for a command on two values.
--   embed/src/api/set: the commands on sets. Files SetApi for key.rs and meta.rs, SetApi/Write and
--     SetApi/Read for impl.rs, with the iteration of scan.rs, SetApi/Scan for its cursor, SetApi/Pop
--     and SetApi/Move for pop.rs, and SetApi/Algebra for algebra.rs. A set is an ascending listing,
--     whose keys are the members; SetApi/Members has the operations on these that the modules below
--     compare the commands with, SetApi/HashSet what the code uses of hash sets. SetApi/UnionCard is
--     for the size of a union, which the code takes from hashes of the members.
-- Base has the shared names, tests, lists, signed integers and bit operations; Bytes has byte
-- strings as lists of numbers, big-endian words and the order of memcmp. Modules named Examples
-- hold concrete runs.
--
-- Functions of the source are functions here. A `&mut` argument is taken and returned; a write in
-- an array is `write_at`. A w-bit integer is a natural number, with its wrap-around written out
-- where the source has arithmetic or a cast; signed results are integers. All recursion is
-- structural but the glob matcher's, which runs on fuel, with no answer at its end: each round takes
-- a byte off the pattern, so one more than the pattern's length is given. The loops of the list commands run over values,
-- counts and entries that are there beforehand. The search for a byte, `memchr`, is a package's:
-- it is a parameter, with its documented behaviour as the record IsFirst.
--
-- The engine is a package's: it is the record Engine, with its documented laws as the record IsStore;
-- a weak removal is a removal there, as in the default body of the trait. A batch has a queue for
-- each partition, since calls on different partitions do not meet. Lengths of lists stay below 2 ^ 63,
-- so that the code's casts to signed words keep them. The iterators over a prefix and over a range
-- come in the order of keys. A hash set is the list of its members, and the order in which it yields
-- them is an argument of the commands that answer them; the random generator is a package's, the
-- record Fastrand with its documented laws as the record IsFastrand. A closure that is called for
-- each member is a function on the variables that it changes.
--
-- Not modelled: linsert, lrem, lpos, srandmember with a count, sscan_by_member, the commands of the
-- other value types, the adapter of the engine and its I/O errors, the sortable form of scores, the
-- parsing of numbers, the clock (the present time is an argument), and the crate fastalp.
pub mod Base
pub mod Bytes
pub mod Oppv
pub mod KeyTag
pub mod SmallKey
pub mod KeyComposer
pub mod KeyMeta
pub mod Version
pub mod Range
pub mod Hex
pub mod Slot
pub mod Glob
pub mod Ns
pub mod StringValue
pub mod Store
pub mod Outcome
pub mod Db
pub mod KeyApi
pub mod ListMeta
pub mod ListApi
pub mod Composite
pub mod SetApi
