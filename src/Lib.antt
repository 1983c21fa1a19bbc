-- ===== src/Lib.antt =====
-- just-git: a git implementation in TypeScript.
--
-- The program has a library (src/lib) of git's own algorithms on objects, the index, the worktree and
-- the refs, commands over it (src/commands), a server of repositories (src/server) with exchangeable
-- storage, and adapters around both. This library models the parts of src/lib and src/server named
-- below as functions, with the theorems that make them correct.
--
-- - Base: what the models share. Lists measured by native numbers, JavaScript strings as lists of
--   UTF-16 code units (Text), Map and Set as association lists in the order of insertion, split and
--   join, stable sorting, and parseInt (ParseInt; ParseInt/Hex has its inverse on four hexadecimal
--   digits, ParseInt/Decimal on a number in base ten), bit operations as arithmetic (Bits), indexOf
--   (Search), and the cutting of lists (Cuts).
-- - PathSafety: src/lib/path-safety.ts. verify_path, is_inside_work_tree, verify_symlink_target.
-- - Path: src/lib/path.ts. normalize, join, resolve, dirname, basename, relative. Normal and Inside have
--   the proofs; Inside joins it with PathSafety.
-- - Index: the entries in memory of src/lib/index.ts and their types in src/lib/types.ts; add_entry calls
--   verify_path. Entries and Order have the proofs.
-- - UnpackTrees: src/lib/unpack-trees.ts, the only way in which checkout, merge and reset change the
--   worktree. State has the state of a path and its collection from the trees, the index and the disk;
--   Merge the one-way and two-way tables; Check the preconditions; Build the result and the error text;
--   Unpack the entry points, which compose them as the source does. Table and Safety have the proofs.
-- - PktLine: src/lib/transport/pkt-line.ts. Codec has the encoder and the parser of a whole buffer, Stream
--   the incremental parser, Sideband the two demultiplexers. RoundTrip, Chunks and Bands have the proofs.
-- - Objects: src/lib/hex.ts and src/lib/objects. Tree has trees, Identity authors and taggers, Commit and Tag
--   the other two formats of text. HexBytes, ReadBack, IdentityReadBack, Lines, CommitReadBack, TagReadBack,
--   Names and Done have the proofs.
-- - Pack: src/lib/pack/delta.ts and of src/lib/pack/packfile.ts the numbers and applyDelta. Sizes has
--   sizes and entry headers, ReadBack and Header their proofs, Offsets the offset of a delta's base.
-- - Pack/Delta: deltas, in positions and buffers as the source has them. Index is createDeltaIndex, Match the
--   hash of a window and the longest match, Create the loop of createDelta on its output and the state between
--   two commands, Apply is applyDelta, Search findBestDeltas. The other modules have the proofs.
-- - Diff3: src/lib/diff3.ts. Indices has the differences of two texts, Regions the first pass of a merge, Blocks
--   the refinement of conflicts and their absorption, Merge the blocks of a merge and its lines with markers.
--   The other modules have the proofs.
-- - RefFormat: the names of refs in src/lib/refs.ts. Safe, which joins it with PathSafety, and Fuel have the
--   proofs.
-- - Refspec: src/lib/transport/refspec.ts. Mapped and ReadBack have the proofs.
-- - RangeSyntax: src/lib/range-syntax.ts. ReadBack has the proofs.
-- - Server: Memory is src/server/memory-storage.ts, whose state is a record; a method returns the state
--   after it. Adapter is the part of src/server/storage.ts that a push uses, Receive the updates of refs in
--   src/server/operations.ts: a loop is a recursion that passes the state on, so that every call that
--   changes state is there. The other modules have the proofs.
--
-- Asynchronous calls are plain ones: each function is a run that nothing interrupts, and concurrent
-- clients are sequences of calls (Server/Race). Exceptions are values: an Option where there is one
-- error, a data type where there are several. Hashes are texts that are compared only.
--
-- Loops that the structure does not bound have fuel. The parsers of packet lines and of trees have the
-- length of the buffer: a line takes four bytes at least and an entry two. Out of fuel their result is
-- `stuck`, which is none of the program's. The components of a ref name have its length, of which each
-- takes one unit at least. The encoders of 32-bit numbers have five rounds of seven bits. The chain of
-- symbolic refs has the eleven reads that the source allows. A delta is read with its length as fuel and
-- created with the length of its target: every command takes a byte of the one, and every round of the other.
-- The differences of two texts have the number of their lines, and the regions of a merge the number of hunks.
--
-- Parameters: TextDecoder in PktLine (for the round trip it maps ASCII bytes to themselves) and with
-- TextEncoder in Objects (of trees IsUtf8 says what is used of them; commits and tags ask for their own
-- text only), the ancestry test and the hooks of a push, the hash and mode of a file on disk in UnpackTrees,
-- and in Diff3 the flags of changed lines, which src/lib/diff-algorithm.ts computes (FindsDiffs and FindsSame
-- say what is used of them).
--
-- Not modelled: the file system, compression and hashing (src/lib/pack/zlib.ts, fflate.ts, sha1.ts), the SQL
-- storages, HTTP and SSH, and the commands, which do input and output around these parts. Not yet
-- modelled: the rest of packs, the binary index, the merging of trees (src/lib/merge-ort.ts), the differences
-- of lines (src/lib/diff-algorithm.ts), rebase, configuration and ignore patterns.
pub mod Base
pub mod PathSafety
pub mod Objects
pub mod Pack
pub mod Path
pub mod Index
pub mod UnpackTrees
pub mod PktLine
pub mod RefFormat
pub mod Refspec
pub mod RangeSyntax
pub mod Server
pub mod Diff3
