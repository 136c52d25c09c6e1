-- ===== src/Lib.antt =====
-- A model of catfs, which mounts a bucket of an object store as a directory, and what holds of it.
--
-- A request of the kernel enters at a handler of the FUSE adapter, which calls the class CatFS.
-- That keeps a table of open files and one of open directories. What concerns names and attributes
-- it passes to MetaImpl, which keeps a tree of dentries in memory (LocalMemMeta) and asks the
-- backend for what the tree does not have or may have out of date. What concerns contents goes
-- from an open file to its reader or its writer, which call the backend themselves. The
-- backend is the abstract class Stor, of which S3Stor is the implementation.
--
-- Common: what all the others share. A command takes a state to a value with a state, an
--   exception with a state, undefined behaviour, or the end of the fuel (Common/Commands.antt,
--   with the exceptions of src/types/errors.h).
-- Stor: src/stor/stor.h, the interface as a record of operations on a state of its own.
--   Stor/Bucket.antt says what the program relies on: objects by key, ranges of them, and the
--   parts of an upload; and that a backend may refuse to complete an upload without the list of
--   its parts, which the program does not send. Stor/S3.antt is src/stor/stor_s3.cpp, over a
--   client of the AWS SDK that is a parameter (Stor/Aws.antt); Stor/S3/Laws.antt derives both from
--   what the client documents, and Stor/S3/Memory.antt is a client that keeps that.
-- Writer: src/fs/fwriter, the sequential writer (write, write_data, upload_part, release and the
--   others under their own names) and its parts (Writer/Parts.antt).
-- Meta: src/meta and the types that it works on. Meta/Heap.antt has the objects by address and
--   the clock, Meta/Dentry.antt the methods of src/types/dentry.h, Meta/Local.antt and
--   Meta/Local/Merge.antt the class LocalMemMeta, and Meta/Impl.antt the class MetaImpl.
-- Fs: src/fs/fs.cpp, fs_dir.cpp, fs_file.cpp, open_file.cpp and freader/freader_direct.cpp.
-- Fuse: src/fs/fsa.cpp, each handler by the replies that it sends; Fuse/Readdir.antt has the two
--   that fill a buffer with the entries of a directory.
-- Main: src/main.cpp, with the parser of the command line, the configuration and libfuse as
--   parameters; Main/Options.antt has the options. Main/Session.antt says what libfuse asks of the
--   order of its calls.
-- The children of these modules have the theorems, named for what they are about. A module Sample
-- has a concrete state (Meta/Impl/Stranger.antt a name that it lacks), and the module Examples
-- beside it the theorems applied to it.
--
-- Fuse/Dispatch.antt is the table catfs_oper of src/fs/fsa.h, and Fuse/Dispatch/Reach.antt the
-- states that requests lead to from the file system that main makes. The invariant of the tree is
-- the record in Meta/Local/Invariant.antt, which is followed from the heap up through each
-- operation: Meta/Local/Invariant and Meta/Local/Merge/Kept.antt for LocalMemMeta, Meta/Impl/Kept
-- for MetaImpl, Fs/Kept.antt, Fuse/Answers.antt and Fuse/Readdir/Filled.antt, with the rules of
-- Common/Keeping.antt. The same rules follow the fuel: Stor/Ending.antt has what is asked of a
-- backend (Stor/S3/Ending.antt derives it for S3, but for the number of pages), Writer/Ending.antt
-- the rounds that a writer makes, and Meta/Local/Merge/Queue.antt the dentries that
-- clear_unsync_dentry queues.
--
-- Integers are natural numbers, with the wrap of uint64_t written out where the source adds or
-- subtracts (add64, sub64), and the int that the writers return read back as a uint64_t
-- (through_int). Counting the parts of an upload past an int is a fault. Texts are lists of
-- bytes. A map is an association list; its order stands for the map's own. An address that is
-- freed is never given out again, so that its use is a fault.
--
-- Fuel bounds the loops. get_full_path has one unit for each address given out and one more,
-- more than any chain of parents has; clear_unsync_dentry has the same, since each dentry of a
-- tree is queued once; the loop of refresh_sub_dentries over the pages of a listing takes its
-- fuel from outside, since the backend decides how many pages there are. The loops of the writer
-- have a unit for each byte that is written or copied, and more; below 2 GiB they use three, since
-- every write or copy takes all bytes in one round, or none because a part is full.
--
-- Not modelled: the locks and with them what concurrent requests do to each other; the log, but
-- for its directory; the handlers init and destroy, which answer no request; the constructor of
-- the AWS client; src/meta/meta_local_redis.h, which has no implementation.
pub mod Common
pub mod Stor
pub mod Writer
pub mod Meta
pub mod Fs
pub mod Fuse
pub mod Main
