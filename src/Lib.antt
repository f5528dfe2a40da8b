-- ===== src/Lib.antt =====
-- Verification of leveldblib: the storage code that the repository adds to its copy of LevelDB.
--
-- The program has two storage engines behind one Android library. jni/leveldb is a copy of the LevelDB
-- project, to which the repository adds a file system in memory (jni/leveldb/util/filesystem) and a
-- path parser (jni/leveldb/util/PathParser.h). jni/KvDB is the repository's own engine: records in
-- pages of one file, found by index trees. The modules, and the code that each is about:
--
--   Value         jni/KvDB/SMDValue.cpp: numbers as big-endian bytes
--   Stream        jni/KvDB/SMDStream.h, SMDStream.cpp, SMDMemStream.h, SMDMemStream.cpp: numbers and
--                 strings in a memory stream, by the codec of Value
--   Memory        `memcpy` in a block of known size, which the page code is built on
--   Page          jni/KvDB/SMDPage.h: a page of the file with its header, by the codec of Value
--   Cache         jni/KvDB/dev_buffer.h, dev_buffer.cpp: the cache of the pages of an open file
--   PageTable     jni/KvDB/SMDPageManagement.cpp, SMDPageManagement.h: the table of the page files, and
--                 its bytes in a stream of Stream
--   PageManager   jni/KvDB/SMDPageManagement.cpp, with the file access of jni/KvDB/SMDSStorage.cpp:
--                 loading, saving and chaining pages, over Page, Cache and PageTable
--   PageFile      jni/KvDB/SMDPageFile.cpp, SMDPageFile.h, and the page files of
--                 jni/KvDB/SMDPageManagement.cpp: streams in chains of pages, over PageManager, and
--                 the page table in a page file of its own
--   Record        jni/KvDB/Record.cpp, Record.h: the fields of a record, typed access to them, and a
--                 record in a stream of Stream
--   TableDef      jni/KvDB/TableDef.cpp, FieldType.cpp, FieldTypeFactory.h, and the field classes: the
--                 definitions of tables and fields, and their bytes in a stream of Stream
--   Segment       jni/KvDB/SMDMetaSegment.cpp, SMDTableSegment.cpp: pairs of strings, and the
--                 definitions of TableDef, each in a page file of PageFile
--   Order         strict orders and sorted association lists, the abstract view of the index trees
--   BTree         jni/KvDB/SMDIndexSegment.h, class SMDIndex: the B-tree in memory
--   PathParser    jni/leveldb/util/PathParser.h: normal forms of paths, directory and name
--   FdManager     jni/leveldb/util/filesystem/fdmanager.cpp: the pool of descriptors
--   MemFile       jni/leveldb/util/filesystem/VirtualMemFile.cpp, VirtualMemFile.h: a file in memory,
--                 which takes its name from PathParser and its descriptor from FdManager
--   FileSystem    jni/leveldb/util/filesystem/VirtualMemFileSystem.cpp, VirtualMemFileSystem.h: the
--                 directories and files in memory, over PathParser, FdManager and MemFile
--   Prelude       names and lemmas that all of them share
--
-- A component's module holds its state as a record and one function per operation, with the
-- operation's name in snake case; the modules below it hold its theorems, and its Tests module runs
-- the code at concrete inputs. Machine integers are natural numbers with the wrap written out; what
-- C++ leaves undefined (an access outside a block or an array, a NULL pointer dereferenced) is `none`
-- or a named constructor, and the theorems show where it does not happen.
--
-- The B-tree's nodes are values: a node together with its `pParent` chain is the node with the list of
-- the frames above it, so that the walk up after a split is a recursion on that list. The loops of the
-- code are structural recursions, with these exceptions that run on fuel: `next_free` (the loop of
-- `allocFd`) has one round more than the pool has members, and `doubled` (the loop of `allocMemory`)
-- has as many as the bytes asked for, and the theorems on both rest on this being enough. The loops of
-- a page file get their fuel from the caller, and `endless` is a run that has used it up: one turn for
-- each byte and one more are enough to write a stream, and to read what was written. The loop of
-- `clearPage` follows the chain of pages, which has no bound in the code.
--
-- Not modelled: LevelDB itself, a copy of another project; arithmetic on floating point numbers: what
-- it makes of a value (in a field with a head, or of a fixed scale) is a parameter of the access to a
-- record, and setting a number of fixed scale and the difference of records are left out; streams over
-- a FILE; locks, debug output and destructors; the JNI bindings. Of the engine in jni/KvDB the B+
-- tree, the segments of the data and of the indexes, and the storage that owns the segments are left
-- out.
pub mod Prelude
pub mod Value
pub mod Stream
pub mod PathParser
pub mod FdManager
pub mod MemFile
pub mod Order
pub mod BTree
pub mod Memory
pub mod Page
pub mod Cache
pub mod FileSystem
pub mod PageTable
pub mod PageManager
pub mod PageFile
pub mod Record
pub mod TableDef
pub mod Segment
