-- ===== src/Lib.antt =====
-- gitlstreefs: file systems in user space that show git repositories, build targets and other trees.
--
-- The file systems fill a tree of `File` objects (directory_container.h) from an external source, and
-- answer the calls of FUSE from it. They share helpers that this library models as follows.
--
--   Base        Shared names, lists and texts over native numbers, the maps of the standard library,
--               strtol, and `Outcome`, the result of code that may fail an assertion.
--   Paths       basename.cc (BaseName, DirName) and relative_path.cc (GetRelativePath).
--   Split       SplitStringUsing of strutil.cc. `prev` is a position in the text.
--   Container   directory_container.h and .cc. Objects live on a heap and are named by numbers; the
--               state is the heap, the next free number and `files_`. A dereferenced pointer to a freed
--               object, and a cast to the wrong class that is used, is `none`. add, get, is_directory
--               and for_each are the methods; maybe_create_parent_dir is MaybeCreateParentDir.
--               Names are the paths as lists, Walk the tree as seen from the root and the invariant.
--   Concurrency concurrency_limit.h and .cc as a step relation over the holders, the sleeping threads
--               and the notified threads.
--   GitCatFile  git_cat_file.h and .cc: the metadata of a reply and Request. The system calls on the
--               pipe are parameters; what their documentation says is IsPipe of GitCatFile/Fetch.
--   FileCache   cached_file.h and .cc: get and release of Cache. The disk is a map from paths to
--               contents; mmap, the fetch function and the other threads are parameters.
--   GitTree     gitlstree.h and .cc: Open, Read, Readlink (which returns 0) and Release of FileElement,
--               with the cache as a parameter; LoadDirectory (Load), with what git prints as arguments.
--   Fuse        The stat fields, errors and virtual methods that the file systems share; the callbacks of
--               git_adapter.cc (Adapter), which gitlstree and githubfs use, and those that ninjafs.cc,
--               cpiofs.cc and ext2.cc have copies of (Callbacks); the copying of a read (Window).
--   NinjaFs     ninjafs.cc: NinjaTarget, NinjaLog, LoadDirectory and the callbacks. The runs of ninja
--               and the files outside are parameters.
--   CpioFs      experimental/cpiofs.cc: the header, CpioFile (File), LoadDirectory and the callbacks
--               (Load), over the bytes of the mapped archive. Archive is an encoder of the format. The
--               map of hard links is searched with operator< of its key; where that does not order
--               the keys that are there, the behaviour of std::map is `undefined`. It orders the
--               keys of one device (Devices).
--   Ptfs        ptfs.h, ptfs.cc and ptfs_handler.cc: the callbacks, the handlers that they call (Handler)
--               and the requests that reach them (Request). The system calls are a parameter; what
--               their documentation says of descriptors is IsKernel of Ptfs/Tidy. The live file
--               handles are part of the state; of the arguments only those are looked at that the
--               code looks at.
--   Json        jsonparser.h and .cc: Value, the lexer, the recursive parser and the accessors. strtof
--               is a parameter. A position in the text is the text that is left. The state of an object
--               under construction is the list of its members in the order of the text.
--
--   Ext2        experimental/ext2.cc and linux_ext2.h: the fields of the structures and the look-up of
--               inodes and blocks, over the bytes of the mapped image; Ext2File, copy and Read (File),
--               the superblock's checks and WalkDir (Load).
--   Base64      base64decode.cc: the table of the alphabet and the two loops. A byte from 128 on reads
--               out of the bounds of the table and is `undefined`.
--   GitHub      git-githubfs.h and .cc: the parsers of the replies, FileElement (File) and
--               LoadDirectoryInternal with the constructor of GitTree (Load). HttpFetch is a
--               parameter, a map from addresses to replies. What the server is taken to reply is
--               IsBlob of GitHub/Fetched and IsListing of GitHub/Loaded, by what the JSON parser
--               makes of it. The loads of subdirectories run at the same time as what starts them:
--               the order in which two threads reach the container is a parameter, `interleave`.
--   NinjaBuilder
--               configure.h and configure.cc: the lines of build.ninja and the calls that make them
--               (Configure), with what pkg-config prints as arguments.
--
-- Container uses Paths; Fuse uses Container; GitTree, NinjaFs, CpioFs, Ext2 and GitHub use Container and
-- Fuse, and the first two Split; GitTree uses the atoi of GitCatFile; Ptfs uses Paths; GitHub uses Json,
-- Base64, FileCache and the modes of GitTree; the others stand alone.
--
-- Fuel. The recursion of MaybeCreateParentDir is given the length of the path and one more, which is
-- more than the number of its names. The loops of the JSON parser are given the length of the text and
-- one more; every round takes a byte. SplitStringUsing is given the length of the text and one more
-- round. The loop over the headers of a cpio archive is given the length of the archive and one more; a
-- header takes 110 bytes. The loop of the base64 decoder is given the length of the text and one more;
-- a round takes a byte. Ext2's WalkDir is given its fuel by the caller, one unit for each entry on the
-- way; LoadDirectoryInternal too, one for each directory on the way and for each repetition. Request
-- is given its fuel by the caller, one unit for each read, and so is the caller of Read that reads
-- block by block.
--
-- Bounds. Bytes are numbers; the sizes in a reply of git are checked against the `int` of the source;
-- offsets are not negative and do not wrap; `int prev` in SplitStringUsing is taken to be large enough
-- for the text; strtol saturates to 64 bits.
--
-- Not modelled: owners and time stamps, the output of dump and of the error messages, locks
-- (every operation is one step under its lock, but for the limiter, whose sleeping is modelled, and the
-- cache, which lets other threads in), processes, the garbage collection of the cache, statistics,
-- timers, and the rest of the file systems (cowfs, gitfs and
-- the read-only pass-through ones), which are mostly calls of the system.
pub mod Base
pub mod Paths
pub mod Ptfs
pub mod Split
pub mod Container
pub mod Concurrency
pub mod GitCatFile
pub mod Fuse
pub mod NinjaBuilder
pub mod NinjaFs
pub mod CpioFs
pub mod FileCache
pub mod GitTree
pub mod Json
pub mod Ext2
pub mod Base64
pub mod GitHub
