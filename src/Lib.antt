-- ===== src/Lib.antt =====
-- The verification library of bctoolbox, a C library of utilities: containers, text helpers, files,
-- encrypted files, times, logging and sockets. The modules below model its C code and state what it
-- does.
--
-- LinkedList models src/containers/list.c. LinkedList/Heap has the memory: list elements at
-- addresses, the allocator, and the data handed to a caller's free function; a run returns, faults
-- at an address without an element, or uses up its fuel. LinkedList and LinkedList/Insert have one
-- definition for each function bctbx_list_x, named x (free_list for bctbx_list_free, next_elem for
-- bctbx_list_next, remove_free and remove_custom_free for the two static functions). A loop runs on
-- fuel, which counts its rounds: one more than the number of elements is the fuel of every walk.
-- LinkedList/Chain says what it is for a heap to hold a doubly linked list.
--
-- Parser models src/parser.c, and ParamString src/param_string.c: a C string is the list of its
-- bytes without the final zero, and a run that would write outside its buffer, read behind its
-- string or count beyond an int is none. The lookup of a parameter by name in ParamString, of which
-- the last occurrence counts, is executable.
--
-- Vfs models src/vfs/vfs.c, the layer that every file goes through. A file is a record with the
-- state of the VFS below it, its offset and its two pages; an operation is a function from a file
-- to its result and the file. bctbx_file_write is Vfs.write, and so on; Vfs/Open has the modes,
-- Vfs/Fprintf bctbx_file_fprintf and Vfs/Lines bctbx_file_get_nxtline. The methods of a VFS are a
-- parameter. Vfs/Contents says what it is for them to store what they are given, and Tests/Files
-- has a file in memory. Vfs/Reachable has the calls as steps of an open file. Vfs/Standard models
-- src/vfs/vfs_standard.c over the calls of the system, and provides the methods that Vfs takes as a
-- parameter.
--
-- Logging models src/logging/logging.c: Logging has domains, masks and handlers, Logging/Messages
-- the messages that go to handlers or wait for the log thread, Logging/Strings
-- bctbx_strdup_vprintf, and Logging/Files the files of a log collection, by number and size. Calls
-- of handlers are recorded in the logger; calls of threads come one by one, in the order of the
-- mutexes. Logging/Tags models src/logging/log-tags.cc, the tags of a thread: the class LogTags is
-- a record, and its map a list in the order of the types.
--
-- EncryptedVfs models src/vfs/vfs_encrypted.cc, the VFS that keeps a file encrypted in chunks: the
-- object of the class VfsEncryption is a record, a method a run that returns or throws, and leaves
-- the object. EncryptedVfs/Header has parseHeader and writeHeader, Settings what the callback of an
-- open sets, Read, Write and Open the methods and the constructor, and Io the functions behind the
-- methods of the VFS. The encryption modules are an interface, Modules, which Suites fills with
-- Dummy and Aes, the modules of src/vfs/vfs_encryption_module_dummy.cc and
-- src/vfs/vfs_encryption_module_aes256gcm_sha256.cc; their primitives are parameters. Contents says
-- what it is for a file to hold the chunks of a text, and Parsed what it is for a module to be made
-- again from a header. Migrated says what it is for the directory to put the temporary file in the
-- place of the plain one. The loops run on fuel: the number of bytes that they take, since each
-- round takes one at least. The loops that move a plain file into an encrypted one run on the size
-- of the file and one.
--
-- Port models a part of src/utils/port.c: Port/Hex the hexadecimal texts, Port/Time the arithmetic
-- of times, whose sums beyond 64 bits, undefined in C, are none, Port/Duration
-- bctbx_time_string_to_sec, with a round of its loop for each byte as fuel, and Port/Text the parts
-- of a path and the helpers that copy texts.
--
-- Crypto models the two functions of src/crypto/crypto.c that encrypt and decrypt a file chunk by
-- chunk; the AES-GCM functions are a parameter, and a read behind the end of the key is none.
-- Sockets models src/vconnect.c: the calls go through the methods of the default API, which are a
-- parameter.
--
-- Not modelled: the text of a log line, the warnings that list.c logs, and the parts of the library
-- that talk to the operating system or to other libraries. Calls that run at the same time, and
-- calls of a caller's function that change the list it is called on, are outside the model.
pub mod Common
pub mod LinkedList
pub mod Parser
pub mod ParamString
pub mod Vfs
pub mod Logging
pub mod Crypto
pub mod Port
pub mod EncryptedVfs
pub mod Sockets
pub mod Tests
