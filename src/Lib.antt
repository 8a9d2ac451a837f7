-- ===== src/Lib.antt =====
-- A verification library for common-cc, a C++ toolbox for network servers. The program is a set
-- of parts that servers link; most of them stand alone, and those that interact do so by calls:
-- the network side (net/) hands byte packets from the event loop to the workers through a queue
-- in a buffer, remembers what it has asked of others in a table of sessions with timeouts, and
-- limits its load by a sliding window; the workers use the bounded queue between threads
-- (templates/), and texts, times, percent-encoding and run-time statistics (utils/).
--
-- Which module models which part:
--   NetQueue      net/net_queue.h, net/net_queue.cc: `CNetQueue`. The buffer is a memory of bytes
--                 with the source's three header words in it; `push`, `pop`, `en_queue`,
--                 `get_front_len` and the copies in two pieces are functions on that memory, and
--                 fail where the source would write or read outside of it. NetQueue/Layout has
--                 the invariant, Write to Pop the operations, Fifo the abstract queue of packets.
--   Http          net/http_message.h, net/http_message.cc: `CHttpRequest` in Request, `CHttpResponse`
--                 in Response, and in Wire the code that both have. The exception of `substr` is an
--                 outcome of its own; Walk to Message have the lemmas.
--   NetConf       net/net_conf.h, net/net_conf.cc: `CNetConf`, the reader of Ini with other getters.
--   Session       net/net_session.h, net/net_session.cc: `CSessionMgr`. The sessions are objects on
--                 a heap by address, so that deleting and aliasing can be seen; the hash map is
--                 the list of its entries in the order of iteration. `OnExpire` is a parameter.
--   NetCheck      net/net_check.h, net/net_check.cc: the two tests for a whole packet. `atoi` is a
--                 parameter.
--   NetGrid       net/net_grid.h: `CNetGrid`, `check_load` in the pieces of its body: `reset`,
--                 `enter_cell`, `clear_cells`, `take_request`.
--   BoundedQueue  templates/queue_t.h: `CQueueT`. Each thread is a phase of its call, and a step
--                 relation moves one thread at a time over the shared queue, semaphores and mutex.
--   Stater        utils/stater.h, utils/stater.cpp: `CStater`, its map as the list of its entries.
--   Strings       utils/string.h, utils/string.cpp: `StringUtility`, by families: Chars (classes and
--                 case), Trim, Numbers (decimal, hexadecimal, hash), Split (into words), Replace (to
--                 replace, remove and split by a text; `none` is a call that does not come back),
--                 Content (blanks, comments, characters of GB2312, addresses), Wild (patterns, escapes,
--                 the short form of a text).
--   TimeTick      utils/datetime.h, utils/datetime.cpp: `TimeTick`. TimeTick/Exact has the same steps
--                 on unbounded integers, and the count of microseconds; Normal says where both agree.
--   Ini           utils/ini.h, utils/ini.cpp: `CIniFile`, on the bytes of the file. `atoi` and `atof`
--                 are parameters.
--   Json          utils/json.h, utils/json.cpp: `Json`. Value has the values and their accessors,
--                 Escape `encode` and `decode`, Token the words of the text, Parse `Parse`, Print
--                 `ToString`. `atoi`, `atof` and the formats of numbers are parameters. An outcome is
--                 a value, an exception, or a read behind the end of the text.
--   MemFile       utils/memfile.h, utils/memfile.cpp: `MemFile`, its blocks as objects on a heap.
--                 The size of a block is a parameter. Chain has the invariant, Write and Read the
--                 operations on it, with Seen, Rounds and Whole for the parts of a read; Files has
--                 `Load` and `Save`, Text the lines and `MemFree`.
--   Md5           utils/md5.h, utils/md5.cpp: `MD5`, with the state between calls of `update`.
--                 Md5/Rfc is the digest after RFC 1321, written without the program's functions.
--   Sha1          utils/sha1.h, utils/sha1.cpp: `SHA1`. Sha1/Fips and Padded have the words, the work
--                 on a block and the padding after FIPS 180-1, without the program's functions.
--   Url           utils/url.h, utils/url.cpp: `CUrl::Encode` and `CUrl::Decode`.
--   Prelude       what the parts share: Boolean tests, lists measured by native numbers, integers,
--                 memory, machine words, the character classes of C, searches in texts, maps from
--                 texts in the order of their keys.
--
-- The correspondence: a C++ method is a function of the same name in lower case that takes the
-- object's state and returns the new one; `Option` is a fault (an access out of bounds, a failed
-- assertion, a dangling pointer). A `std::string` is the list of its bytes. Unsigned machine
-- arithmetic keeps its wrap-around as `% 2 ^ 32` or `% 2 ^ 64`. The signed numbers that the program
-- stores wrap around too where a theorem depends on it: the fields of `TimeTick`, the length in
-- `SHA_GO`, the positions in `RemoveStr` and `DeleteSubstr`. The current time is an argument.
--
-- Bounds and fuel: buffers of NetQueue are at most 2 ^ 31 bytes in the theorems that need it,
-- since sums of two lengths wrap around above. The printing of an unsigned int has fuel for ten
-- digits, which all numbers below 2 ^ 32 fit, and that of a `size_t` for twenty; the split into
-- words has fuel for the length of the text, and each round takes a byte. The loops of Http over
-- the pieces of a text have fuel for its length and one more, and each round takes a separator,
-- which is a byte at least. The loops of Strings.Content take a byte in each round, and have fuel
-- for the length and one more; those of Strings.Replace have fuel for the length of the text and
-- one more, and each round takes a byte unless the text to look for is empty, when the source does
-- not come back. The loops of Md5 and Sha1 over the blocks of a text have fuel for its length, and
-- each round takes 64 bytes. `parse` of Json has fuel for twice the length of the text and four
-- more: each call takes a byte, and each round of a loop has one call. The loops of MemFile over the
-- blocks have fuel for the bytes and one more, and each round takes a byte at least; that of
-- `free` has fuel for the blocks. The matcher of Strings.Wild has fuel for the pattern and one more, and takes a
-- byte of it in each round; `offset_from` has fuel for the length asked for and two more, and each round
-- takes a byte. No other function has fuel; the loops recurse on the data or on the
-- count of their rounds.
--
-- Not modelled: sockets, the event loop, threads, files, locks, the database and the logger, which
-- only call the operating system or another library; tinyxml/, a copy of another project; functions
-- on floating-point numbers and formatted output. The shared-memory cache and the external sort
-- are left out as well.
pub mod Prelude
pub mod BoundedQueue
pub mod Http
pub mod Ini
pub mod Json
pub mod Md5
pub mod MemFile
pub mod NetCheck
pub mod NetConf
pub mod NetGrid
pub mod NetQueue
pub mod Session
pub mod Sha1
pub mod Stater
pub mod Strings
pub mod TimeTick
pub mod Url
