-- ===== src/Lib.antt =====
-- Verification of the Redis server that this repository carries (redis/src).
--
-- The parts, from the bottom up, and the files that model them:
-- - Prelude, Act: lists, options, tests and integers over the native numbers, and actions on a state
--   that may abort the server (`none`).
-- - Dict: redis/src/dict.c and dict.h, the hash table with two tables and incremental rehashing. A
--   bucket is a list of entries, a table a vector of buckets, rehashidx an option. Dict.antt has
--   growth and rehashing (dictExpand, dictResize, dictRehash), Dict/Access.antt the operations (dictAdd,
--   dictReplace, dictGenericDelete, dictFind, dictEmpty); a read outside a table, a failed assert or an int
--   that leaves its range is `none`. Dict/Invariant.antt says when a dictionary is valid and which map it stands for, and
--   Dict/Client.antt runs sequences of calls. Dict/KeyMap.antt is the interface that the keyspace uses.
-- - Util: redis/src/util.c, long long integers in decimal (ll2string, string2ll, string2l), and in
--   Util/Glob.antt the match of a pattern (stringmatchlen), in which a read behind the nul of either string
--   is `none`; Util/Glob/Accepts.antt says which strings a pattern stands for.
-- - Object: redis/src/object.c, string objects, raw or encoded as an integer.
-- - Db: redis/src/db.c, the keyspace with its expire times, in Db/Commands.antt its commands (DEL,
--   EXISTS, RENAME, EXPIRE, TTL, PERSIST, TYPE). The key `K` stands for the bytes of the key.
--   Db/Expiry.antt says when a database is valid; Db/Owned.antt has the weaker condition that only keys
--   that are there have expire times, under which Db/Safety.antt runs the commands.
-- - Strings: redis/src/t_string.c, the commands on strings, over Db and Object; Strings/Ranges.antt has
--   GETRANGE, SETRANGE, APPEND and STRLEN, and Strings/Calls.antt runs sequences of the commands of Db,
--   Strings and Bitops. Reply.antt has the replies.
-- - Bitops: redis/src/bitops.c, SETBIT, GETBIT and BITCOUNT on strings. Bitops.antt has the bits of a
--   string of bytes and popcount, whose 32-bit words are numbers below 2 ^ 32, the lowest byte first;
--   Bitops/Commands.antt has the commands.
-- - Multi: redis/src/multi.c, MULTI, EXEC and WATCH; the command that EXEC runs is an argument.
-- - Pubsub: redis/src/pubsub.c, channels and patterns; Pubsub/Commands.antt has the commands and what
--   freeClient of redis/src/networking.c calls, Pubsub/Agreed.antt the agreement of the server's lists
--   with those of the clients. What is sent is kept in a list.
--   A client's channels are a list, so that leaving all of them goes through them in that order.
-- - Networking: redis/src/networking.c, what a client sends, read into requests. Protocol.antt has the
--   buffer and the state of a client's input and takes a request out of it (processMultibulkBuffer,
--   processInlineBuffer, setProtocolError); Networking.antt has the loop and the reads
--   (processInputBuffer, readQueryFromClient, resetClient); what a command does is an argument,
--   of which only whether it blocks or closes the client matters here. Aof.antt has
--   catAppendOnlyGenericCommand of redis/src/aof.c, which writes a request in the form that is read.
--   Networking/Stream.antt says where a reader stands in a stream of requests, and the other files go
--   from a line (Counts) through an argument (Body, Turns), the arguments (Args) and a request (Starts)
--   to the loop over them (Requests) and the reads (Reads, Client); Any and Sane are about any bytes.
-- - Intset: redis/src/intset.c, sets of integers in memory cells of 2, 4 or 8 bytes; a set stands for
--   a sequence of values, and Intset/Valid.antt says when it does. A read or write outside the
--   allocated bytes is `none`. The fuel of the binary search is the length plus one.
-- - Sets: redis/src/t_set.c, a set object as an integer set (Intset) or a dictionary (Dict) of strings, and
--   the change from the first to the second (setTypeAdd, setTypeRemove, setTypeIsMember, setTypeConvert).
--   Sets/Stands.antt says which strings a set object stands for, Sets/Runs.antt runs sequences of calls.
--   The loop of setTypeConvert gets one round more than the set has elements.
-- - Sds: redis/src/sds.c, strings with spare room in allocated bytes; Sds/Laws.antt says when one is well
--   formed. The other modules take a string as its bytes.
-- - Slowlog: redis/src/slowlog.c, the log of slow commands.
-- - Rdb: redis/src/rdb.c, types, lengths and integers of the dump format over a buffer of rio.c.
--
-- The commands reach the keyspace through the interface KeyMap, a map from keys to values. Its laws are
-- those of dictReplace and dictDelete (Dict/Replace.antt, Dict/Delete.antt), which do not fail on a valid
-- dictionary with fewer than 2 ^ 29 entries and 2 ^ 31 buckets; a keyspace beyond that is not modelled.
--
-- Bounds: a long and a long long have 64 bits, an int and an unsigned int have 32; wrap64 is written
-- where the source lets a long long leave its range. A count of the header of Sds that an int does not
-- hold is `none`. An allocation of 2 ^ 63 bytes or more, which SETRANGE may ask for, ends the server
-- (Reply.out_of_memory). The ints of dict.c that index buckets are faults from 2 ^ 31 on; growth is to
-- the next power of two above twice the entries, so that fewer than 2 ^ 29 entries keep tables below
-- that. Fuel: ll2string writes at most 20 digits, which every unsigned long long has room in; the loop
-- of _dictNextPower gets 62 rounds, enough up to 2 ^ 63; processInputBuffer gets one round more than
-- the buffer has bytes, as every round takes some, and stringmatchlen one more than the pattern, which
-- gets shorter in every round and call; the other loops are recursions on the list or the number of
-- rounds that the source gives them.
--
-- Parameters: strtoll and isspace of the C library (Object.Libc), the hash function and the comparison
-- of keys (Dict.Bucket.KeyType), the clock, which a command reads once. The match that PUBLISH
-- calls is an argument, so that what is shown holds of any. tolower is that of the "C" locale. The bytes
-- that a reallocation adds are an argument of Sds.
--
-- Not modelled: the limit of a client's query buffer and reads that fail, reference counts and
-- the sharing of objects other than the test of tryObjectEncoding,
-- LRU clocks, the rewriting of a command for replication, sockets, files and processes, the other
-- types of values and their encodings, scripting, replication, and the web application beside Redis.
mod Prelude
pub mod Dict
pub mod Util
pub mod Networking
pub mod Object
pub mod Reply
pub mod Act
pub mod Aof
pub mod Bitops
pub mod Db
pub mod Strings
pub mod Protocol
pub mod Pubsub
pub mod Rdb
pub mod Multi
pub mod Sds
pub mod Sets
pub mod Slowlog
pub mod Intset
