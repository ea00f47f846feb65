-- ===== src/Lib.antt =====
-- dnbd3, a network block device with a caching proxy: models of its server and of its wire format.
--
-- The server offers images to clients. An image that is not stored whole is filled from another
-- server, the uplink: a block that a client wants and the cache does not have is asked for upstream,
-- and what arrives is written to the file and marked in the image's cache map. Checksums of hash
-- blocks of 16 MiB that became complete are queued for a check in the background.
--
-- Base: native numbers, Boolean tests, lists, and the bits of bytes and machine words.
--
-- Image: the parts of dnbd3_image_t (src/server/globals.h) that several parts share, and the sizes of
--   src/server/image.h: a block is 4096 bytes, a byte of the cache map stands for 8 blocks, a hash
--   block for 512 bytes of the map.
--
-- CacheMap: the cache map of src/server/image.c. CacheMap.Defs has image_updateCachemap, once for
--   each value of its last parameter (update_set, update_clear), with its masks and its loop over the
--   inner bytes, image_isComplete, image_isHashBlockComplete, image_isRangeCachedUnsafe and
--   allocCacheMap. A failed assertion is the result none. CacheMap.View says what a map means: the
--   set of its present blocks.
--
-- Integrity: integrity_check of src/server/integrity.c, the queue of checks that an update of the
--   cache map feeds, with the flag that says whether its thread runs. Its calls from image_updateCachemap are not blocking; the wait for a free slot
--   of a blocking call is not modelled, nor is the thread that works the queue off.
--
-- Images: the list of images of src/server/image.c. Memory is a function of the address, so that an
--   image that is freed, or replaced by its reloaded copy, is told from one that lives. Images.Defs has
--   image_byId, image_get, image_lock, image_release, image_remove, image_tryFreeAll and
--   image_addToList. The answers of the file system in image_get are parameters of reopen.
--   Images.Runs lets threads call these in any order. image_free counts as done when it is called:
--   its wait for the shutdown of the image's uplink is not modelled, nor are file descriptors.
--
-- Uplink: relaying a request upstream, uplink_requestInternal of src/server/uplink.c. Uplink.Request
--   follows the function from its guards to the message that it sends. The queue is a list, not a
--   chain of pointers; the socket is a parameter that says whether a message could be sent.
--   Uplink.Reply has the end of a request: the part of handleReceive that finds the entry, takes it
--   off the queue and calls the clients back, with the buffer that the payload was received into, uplink_removeEntry and cancelAllRequests. Uplink.Resend has
--   sendQueuedRequests, and Uplink.Replicate has findNextIncompleteHashBlock and
--   numWantedReplicationRequests; Uplink.NextBlock is about the former. The writing of received data to disk, the thread's main loop and the
--   sending of background requests are not modelled.
--
-- Serialize: src/shared/serialize.c, and the select-image request with its reply at both ends:
--   dnbd3_select_image and dnbd3_select_image_reply of inc/dnbd3/shared/protocol.h, and
--   recv_request_payload and net_handleNewConnection of src/server/net.c. The socket hands over whole
--   payloads.
--
-- Reference: weak references, src/server/reference.h and reference.c. Each access of shared memory is a
--   step, and calls in progress take steps in any order; compare-and-exchange may fail for no reason.
--   The continue in ref_get is modelled as C has it: it goes on with the exchange. An object is
--   installed once, with a counter that was 0 (uplink_init starts at 1, and image_get installs a cache
--   map twice); installing it adds to its counter before the exchange, while no other thread knows
--   the object, and is one step. The limit of 31 calls at a time is that of the offset in the pointer.
--
-- Timing: time stamps, inc/dnbd3/shared/timing.h.
--
-- AltServers: src/server/altservers.c, the servers that an uplink can connect to. AltServers.Defs has
--   the list (altservers_add, altservers_hostToIndex), name spaces and the closeness of addresses;
--   AltServers.Lists and AltServers.Uplinks have the choice of servers for a client and for an uplink;
--   AltServers.Health has the failure counters, the averages of round-trip times and the loop of
--   altservers_findUplinkInternal. What the network answers and what rand returns are parameters. The
--   test loop tests an image that is still listed; that two checks of one uplink exclude each other,
--   and the configuration file, are not modelled.
--
-- Session: the connection of a client, src/server/net.c. Session.Defs has CMD_GET_BLOCK from the checks
--   of the range to the loops over sendfile and the padding, with uplink_requestClient on the queue of
--   Uplink, uplinkCallback and freeClientStruct; Session.Commands has the other commands and the loop;
--   Session.Roster has the list of clients. What sockets and sendfile do is a record of parameters. The
--   loops send at least a byte in each round, so fuel for one round for each byte is enough. A
--   connection keeps the cache map that it took for its first block request, until another command
--   makes it let go; in a run of the loop no other thread changes the map or the image. What is left of
--   a reply that is not sent whole is not modelled, but for the checksums.
--
-- Url: the decoding of a value in src/server/urldecode.c.
--
-- Not modelled: reading and writing files (the images' metadata, the configuration), sockets and
--   threads as such, logging, JSON, process start-up, the kernel module, the clients, and the copies of
--   other projects' libraries (picohttpparser, ini.c).
--
-- Numbers: offsets and sizes are natural numbers. Where the source's arithmetic on 64 or 32 bits can
-- wrap around it is written out with the modulus, and so are the casts to int of the size of a new cache
-- map and of the index into the map in image_isHashBlockComplete. Not written out are the cast of the
-- number of a hash block in image_updateCachemap, which needs an image of 2 ^ 55 bytes to matter, and
-- that of the size of the map of an image that has one, which cannot be from 2 ^ 46 bytes on.
-- Loops are structural recursions over lists or over the number of rounds, so no fuel is needed.
pub mod Base
pub mod Timing
pub mod Image
pub mod Integrity
pub mod CacheMap
pub mod Uplink
pub mod Serialize
pub mod Images
pub mod AltServers
pub mod Reference
pub mod Session
pub mod Url
