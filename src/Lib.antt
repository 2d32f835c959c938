-- ===== src/Lib.antt =====
-- zway-lib, the client library of a crypto-messenger: the data plane, from a buffer to packets on a
-- link and back, and the values and SQL statements of its document store. Paths are from the root
-- of the repository.
--
-- The parts and how they meet. A `BufferSender` cuts a `MemoryBuffer` into parts of 65536 bytes,
-- each a `Packet` with a head that numbers it; `Sender::sendPacket` writes head and body to the
-- connection; `Receiver::recvPacket` reads them; `Engine::processIncomingPacket` hands the packet
-- to the `BufferReceiver` of its stream, which writes the body to its place. Events and store
-- actions go through the queue of a `Handler`, which a thread of its own works off. Apart from
-- that, `UBJ::Object`s say which rows a store action is about, and the action builds an SQL
-- statement from them, binds their values and runs it. Rows and files are blobs of the store,
-- encrypted by `Crypto::AES` under the store's key; the client's `Store` keeps its messages,
-- resources and files in tables of such rows. A message goes out as a push: its meta data are
-- encrypted under a key of its own, the key for the contact under RSA, and its resources follow as
-- streams whose packets are encrypted; the other client opens the push, stores what it says,
-- answers, and makes a receiver for each resource.
--
-- - Buffer: src/memorybuffer.cpp, src/buffer.cpp. A block is a list of bytes, the null pointer is
--   `none`. `init`, `create`, `copy`, `read`, `write`, `clear`, `release` stand for the methods of
--   the same names.
-- - Packet: src/packet.cpp, include/Zway/packet.h. The head's record and the setters.
-- - Stream.Sender: src/streamsender.cpp, src/buffersender.cpp. `process` is `StreamSender::process`
--   over a record of hooks, the virtual methods; `buffer_hooks` are those of `BufferSender`.
--   Stream.Cut, Stream.Parts: what a sender has after so many calls.
-- - Stream.Receiver: src/streamreceiver.cpp, src/bufferreceiver.cpp. Stream.Join: what a receiver
--   holds after so many packets. Stream.Accept: what it does with any packet.
-- - Wire: `Sender::sendPacket` and `Receiver::recvPacket` of src/client.cpp; the link is a list of
--   bytes, and a call for more than there are waits.
-- - Client: the loops of `Client::send` and `Client::recv` (src/client.cpp), turn by turn over what
--   the socket and gnutls answer. Client.Packets: `sendPacket`, `recvPacket` over these loops, and
--   the test of `Receiver::run`; Client.Packets.Agree compares them with Wire.
-- - Transfer: the loops of `Engine::processStreamSenders` and `Engine::processIncomingPacket`
--   (src/engine.cpp) for one stream.
-- - Ubj.Key, Ubj.Value, Ubj.Object: src/ubj/value.cpp, include/Zway/ubj/value.h. An object is its
--   `std::map` in the order of the keys; Ubj.Key is the order of `std::string`.
-- - Ubj.Value.Convert: the constructors of `Value` from texts and numbers, and its conversions.
-- - Ubj.Format: src/ubj/writer.cpp and src/ubj/reader.cpp. A value's calls of the format's library,
--   and the value of what the library read, `ubjr_dynamic_t` as a tree. Ubj.Format.RoundTrip: a
--   value's tree, the calls that spell it, and what is read of it.
-- - Ubj.Table: src/ubj/store/module.cpp, virtual tables: the index of a column, `createIndex` and
--   `updateIds`; Ubj.Table.Cursor: the cursor, from `xFilter` to `xRowid`, and SQLite's walk over
--   it; Ubj.Table.Best: `xBestIndex`. What the store returns for a blob is a record, `Blobs`.
-- - Ubj.Store.Sql: `wherePart`, `orderPart`, `insertPart`, `updatePart`, `fieldsToReturnPart` of
--   src/ubj/store/action.cpp and the constructors of src/ubj/store/action/. Ubj.Store.Bind:
--   `bindUbjToStmt`. Ubj.Store.Actions: `prepareStmt` and the `execute` methods of
--   src/ubj/store/action/.
-- - Ubj.Store.Blob: src/ubj/store/blob.cpp, with the blob actions of src/ubj/store/action/. The
--   rows of a table of blobs are an interface, `Database`, that keeps what it is given if no block
--   is empty (`IsBound`). Calls: `createBlob`, `updateBlobData`, `getBlobData` of
--   src/ubj/store/store.cpp; Bytes: what an encrypted write puts in a block; Reads, Kept: what is
--   read back; Objects: the same calls for objects; Unlock, Unlocked: how `init` and `open` keep
--   the store's key under a password.
-- - Store: src/store.cpp over an interface of the tables, `Tables`, and what it relies on,
--   `IsLawful`, of queries that fit: the source gives a query by rowid the rows of other tables
--   too, and a query fits if no other table has such a row. Store: `deleteResource`,
--   `deleteMessage`, `deleteHistory`; Nodes: `deleteVfsNode`; Inbox: `updateInbox`, `resetInbox`,
--   `numInboxMessages`; Folders: `createVfsNode`, `ioDir`. Blobs: what a deletion keeps; Resources,
--   Messages, Nodes.Ends, Nodes.Gone: what each takes away. Memory, Filed, World: tables in memory
--   for tests.
-- - Thread.Handler: include/Zway/thread/handler.h with the flags of src/thread/thread.cpp; a step
--   is what the worker or the one calling thread does under one lock.
-- - Requests: src/request.cpp and the table of requests of src/engine.cpp: posts, timeouts
--   (Requests.Overdue), answers (Requests.Pending), where what a request's class does with its
--   answer is an argument; `UbjSender::create` of src/ubjsender.cpp.
-- - Crypto.SecMem: src/crypto/secmem.cpp. The pool of locked memory with its map of blocks; Fit is
--   its layout, Blocks what a call does to the blocks.
-- - Crypto.Aes: src/crypto/aes.cpp. The setters and the loop of `encrypt` and `decrypt` over the
--   cipher of the nettle library. A context that no one has set is arbitrary, and so are the two
--   ends' in the results on whole ways. Chunks compares the loop with one call of the cipher; Keys
--   is about two contexts under one key; Toy is a cipher for tests.
-- - Resources: src/message/resource.cpp, src/message/resourcesender.cpp,
--   src/message/resourcereceiver.cpp. Resources.Sender and Resources.Receiver are hooks and a
--   receiver of the stream layer with the cipher of Crypto.Aes; Resources.Salt is
--   `PushRequest::resourceSalt`, Resources.Link how sender and receiver come about;
--   Resources.Cipher and Resources.Steps compare the parts with the whole, Resources.Arrive runs
--   the loop of Transfer.
-- - Push: `PushRequest::init` of src/request/pushrequest.cpp. Push.Open is the first half of
--   `Client::processPush` (src/client.cpp); Push.Opens joins both over a server that passes the
--   request on, Push.Deliver adds a resource's way.
-- - Incoming: the handlers of `Client::processIncomingRequest` (src/client.cpp) over the tables of
--   Store. Incoming.Messages is the second half of `processPush`, with `processMessage`;
--   Incoming.Answers is about the answers to the server, which are not sent for the id 0 or without
--   memory for a sender.
-- - Base: numbers, lists and texts that the parts share.
--
-- Bounds and fuel. Every `uint32_t` keeps its wrap-around, `% u32`. `transfer` and `exchange` run
-- for a number of rounds that is given to it; as many rounds as the stream has parts are enough,
-- which the result on it states. A loop of Client runs over a list of turns; a result on it says
-- how many bring it to an end. A buffer to transfer has at most 2^32 - 65536 bytes: beyond that the
-- offsets of the parts wrap in 32 bits. `delete_vfs_node` runs on fuel for the depth of its calls;
-- a height that goes down from a node to its children bounds it (a cycle of parents has none, and
-- the source does not come back there). The loop of `encrypt` has one more step of fuel than there
-- are bytes. Whether an allocation succeeds is a function `malloc` of its size, an argument of all
-- that allocates.
--
-- Not modelled. gnutls and sockets are what they answer in each turn of a loop (Client), or a link
-- that delivers all bytes in order (Wire, Transfer); connecting and disconnecting have no model.
-- Sharing between values is left out, and so are changes through references into a value.
-- Conversions and printing of floats are parameters of a `Runtime`, as is the printing of integers.
-- The C library of the binary format is a parameter: which bytes a list of calls writes, and which
-- tree it reads of bytes. Threads have a model only in `Handler`. SQLite is an interface: `Tables`
-- and `Database` say what its rows are after a call, and errors of single statements have a model
-- only in Ubj.Store.Actions. The cipher, the derivation of keys and random bytes are the nettle
-- library's, parameters. Nor is there a model of the steps of `init` and `open` around the key,
-- queries and their cursor, the kinds of request other than `PushRequest`, what `PushRequest` does
-- with its answer, resources that are files or blobs, the fields of `Message`, digests, or the
-- inside of RSA, which is a parameter: a key pair whose private key opens what was encrypted for
-- its public key. A resource's bytes are in memory, as `FileSystemResource` has them. What the
-- server makes of a push is a function, an argument, that passes salt, meta data and the contact's
-- key on. The dumper, image metadata and the build have no model: they print text, wrap a library,
-- or are no program.
pub mod Base
pub mod Buffer
pub mod Packet
pub mod Stream
pub mod Wire
pub mod Ubj
pub mod Thread
pub mod Store
pub mod Requests
pub mod Resources
pub mod Push
pub mod Incoming
pub mod Crypto
pub mod Client
pub mod Transfer
