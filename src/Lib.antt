-- ===== src/Lib.antt =====
-- The AMQP client library: its wire format, the state machines of connections and channels, messages that
-- are published and put together again, output buffers, and addresses.
--
-- A `Connection` owns channels and writes frames to a handler of the user; a `Channel` sends method,
-- header and body frames over its connection and keeps a chain of deferred results for the answers. The
-- bytes that come in are cut into frames, each of which is read by the class that its ids select.
--
-- Base: shared helpers, numbers and lists.
-- Wire: include/amqpcpp/inbuffer.h, include/amqpcpp/outbuffer.h, src/inbuffer.cpp and src/buffercheck.h. A
--   reader takes an `InBuffer`, a list of bytes with the number of bytes skipped, and returns a value with
--   the buffer behind it, throws, or is stuck, which stands for running out of fuel. What is written is a
--   list of bytes. Floats are carried as their raw bytes. Wire/Reads and Wire/Primitives: the round trips of
--   the primitives.
-- Field: include/amqpcpp/field.h, numericfield.h, stringfield.h, decimalfield.h, booleanset.h, voidfield.h,
--   table.h, array.h there, and src/field.cpp, src/table.cpp, src/array.cpp: one constructor per field type,
--   tables as sorted association lists and arrays as lists, mutual with the fields. Field/Decode is
--   `Field::decode` with the loops of the table and the array.
-- MetaData: include/amqpcpp/metadata.h, the properties of a message.
-- Frame: src/extframe.h, src/methodframe.h, src/headerframe.h, src/bodyframe.h, src/heartbeatframe.h and the
--   frame classes, src/*frame.h, one module for each AMQP class with a constructor for each frame class.
--   Frame/Received: src/receivedframe.h and src/receivedframe.cpp.
-- Connection: include/amqpcpp/connectionimpl.h and src/connectionimpl.cpp, what reaches the handler.
--   Connection/Channels is `add` and `remove`. Connection/Parse is `parse`, over an `Endpoint`, a record of
--   what the loop uses of the connection; the handlers of the frames are a part of it.
-- PassthroughBuffer: src/passthroughbuffer.h, for any split of a frame into the pieces that are written.
-- TcpOutBuffer: src/linux_tcp/tcpoutbuffer.h. `Socket` is a record with the call of the operating system, of
--   which only the documented behaviour is used, as `IsSocket`.
-- Channel: include/amqpcpp/channelimpl.h and src/channelimpl.cpp, frames that wait for an answer, and the
--   chain of deferred results of include/amqpcpp/deferred.h.
--   Channel/Publish is `publish`, with include/amqpcpp/envelope.h; Channel/Operations has one function for
--   each operation that sends a method frame, and Channel/Operations/Perform dispatches on a `Request`.
--   Channel/Operations/Peer is the other side: what a method asks for by the protocol, written without
--   the operations. A step of Channel/Answers is one call that changes a channel, or a change of its
--   connection by others; an object whose frame was refused stays in the chain and is told at once as well.
-- Receiver: src/deferredreceiver.cpp, src/deferredextreceiver.cpp, src/deferredconsumer.cpp and
--   include/amqpcpp/message.h, a consumer that puts a message together from its frames.
-- Login and Address: include/amqpcpp/login.h and include/amqpcpp/address.h. The pointers that `memchr` returns
--   are the two parts of the text around the byte; Address/Writing has the two ways of writing, and Address/Order
--   the comparisons.
-- Throttle: include/amqpcpp/throttle.h and src/throttle.cpp, publishing with a bound on the messages that were
--   not confirmed.
-- Tagger: src/tagger.cpp, publishing with delivery tags.
-- Reliable: include/amqpcpp/reliable.h, a handler for each message; the base class is a parameter.
-- Tests: runs at concrete inputs.
--
-- A `uintN_t` is a natural number with its wrap-around written out; a signed integer is kept as its value
-- and converted where the code casts. A byte is a natural number. The fuel of `decode` is the number of
-- unread bytes and one more, which is enough since every nested field and every item takes at least one byte. The
-- loop of `publish` has one more than the length of the body, the loop of `parse` one more than the length of
-- the buffer, the loop over the options of an address one more than their length, and `sendto` one more than
-- the size of the buffer; each round takes at least one byte, in `publish` where a body frame has room for one.
-- The search of `add` takes the fuel as an
-- argument: 65536 rounds look at every id.
--
-- Not modelled: the handlers that process a received frame, but for the delivery of messages to a consumer;
-- the consumers of a channel by tag, returned messages and single gets; lists of addresses; sockets and TLS;
-- the event loop bindings; and the lifetime of C++ objects. Callbacks of the user are taken to make no calls
-- of their own.
pub mod Base
pub mod Wire
pub mod Field
pub mod MetaData
pub mod Frame
pub mod Connection
pub mod Channel
pub mod Throttle
pub mod Tagger
pub mod Reliable
pub mod Receiver
pub mod PassthroughBuffer
pub mod TcpOutBuffer
pub mod Login
pub mod Address
pub mod Tests
