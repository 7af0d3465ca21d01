-- ===== src/Lib.antt =====
-- A model of the client of node-mysql2, with what makes its parts correct.
--
-- The program speaks the MySQL client protocol. lib/base/connection.js gives each command a packet
-- (lib/packets/packet.js) to fill, and cuts it into frames with sequence ids. The bytes of the
-- socket go through lib/packet_parser.js, which cuts them into packets again, whatever the chunks
-- are in which they arrive, and hands each packet to the connection.
--
--   Packet.antt        lib/packets/packet.js: a window of a Buffer with a position, the reads and
--                      writes of integers and buffers. A method that may throw is a function
--                      M A = Packet → Option (A × Packet). Packet/LengthCoded.antt has the length
--                      coded numbers and buffers; Packet/Bytes.antt and Packet/RoundTrip.antt say
--                      which bytes a method writes or reads, Packet/WriteRead.antt the round trips.
--   PacketParser.antt  lib/packet_parser.js: the fields of the parser are a record, with the method
--                      that `this.execute` is as the data type Execute; executeStart is run_start,
--                      executePayload run_payload, executeHeader2 and executeHeader3 run_header2 and
--                      run_header3. PacketParser/Frames.antt is the description of a stream without
--                      chunks, PacketParser/Chunks.antt holds the parser to it.
--   Connection.antt    lib/base/connection.js: sequence ids, write and writePacket.
--                      Connection/Wire.antt and Connection/Chunks.antt say what arrives of it.
--   Dispatch.antt      lib/base/connection.js (handlePacket, addCommand, pause, resume, _notifyError,
--                      _handleFatalError) and lib/commands/command.js: the queue of commands. A command
--                      is a record with the state that its `next` is; what the states do is the
--                      parameter `transition`. Dispatch/Calls.antt treats sequences of calls,
--                      Dispatch/Paused.antt pause and resume, Dispatch/Fatal.antt fatal errors.
--   Query.antt         lib/commands/query.js: what `this.next` is becomes the data type State, each
--                      state a function from a packet and the command to the next state and the
--                      command; what the packets hold is read by the parameter Parsers. Query/Answer.antt
--                      describes an answer of the server, Query/Run.antt, Query/Sets.antt and
--                      Query/Whole.antt what the command makes of it, Query/Timeout.antt and
--                      Query/Once.antt the timer, Query/Alone.antt that what is read does not depend
--                      on it, Query/Failure.antt a row that cannot be read.
--   Parameter.antt     lib/packets/typed_parameter.js and lib/packets/encode_parameter.js: the values
--                      that are bound to a statement are the data type Value, what JavaScript and
--                      Node.js make of them is the record Runtime. Parameter/Encode.antt has the
--                      encoders and toParameter, Parameter/Encoded.antt the bytes that they fill,
--                      Parameter/Integers.antt the ranges of integers and times.
--   Execute.antt       lib/packets/execute.js, toPacket: Execute/Length.antt about its length,
--                      Execute/Outcomes.antt about what it returns and when it throws,
--                      Execute/Bitmap.antt about the null bits. Packet/Values.antt has the writes of
--                      numbers, times and dates, Packet/Fills.antt how many bytes a write fills.
--   TaskQueue.antt     lib/compressed_protocol.js, the class Queue; TaskQueue/Pipe.antt the work that is
--                      done at once or queued, with its order (TaskQueue/Pipe/Order.antt) and its end
--                      (TaskQueue/Pipe/Drain.antt). Callbacks are steps of their own.
--   Compression.antt   lib/compressed_protocol.js, writeCompressed and handleCompressedPacket, over two
--                      such pipes; zlib is a parameter. Compression/Slices.antt treats the pieces of
--                      a buffer, Compression/Frames.antt the frames and the parser that cuts them,
--                      Compression/Sizes.antt how long they are, Compression/Writing.antt and
--                      Compression/Draining.antt one end, Compression/Receiving.antt both.
--   Pool.antt          lib/base/pool.js and lib/pool_connection.js: the lists of connections and of
--                      waiting callbacks, what the event loop has still to run, and the calls that the
--                      server has not answered. Happens is one step of a user, of the event loop or of
--                      the server, Reaches any number of them. Pool/Sound.antt and Pool/Steps.antt
--                      follow a connection through the hands it is in, Pool/Limit.antt the limit.
--   LocalDate.antt     lib/parsers/local_date.js: wall times, the cache of the offset of each hour, and
--                      what checkTimezone forgets. Date and the time zone are the parameter Clock.
--                      LocalDate/Civil.antt counts days by the calendar, LocalDate/Caching.antt says
--                      what the cache holds, LocalDate/Reference.antt and LocalDate/Runs.antt
--                      compare with new Date, for one call and for a sequence of calls.
--   PoolCluster.antt   lib/pool_cluster.js: nodes, error counts, the search for nodes and its cache;
--                      whether an id matches a pattern is a parameter. PoolCluster/Caches.antt.
--   RingQueue.antt     lib/ring_queue.js: the array, the mask, the head and the tail are a record, and
--                      each method is a function. RingQueue/Holds.antt says which list of elements a
--                      state stands for; the files beside it treat the ends, the peeks, removal and
--                      splicing, and RingQueue/Refine.antt puts all calls together.
--
-- A Buffer is the list of its bytes, a number the native ℕ. The loop of executeStart runs on fuel of
-- one more than the bytes of the chunk, since each round takes a header at least; the loop of
-- writePacket on one more than the length of the packet, since each round takes 16777215 bytes of it
-- or the rest. The memory that Buffer.allocUnsafe of Node.js gives is a parameter (Allocator).
--
-- The loop of writeCompressed has as many rounds as its buffer has bytes, since each writes one at least.
--
-- The bit operations of JavaScript are written with the 32-bit wrap; a ring has 2 ^ 30 slots at most.
-- Its loops are counted by the rounds that they make; the doubling loop of _rebuild has fuel 32, since
-- a capacity of at most 2 ^ 30 is reached before.
--
-- Not modelled: handlers of the user that call the connection again, the socket and its buffering,
-- TLS, the crypto of the authentication plugins, the row parsers that generate JavaScript, strings and
-- encodings, the promise wrappers, tables of constants.
pub mod Compression
pub mod Connection
pub mod Dispatch
pub mod Execute
pub mod LocalDate
pub mod Packet
pub mod PacketParser
pub mod Parameter
pub mod Pool
pub mod PoolCluster
pub mod Prelude
pub mod Query
pub mod RingQueue
pub mod TaskQueue
