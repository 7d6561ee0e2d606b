-- ===== src/Lib.antt =====
-- msgpack-rpc-boost: MessagePack-RPC for C++ over Boost.Asio.
--
-- A client keeps a session for each address in a pool. A call takes the session's next message id,
-- makes a future, enters it in the session's request table under the id, packs a request and gives it
-- to the transport, which connects first if it must. The server's transport reads bytes, unpacks
-- objects, takes each for a message and gives it to the server, which asks its dispatcher; the
-- dispatcher answers through a request object, and the response goes back the same way to the
-- session, which takes the future out of the table and completes it. A timer of one second counts the
-- futures down, and another one drops the sessions that nobody uses.
--
-- Which file models what, the paths being below src/msgpack/rpc:
--   Prelude      names of the libraries, Boolean tests on numbers, lists
--   Protocol     protocol.h and atomic_ops.h: messages, tags, and the counter of message ids;
--                `Codec` and `Runtime` are what the code relies on from the msgpack library
--   Address      address.cc: equality, order, resolving, the printed form
--   Exceptions   exception.h, exception.cc: the exceptions, and `throw_exception`
--   Future       future.cc: one future; Future/Wait its waits, Future/Heap the futures by pointer;
--                Future/Handle the class `future` of future.h, which is a pointer
--   Reqtable     reqtable.cc: the table of requests that wait for a response; Reqtable/Refinement the abstract
--                table
--   Session      session.cc, session.h: the session; Session/Steps is all that can happen to one;
--                Session/Threads its handlers on several threads, Session/Handle the class `session`
--   Caller       caller.h: the overloads of call and notify over a list of arguments
--   SessionPool  session_pool.cc: the sessions by address, with the seconds that each is kept;
--                SessionPool/Handle the class `session_pool`, which is a pool with its loop
--   Request      request.h, request_impl.h: what a dispatcher answers with; Request/Handle the class `request`,
--                whose copies share a request_impl, Request/Threads threads that answer one request
--   Server       server.cc: the server and its dispatcher; Server/Handle the class `server`
--   Client       client.cc: a session that is created for an address
--   Stream       transport/stream_handler.cc: taking an object for a message; Stream/Reading the loop
--                over the objects that were unpacked, for streams and for datagrams
--                (transport/dgram_handler.cc)
--   Sockets      transport/tcp.cc: the virtual functions of the client's and the server's socket
--   TcpClient    transport/tcp.cc, the client: connecting, sending, errors; TcpClient/Calls a call over it;
--                TcpClient/Threads callers and the loop over one transport
--   TcpServer    transport/tcp.cc, the server: accepting, connections, closing; TcpServer/Serving the
--                requests of one stream, TcpServer/Writing the writes of their responses
--   Udp          transport/udp.cc: the client's socket and the server's; Udp/Receiving the datagrams
--                that the server receives, and its response senders (transport/dgram_handler.cc);
--                Udp/Reading those that the client receives, Udp/Broadcast the builder and the options of
--                the client's socket (transport/udp.h, transport.h)
--   Loop         loop.cc: the workers over Boost's io_service
--   Buffer       buffer.cc: bytes that are owned, or referred to
--   Rpc          one call through client and server and back; Rpc/Pipeline several at once
--   EchoServer   the dispatcher of unittest/echo_server.h (from the repository's root)
--   Proxy        the proxy of test/async_server.cc (from the repository's root), with its callbacks
--   Tests        the theorems at concrete data
--
-- How state is passed. A method that changes an object returns the changed object. A session's state
-- is a record of the session, its transport and the futures; pointers to futures and sessions are
-- numbers. A handler that the loop runs is one function, and a run of the program is a sequence of
-- steps, one after another. Session/Threads takes the session's handlers apart where they let go of a
-- lock, so that the threads of the loop may come between, TcpClient/Threads the callers' way through
-- the transport, and Request/Threads the answers to one request.
-- Waiting threads see the others' work as the list of states in which they find the future. An
-- exception is an Option or a constructor of a result type.
--
-- Numbers. A message id and the counter of ids are 32-bit patterns, and the product of `join` is
-- written out modulo 2 ^ 32. Seconds are natural numbers, compared and counted down as the code does.
--
-- Fuel. `try_connect` gets one more than the limit of attempts, since each attempt raises the count
-- that the limit bounds; the loop over the unpacked objects gets one more than the bytes left, since
-- each object takes at least one byte.
--
-- What is given, not modelled. The msgpack library (`Runtime`, `Codec`, `Unpacker`), with its round
-- trips, that its nil object is told from numbers and raw references, that an unpacked object
-- consumes input, and that it is the same in how many pieces an unpacker is fed (`Streaming`), as
-- laws. The operating system and Boost.Asio (`Network`: how each attempt to connect and each write
-- ends, and what a flush of the loop runs; `Os`: how a connect and a send end on a socket with given
-- options; `IoService`: that a stopped service runs nothing and stays stopped), what the echo
-- dispatcher's parameters convert to (`Conversions`), Boost's IP addresses (`IpAddress`: their
-- equality, order and printed form) and the resolver. The dispatcher is the program's.
--
-- What is not modelled: logging, the sleep between attempts, what only declares (the headers of
-- interfaces), the listeners, which only call the constructor of a server's transport, the unit
-- tests, and the programs of test (both from the repository's root) but for the proxy of async_server.cc.
-- A server::base that listens holds itself, as its own dispatcher, and is not modelled either.
pub mod Prelude
pub mod Address
pub mod Protocol
pub mod Exceptions
pub mod Future
pub mod Reqtable
pub mod Loop
pub mod Buffer
pub mod Session
pub mod SessionPool
pub mod Request
pub mod Stream
pub mod Server
pub mod Sockets
pub mod Rpc
pub mod TcpClient
pub mod TcpServer
pub mod Udp
pub mod Caller
pub mod EchoServer
pub mod Proxy
pub mod Tests
pub mod Client
