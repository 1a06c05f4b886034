-- ===== src/Lib.antt =====
-- A model of the core of xnetty, an event-driven network library in C++ in the manner of Netty, with
-- the theorems that make its parts correct.
--
-- A connection's bytes are read into a `ByteBuf`, which the handlers of a pipeline consume; the HTTP
-- codec hands each request to the router, and the WebSocket codec turns bytes into frames. An event
-- loop drives the connections, and a wheel of timers with them.
--
-- Which file models what (a child module proves what its parent defines, `Tests` runs it):
-- - Memory: the allocator (`malloc`, `realloc`) as the parameter `Allocator`, which states that a
--   block has the size asked for, that no block exceeds `PTRDIFF_MAX` and that `realloc` keeps the
--   common bytes; `Outcome`, the ways in which code can end (a value, an exception, undefined
--   behaviour, a loop without end). Memory/Plain is an allocator that meets the assumptions,
--   and Memory/Returns says what holds of a value if there is one, and that there is one.
-- - Buffer: the class `ByteBuf` of include/xnetty/buffer/byte_buf.h and src/buffer/byte_buf.cpp.
--   The block behind `data_` is the list of its bytes, an access outside of it is the outcome
--   `fault`. `size_t` arithmetic wraps at 2^64. The doubling loop of `ensureWritable` takes 64
--   rounds at most, since 64 doublings shift any number out of the word.
-- - Timer: the class `TimerWheel` of include/xnetty/event/timer_wheel.h and
--   src/event/timer_wheel.cpp. What a callback does to the wheel is the parameter `run` of `tick`.
-- - Router: the class `Router` of include/xnetty/http/router.h and src/http/router.cpp. A handler is
--   an opaque value; an answer is a `Reply`: a handler called with its parameters, status 405, status
--   404, or nothing. Strings are lists of bytes; `std::unordered_map` is an association list.
-- - WebSocket: the class `WebSocketCodec` of include/xnetty/websocket/websocket_codec.h and
--   src/websocket/websocket_codec.cpp: `channelRead` with the bytes and the fragments that are kept
--   between reads, `isValidUtf8` and `encodeFrame`. A buffer stands there by its readable bytes. The
--   loops over bytes take as many rounds as there are bytes, since each round passes one at least.
-- - Response: the class `HttpResponse` of include/xnetty/http/http_response.h and
--   src/http/http_response.cpp. `Wire` is the text of a response, described apart from the code;
--   `serialize` writes into a `ByteBuf` of the module Buffer, `memcpy` by `memcpy`.
-- - Pipeline: the classes `ChannelPipeline` and `ChannelHandlerContext` of
--   include/xnetty/channel/channel_pipeline.h and src/channel/channel_pipeline.cpp. Manage has the
--   operations on the list of handlers, Fire the events of the pipeline, Context those of a handler's
--   context. Handlers are opaque; an operation gives the list of the calls that it makes.
-- - Request: the class `HttpRequest` of include/xnetty/http/http_request.h and
--   src/http/http_request.cpp. Request/Query is about query strings, Request/Raw about the headers in
--   the raw bytes, and Request/Lookup about finding a header.
-- - Codec: the class `HttpServerCodec` of include/xnetty/http/http_codec.h and
--   src/http/http_codec.cpp: the callbacks of the parser and, in Codec/Read, `channelRead`, which cuts
--   the bytes that came into requests. llhttp is a parameter. Its loop has a round for every byte and
--   one more, since a round passes one byte at least. Codec/Fired collects what
--   it has passed on however it ends, Codec/Limits and Codec/Refused are about the limit on bodies, Codec/Parts about messages that come in parts, and Codec/Write holds `write`.
-- - Handshake: the class `WebSocketHandshake` of include/xnetty/websocket/ws_handshake.h and
--   src/websocket/ws_handshake.cpp, with Handshake/Sha1 for src/util/sha1.cpp and Handshake/Base64
--   for src/util/base64.cpp. Handshake/Padding is about the blocks of the hash, and
--   Handshake/Decode and Handshake/Accept about reading the encoding back.
-- - Topics: the class `TopicTree` of include/xnetty/websocket/topic_tree.h and
--   src/websocket/topic_tree.cpp: subscriptions, and who gets a message. Topics/Agree relates both
--   sides of a subscription, Topics/Leaving is about subscribers that are removed, and Topics/Links
--   about messages.
-- - Worker: one connection of a `WorkerEventLoop`: include/xnetty/channel/connection.h,
--   src/channel/channel.cpp, src/channel/context.cpp and src/event/worker_loop.cpp. What a system call
--   returns comes with the event, and what the handlers of the pipeline do is a list of acts.
--   Worker/Io has reading, writing and the timeouts, Worker/Stream and Worker/Order are about the
--   bytes that are sent, Worker/Wakes and Worker/Awake about the poller, Worker/Closed and Worker/Lost
--   about connections that are closed.
-- - Loop: the class `EventLoop` of include/xnetty/event/event_loop.h and src/event/event_loop.cpp.
--   Loop/Queue is the ring `SpscQueue`, Loop/Ring, Loop/Refine and Loop/Create are about the queue that
--   it holds. Its loop over the items has a round for every place. Loop/Order and Loop/Called are about
--   the functors that the loop is given, Loop/Clock is `advanceTimer`, and Loop/Wakeups has the steps of
--   the threads that queue functors and of the loop, in any order.
-- - StaticFiles: the class `StaticFileHandler` of include/xnetty/http/static_file_handler.h and
--   src/http/static_file_handler.cpp. The file system is the parameter `Files`. StaticFiles/Confined is
--   about the files that are opened.
-- - Session: the classes `WebSocketHandler` and `WebSocket` of
--   include/xnetty/websocket/websocket_handler.h, src/websocket/websocket_handler.cpp,
--   include/xnetty/websocket/web_socket.h and src/websocket/web_socket.cpp, with the wheel of Timer and
--   the tree of Topics. Session/Timers is about the two timers, Session/Replies about what is answered,
--   and Session/Ended about the end of the subscriptions.
-- - Prelude: tests, lists, slices, predicates on lists, texts, decimals, and tables of
--   values that are compared by evaluation.
--
-- Not modelled: system calls, sockets and pollers (input and output), OpenSSL, zlib and llhttp (other
-- libraries), logging, the handlers that compress bodies, floating point rates, the upgrade of a connection, the draining of
-- topics (the code never has anything to drain), and the loop over all connections.
pub mod Prelude
pub mod Memory
pub mod Buffer
pub mod Timer
pub mod Router
pub mod WebSocket
pub mod Response
pub mod Pipeline
pub mod Request
pub mod Codec
pub mod Handshake
pub mod Topics
pub mod Worker
pub mod Loop
pub mod StaticFiles
pub mod Session
