-- ===== src/Lib.antt =====
-- RESTfulCweb: a web framework over an event-driven TCP server.
--
-- The program and its parts. A `TcpConnection` (src/tcpserver/tcpconnection.cc) reads from its
-- socket into a `ByteBuffer` (src/tcpserver/bytebuffer.cc) and hands that to the HTTP layer, which
-- makes a request of it. `Cweb::serverHTTP` (src/cweb/cweb.cc) puts the request into a `Context`
-- (src/cweb/context.h), adds the middleware, and lets the `Router` (src/cweb/router.cc) find a
-- route in the `Trie` of the method (src/cweb/router.h) and start the chain of handlers. What the
-- handlers send is a `ByteData` (src/tcpserver/bytedata.cc), which the connection writes at once or
-- queues until the socket is writable. Connections live on the loops of
-- src/tcpserver/eventloop.cc, which `TcpServer` (src/tcpserver/tcpserver.cc) deals them out to; the
-- bytes of a request and of a reply are read and made by `HttpSession` (src/httpserver/httpsession.cc).
--
-- What models what. Names are those of the code in another spelling: `findRoute` is `find_route`.
--   Prelude        shared lemmas: tests, lists, bytes, dictionaries (std::unordered_map), blocks of
--                  memory
--   Routing/Split  Trie::Split and Trie::ParsePattern
--   Routing/Trie   Node and Trie; a changed tree is a new one
--   Routing/Router Router, and the part of Context that findRoute fills
--   Cweb           Cweb, Group, Context::Next and Router::Handle; a handler is a script of effects
--                  and calls of Next, or an empty function
--   Tcp/ByteBuffer the buffer as a block of memory with two indices
--   Tcp/ByteData   the packets to send, with the position of what is sent
--   Tcp/Connection the connection on its loop's thread: state, timer, event bits and queue
--   Tcp/EventLoop  the loop's thread and the tasks that other threads give it, as interleaved steps
--   Tcp/Server     TcpServer on the accepting loop, and Scheduler
--   Tcp/Timer      Timer and TimerManager
--   Tcp/TimerWheel TimerWheelManager: layers of slots, the turns and the counts
--   Tcp/Event      the flags of Event, which go on to the poller
--   Tcp/Poller     PollPoller: the entries for poll, the map and the indices of the events
--   Http/Query     the parameters of HttpParser::handleURL and HttpRequestFormBody::SetData
--   Http/Request   HttpRequest, ParseBody, and the bodies with their parts
--   Http/Session   the callbacks of HttpParser, and handleMessage of HttpSession
--   Http/Reply     SendString, SendJson, SendFile and SendMultipart of HttpSession
--   Http/WebSocket WebSocket::handleMessage as a loop of turns, the frames and their headers
--   Util/Base64    base64encode
--   Util/PriorityQueue  the heap of the timers
--   Util/LinkedList     the list of nodes with two pointers, in a store
--   Util/LockfreeQueue  the lock-free queue with one thread at each end, access by access
--   Util/MemoryPool     chunks of the blocks and the lists of freed ones
--   Log/Formatter  LogFormatter and its items
--   Coroutine/Loop the lists of coroutines of CoEventLoop and the loop that switches to them
--   Tests          runs on concrete inputs
-- Under a component's module stand the modules with what is proved of it.
--
-- Integers. Sizes (size_t) and indices are natural numbers: a difference of sizes wraps around at
-- 2 ^ 64 (sub_size), and a sum is the size of a block of memory, which does not. `offset_` of
-- ByteData is an int, here its pattern of 32 bits with the wrap-around written out. Steps, waits and
-- ticks of the timer wheel are int too: a cast keeps 32 bits, and quotients and remainders go towards
-- zero. The indices of Split and of the trie's recursion count characters and parts of a path and
-- stay below 2 ^ 31.
--
-- Fuel. The chain of handlers runs on fuel (`run`), which bounds how deep calls of Next nest; one
-- unit for each handler of the chain is enough, since Next only moves forward. The loop of
-- handleMessage has four units, since each turn that goes on is nearer to the payload. The heap's
-- loops have as much as the index to rise from, and as the size to sink in; taking out timers has one
-- unit more than there are timers. The class of a request of up to 1024 bytes is found in seven
-- turns of eight. The loop over coroutines has two units more than there are coroutines, where none
-- holds. Numbers are printed with at most 20 digits, which a size_t needs,
-- and a client of the model reads at most eight header lines, of which a reply has four.
--
-- Not in the model: what the system calls return is an argument (readv, writev, mmap, poll, the clock),
-- and so are the vendored parsers of HTTP, JSON and multipart bodies, as the callbacks they make
-- (http_parser, jsoncpp, multipartparser), and what a coroutine does until it switches back. SHA-1 and
-- hiredis are outside. So are log lines and the logger but for its formatter, destructors, the poller
-- for kqueue and sockets, the start of threads, the stacks, events and connections of coroutines, the
-- lock-free queue with several threads at an end, and the databases. RemoveTimer of the timer wheel is
-- left out, since its Erase comes after the Pops of a slot's list, where it does something else than
-- to take the node out; the coroutines' lists have no Pop. Variables that sessions of all threads
-- share are arguments too: what header_field_temp holds when a body comes, and header_key_temp_ when
-- a read does.
mod Prelude
pub mod Routing
pub mod Cweb
pub mod Tcp
pub mod Http
pub mod Util
pub mod Log
pub mod Coroutine
pub mod Tests
