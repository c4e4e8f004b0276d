-- ===== src/Lib.antt =====
-- The caching HTTP proxies of the repository: lab31/v2, which serves its clients from one thread with a
-- poll loop; lab32, which gives each client a thread and reads whole responses; and lab32v2, which
-- gives each client a thread and caches responses while they come in.
--
-- lab32v2. A user's client and the client of the HTTP server share one buffer, which is a state machine
-- over the two statuses of the exchange. The handler of the thread reads from a socket into the buffer
-- and sends what the buffer gives it. The buffer asks the parser about headings, and looks requests up
-- in the cache, which all threads share; an element of the cache is filled by one thread and may be
-- read by others while it grows.
--   Lab32v2/Constants: lab32v2/Constants.h, the sizes.
--   Lab32v2/Parser, Parser/Regex: lab32v2/parser. ParserImpl's functions, each under its own name;
--     the two regular expressions are written out as `std::regex_search` matches them.
--   Lab32v2/Cash, Cash/Element: lab32v2/cash. A CashImpl is the record Cash, a CashElementImpl the
--     record CashElement; a pointer to an element is an index of the store `elements`.
--   Lab32v2/Buffer/State, Reading, Responses, Sending: lab32v2/buffer. A BufferImpl is the record
--     Buffer; its methods are functions on World, the buffer with the shared cache and the condition
--     variables that have been signalled.
--   Lab32v2/Handler, Handler/FromCash: lab32v2/server/HandlerOneClientImpl.cpp, its `sendAll` and
--     `getFromCash`. Each wait on the condition variable comes with the calls that the filling thread
--     makes on the element meanwhile.
--   Lab32v2/Client: lab32v2/client, a socket with what it is polled for and the pointers to others.
--   Lab32v2/Polling/State, Deleting, Steps, Handling, Turns: the rest of HandlerOneClientImpl.cpp, that
--     is, the three deletions, handlingEvent, the poll set and startHandler, with connectToClient of
--     lab32v2/socket. The record Thread is what one thread has: clients and buffers stand in stores,
--     where a deleted object is `none`, and an iterator of the list is the client it stands at. The
--     increment of end() is undefined, or, if the argument `wraps` says so, leads to the first element,
--     as in the lists of libstdc++. deleteClient and deleteClientUser call one another; the bound 2 on
--     their depth is enough where the pair of a user is an HTTP server, and twice the length of the list
--     for the search for the pair, since each deletion makes the list shorter.
--   Lab32v2/Server: lab32v2/server/NewServerImpl.cpp, the rest of lab32v2/socket, and lab32v2/main.cpp.
-- lab32. The server's loop accepts clients and adds each to the context, which starts its thread. The
-- thread handles one request after the other: it looks into the cache, or asks the HTTP server. The
-- cleaner joins the threads that have ended.
--   Lab32/Constants, Lab32/Parser: lab32/Consts.h and lab32/parser, whose functions are those of
--     lab32v2 but for what they print.
--   Lab32/CashContext: lab32/context/cash/CashContext.cpp.
--   Lab32/ThreadContext, ThreadContext/Routines: lab32/context/thread/ThreadContext.cpp. The system
--     calls' answers are in the records Answers and Round, with what other threads add to the cache
--     meanwhile; the calls on sockets, reads included, are kept in a list of Call.
--   Lab32/Context, Lab32/Cleaner: lab32/context/Context.cpp and lab32/cleaner/Cleaner.cpp. What the
--     other threads do between two steps of the cleaner is a list of Event.
--   Lab32/Server: lab32/server/ServerImpl.cpp, with acceptNewClient of lab32/socket. Of the cleaner, a
--     local of startServer, the model has the flag that its loop tests.
-- lab31/v2. The server keeps a list of clients; a user and an HTTP server share a buffer, as in lab32v2,
-- and all buffers share the cache. deleteClient takes a client out of the list and releases its buffer.
--   Lab31v2/Constants, Parser, Words: lab31/v2/Constants.h, lab31/v2/parser, and unsigned arithmetic.
--   Lab31v2/Cash, Cash/Element: lab31/v2/cash.
--   Lab31v2/Buffer/State, Reading, Responses, Sending: lab31/v2/buffer, with an unsigned `_lengthBody`.
--   Lab31v2/Server, Server/State, Deleting, Handling: lab31/v2/server/ServerImpl.cpp with lab31/v2/client
--     and what it calls of lab31/v2/socket. Clients and buffers stand in stores, where a deleted object
--     is `none`.
--   Lab31v2/BinaryString: lab31/v2/binaryString/BinaryString.cpp. What `_data` points to is an array of
--     cells, nothing, or a freed array; a use of it outside its bounds or after `delete[]` is `none`.
-- The other child modules hold the proofs, each named for what it is about, and each module Tests the
-- examples. Base has the numbers, lists, texts and tests that all of them share.
--
-- Conventions. A method is a function from the state to its result and the state after it; `none` is a
-- result that C++ leaves undefined, an exception that ends the thread, or, in lab32, a `read` that has
-- no answer yet. The ParseException of a read is a value of Completion or Outcome. An `int` keeps its
-- wrap-around, also in the comparison of a negative `int` with `std::string::npos`; an `unsigned long
-- long` keeps its own; `long long` counts stand for integers without a bound, since a proxy cannot come
-- to 2 ^ 63 bytes, and a cast to `size_t` is written out.
-- Loops go over lists or over the results of the system calls, one for each round, so no fuel is needed;
-- `pending`, `waiting`, `running`, `unfinished` or a flag say that a loop is not at its end when the
-- given rounds are.
--
-- Parameters. Platform and `hasher` hold `std::hash`, Platform also what locking an element's mutex
-- returns, and what other threads do to the cache between the two calls that look a request up; the codes of the pthread calls, what `read`, `write`, `poll`, `accept`, `connect` and the
-- look-up of a host give, and the waits are arguments of the functions that make these calls.
--
-- Not modelled: in lab32v2 what other threads do between two calls of one thread, other than in a wait
-- or between the two calls that look a request up; data races, which lab32 has on its map of threads; how lab31/v2 fills the array for `poll`; the set-up
-- of listening sockets and start-up in the other two proxies, and all logging; and the exercises in C
-- beside the proxies. Line 120 of lab31/v2/server/ServerImpl.cpp prints a name that is declared nowhere;
-- the model leaves this print out.
mod Base
pub mod Lab31v2
pub mod Lab32
pub mod Lab32v2
