-- ===== src/Lib.antt =====
-- EasyEvent, a network library driven by events: the bytes that a connection has received or has
-- still to send (base/Buffer.h), the descriptors that a loop waits for (net/Channel.h,
-- net/Channel.cpp), the loop's use of poll(2) (net/Poller.h, net/Poller.cpp), the loop and its
-- queue of functors (net/EventLoop.h, net/EventLoop.cpp), threads that run a loop (base/Thread.h,
-- base/Thread.cpp, net/EventLoopThread.h, net/EventLoopThread.cpp), the pool of loops
-- (net/EventLoopThreadPool.h, net/EventLoopThreadPool.cpp), addresses and sockets
-- (base/CapsuledAddr.h, base/CapsuledAddr.cpp, base/Socket.h, base/Socket.cpp,
-- base/FileDescriptor.h), the acceptor of connections (net/Acceptor.h, net/Acceptor.cpp), the
-- connections (net/TcpConnection.h, net/TcpConnection.cpp), the server that makes them
-- (net/TcpServer.h, net/TcpServer.cpp), and the server of datagrams (net/UdpHandler.h,
-- net/UdpHandler.cpp, net/UdpServer.h, net/UdpServer.cpp).
--
-- A loop polls, calls the channels that are ready, and runs what other threads have queued. A
-- channel stands for one descriptor: its user changes the events it waits for, the channel passes
-- that on to its loop, the loop to its poller. A connection owns a channel and two buffers.
--
-- Which file models which part:
--
-- - Base: the results of code that can stop (Fault), `size_t` with its wrap-around (Word), signed
--   integers (Int) and the lemmas on lists (Lists).
-- - Buffer: base/Buffer.h. The members are the fields of `Buffer`, and each method is the function
--   of its name. Bytes are numbers, the positions of pointers are indices. Contents says what a
--   buffer stands for and when it is well-formed, Window and Write hold the lemmas on the ring,
--   Read is about `retrieve` and `retrieveAsString`, Room, Grow and Size about `append` and
--   `makeSpace`, Wrap and Stale about the cases in which the code does not keep the content,
--   Transfer about `readFd` and `writeFd`, Fifo about runs of operations against a queue.
-- - Channel: net/Channel.h and net/Channel.cpp. A set of poll(2) flags is a record of bits, and
--   `handleEvent` works on any state that holds the channel. Dispatch and Frame are about
--   `handleEvent`.
-- - Poller: net/Poller.h and net/Poller.cpp, with `updateChannel` and `removeChannel` of
--   net/EventLoop.cpp and the requests of net/Channel.h that reach them. A pointer to a channel is
--   a number and the heap a function. Wiring is the invariant; Add, Renew, Request, Join, Swap,
--   Remove are about the requests, Frame and Uses about what they leave alone of other channels and
--   whether they leave the poller wired, Report and Poll about `poll`, Asked about the array after
--   any sequence of these uses.
-- - EventLoop: net/EventLoop.h and net/EventLoop.cpp, the functors that are queued and run, the
--   eventfd that wakes the loop, and the cycle of `startLoop`. Queue is about `queueInLoop`, Rounds
--   about `doPendingFunctors`, Cycle about `startLoop` and `quitLoop`. Threads holds the steps of
--   the loop's thread, from the constructor on, and of others, and Wake is about their
--   interleavings.
-- - Thread: base/Thread.h and base/Thread.cpp, what the object knows of its std::thread.
-- - EventLoopThread: net/EventLoopThread.h and net/EventLoopThread.cpp, the owner of the object,
--   who calls `startLoop` and the destructor, and the new thread as a step relation, in Handshake.
-- - EventLoopThreadPool: net/EventLoopThreadPool.h and net/EventLoopThreadPool.cpp, the loops among
--   which connections are dealt out. Turns is about the order in which they are.
-- - CapsuledAddr: base/CapsuledAddr.h and base/CapsuledAddr.cpp, over what the C library offers for
--   addresses. Text is about `toString`.
-- - Socket: base/Socket.h, base/Socket.cpp and base/FileDescriptor.h, the wrappers of system calls
--   whose answer the code looks at.
-- - Acceptor: net/Acceptor.h and net/Acceptor.cpp, over Socket and Poller. Listen is about
--   `listen`.
-- - TcpConnection: net/TcpConnection.h and net/TcpConnection.cpp, over Buffer, Poller and
--   EventLoop. The callbacks are arguments; `wire` and `write_shut` are the socket's side, the
--   bytes that write(2) took and whether shutdown(2) was called. Sound is the invariant, Establish
--   about the start of a connection, Rest and Stream about `sendInLoop`, Incoming about
--   `handleRead`, Drain and Liveness about `handleWrite`, Close about `handleClose` and
--   `connectDestroyed`, Remote about `send` and `shutdown` in another thread. Loop puts the
--   connection's channel into the cycle of EventLoop, with `poll` of Poller and `handleEvent` of
--   Channel, in which Turn is about a turn that sends, HangUp about one that ends the connection
--   (Alone and Gone hold their parts). A connection has its server among its fields, for the close
--   callback that TcpServer gives it. Confined says what an operation leaves alone of the poller,
--   the loop and the server that a connection shares with others, for any relation between servers
--   that the removal of the connection is in, Beside is about another connection in such a turn,
--   and Others about any sequence of what other connections and the server do, by steps, in which
--   every connection has its own part of the queue of the loop that they share. Server holds
--   `newConnection` of net/TcpServer.cpp with the connection object and the callbacks that it gets,
--   on the loop that the pool gives, and Life is about a connection from there to
--   `connectDestroyed`.
-- - TcpServer: net/TcpServer.h and net/TcpServer.cpp, over EventLoopThreadPool and Acceptor. Start
--   holds `start` in any thread, with the acceptor and the loop. Threads is about the loops that
--   new connections get, Names about the map of connections and their names, Listed about the entry
--   that a connection has there. `_nextConnId` is an `int`: past the largest one `++` is undefined
--   behaviour, and no connection is made.
-- - UdpHandler: net/UdpHandler.h and net/UdpHandler.cpp, the array that recvfrom(2) fills. Receive
--   is about `handleReceiveMessage`.
-- - UdpServer: net/UdpServer.h and net/UdpServer.cpp, over UdpHandler and EventLoopThreadPool.
--   Deliver is about `newConnection`.
--
-- A failed assertion, an abort, an uncaught exception and undefined behaviour are results
-- (`Fault`): the build is a debug build (CMakeLists.txt). `makeSpace` and `append` call each other,
-- so `append` is given a depth, two: `makeSpace` appends to a vector that has just grown and is
-- empty, so that inner call does not call `makeSpace` again.
--
-- `startLoop` need not return: the model is given a number of turns as fuel, and Cycle shows for
-- which numbers it gives a result, and that more changes nothing.
--
-- System calls (read, write, poll, the calls on sockets and on the eventfd) and the functions of
-- the C library on addresses are arguments. Printing is left out. What is not modelled: memory and
-- locks as such (a step that the code takes under a lock is one step); socket options; the call of
-- UdpServer's start from threads other than the loop's; net/TcpConnection's `setTcpNoDelay`; and
-- base/Timestamp.h with base/Timestamp.cc, which are a copy of a class of another library.
pub mod Base
pub mod Buffer
pub mod Channel
pub mod Poller
pub mod EventLoop
pub mod Thread
pub mod EventLoopThread
pub mod EventLoopThreadPool
pub mod CapsuledAddr
pub mod Socket
pub mod Acceptor
pub mod TcpConnection
pub mod TcpServer
pub mod UdpHandler
pub mod UdpServer
