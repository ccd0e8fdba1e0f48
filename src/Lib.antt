-- ===== src/Lib.antt =====
-- A model of roki-mb-daemon: the daemon that starts, resets and flashes a motherboard's chip and lends
-- the chip's serial port to one client at a time, and the `mbctl` command that talks to it.
--
-- A client connects over TCP. Each connection has a thread of the server, which receives packages
-- (RPC), dispatches them by their procedure's id (Server) to the handler (HandlerImpl), and sends the
-- reply. The handler guards the port, and calls the firmware's state machine (FirmwareFSM), which runs
-- scripts (HwUtils).
--
-- Base: outcomes of C++ calls (a value, an exception, undefined behaviour, no return), text as bytes,
--   lists over the native numbers, Boolean tests.
-- HwUtils: Src/HwUtils.cpp. fork, dup2, execl and wait are the parameter `Os`; a script changes a
--   world of any type. `execute_child_routine` is what the child does, `execute` the parent. Find is
--   BootloaderFind and FillStringFromFd, with `pipe` and `read` as parameters, and Find/Descriptors the
--   ends of the pipe that are left open.
-- Firmware: Src/FirmwareFSM.cpp. `do_transition` is DoTransition, with the deferred SetState in
--   `leave`. Transitions compares the operations with a table of states, Boot is the constructor.
-- Memory, RpcDefs: Src/RPCDefs.cpp over raw memory, where an access out of bounds is a fault. The
--   sign of `char` is a parameter. Encoding has the bytes of each message, RoundTrip the way back.
-- Streams, Rpc: Src/RPC.cpp over a connection that delivers and accepts any number of bytes.
--   `Healthy` states what is documented of a connection that is not interrupted.
-- Sockets: Src/Socket.cpp, and the owners of descriptors in Inc/roki-mb-daemon/Helpers.hpp. The system
--   calls are the parameter `Kernel`; Descriptors counts what is open, by what is documented of them
--   (`Accounts`).
-- Handler: Src/HandlerImpl.cpp and ClearPort of Src/Helpers.cpp. Arbitration, Holder, Grants and
--   Refinement handle requests one at a time, Refinement as a lock; Threads interleaves them, a step
--   being what a thread does while it holds a mutex, or the end of its script.
-- Server: the dispatch and the connection's loop of Src/Server.cpp. Rounds follows one package through
--   all layers; Answers states what the client reads, Own and Unknown what packages do that the handler
--   does not get. `IHandler` is the interface to the handler; Handlers fills it with HandlerImpl and with
--   the mock of Src/HandlerMock.cpp, which Mock is about. Guards has the loop as it is written, with
--   `connOk` and the `Defer`s. Routine is HandlerRoutine from its socket to its end, cancelled or not;
--   Keeps is what a whole connection leaves as it is. Hello is HelloMessage, Ports is
--   CreateHandlerSocket, Dispatch a round of DispatchRoutine. Threads has the threads that accept,
--   handle, join and shut down as steps on a `Pool`, under `JoinablesMutex` and with both condition
--   variables: Joins and Shutdown are about their end, Races and Lost about what can go wrong. Signals
--   has the masks and handlers while `Run` starts.
-- Exchange: a call of a client together with the round of the server that serves it, over a `Link`, two
--   ends of a connection. Rounds is about one call, Clients about a client and the chip's handler,
--   Rivals about two clients with a thread each, Hello about the hello.
-- Client: `Call` and `SoftDisconnect` of the client over an open connection; Factory opens it.
-- DaemonTools: the launch handshake and the retry loop of Src/DaemonTools.cpp, with the outcomes of the
--   attempts as parameters; its loops run on fuel that is a parameter, since `ReadToBuf` does not end at
--   the end of the file. Session has GetParams, IsRunning and Connect with the sockets that they open.
--   Launch is LaunchAt, in the process that `fork` says, with Launch and RunHere.
-- Cli: Src/CLI.cpp. Grammar is about how the arguments are read; Output has the texts, Commands what is
--   done with a client, Program a whole run, from `argv` to what is printed; Runs and Start are about
--   what a command sends and prints, Descriptors and Balance about what it leaves open.
-- Examples: concrete inputs.
--
-- Bounds and fuel: integers are natural numbers with their wrap-around written out (but the ids of
-- Server/Threads do not wrap); a `char` is its bit pattern below 256, and sizes of packages are
-- bytes. The loops of RPC and of HelloMessage run on fuel equal to the number of bytes, since a
-- round moves a byte at least; the loop of Connect on one round more than ConnAttemptCount.
-- ClearPort, FillStringFromFd, CreateHandlerSocket and the connection's loop may run forever in the
-- code, so the number of their rounds is a parameter.
--
-- Not modelled: the shutdown of `Server::Run` as one call (DaemonTools/Launch has `Run` as a
-- parameter, Server/Threads its threads, where a cancelled handler finishes like any other and the
-- loop that cancels the handlers is left out, and Server/Signals its start); cancellation of a
-- thread while it logs; logging, and allocation failures. The GPIO stub has empty bodies, and
-- Src/CheckDefs.cpp only tests the build's definitions.
mod Base
pub mod HwUtils
pub mod Firmware
pub mod Memory
pub mod RpcDefs
pub mod Handler
pub mod Sockets
pub mod Streams
pub mod Rpc
pub mod Server
pub mod Client
pub mod Exchange
pub mod DaemonTools
pub mod Cli
mod Examples
