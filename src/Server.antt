-- ===== src/Server.antt =====
-- Src/Server.cpp: the dispatch of packages to the handler, and the loop of a connection's thread.
pub mod Handlers
pub mod Keeps
pub mod Rounds
pub mod Requests
pub mod Answers
pub mod Hello
pub mod Own
pub mod Mock
pub mod Ports
pub mod Unknown
pub mod Threads
pub mod Routine
pub mod Guards
pub mod Signals
pub mod Dispatch
use roki_mb_daemon.Base.{
  ℕ, zero, suc, ◌+◌, ◌%◌, Bool, true, false, not, ◌||◌, List, [], ◌∷◌, ◌==◌, if◌then◌else◌,
  Exception, runtime_error, Outcome, ok, throw, fault, hang, ◌>>=◌, Exec, then_do, str, what,
}
use roki_mb_daemon.Memory.{Memory}
use roki_mb_daemon.RpcDefs.ProcIds
use roki_mb_daemon.RpcDefs.{
  ByteString, UserData, ChipStatus, string_packed_size, user_packed_size, status_packed_size,
  serialize_string, serialize_status, deserialize_string, deserialize_user, to_str,
}
use roki_mb_daemon.Streams.{Network}
use roki_mb_daemon.Rpc.{Provider, MsgHeader, recv_package, pack_msg, pack_error, send_package}
use roki_mb_daemon.Handler.{
  Request, asks_status, asks_start, asks_reset, asks_disconnect, asks_flash, asks_connect, Reply,
  no_content, port_path, chip_status,
}

-- What a package asks for: a procedure of the handler, or one of the server's own.
pub data Order : Type 0 where
  handler_order : Request → Order
  shutdown_order ping_order block_order throw_order : Order

-- The state that a connection's thread works on. `DoShutdown` is set by the signal that `Shutdown`
-- sends to the main thread, which is taken to be delivered at once.
pub record Session (H N : Type 0) : Type 0 where
  pub handler : H
  pub provider : Provider N
  pub do_shutdown : Bool

-- The `GetPackedSize` and the `Serialize` of a reply.
unfoldable pub reply_size : Reply → ℕ
reply_size no_content = 0
reply_size (port_path s) = string_packed_size s
reply_size (chip_status c) = status_packed_size c

unfoldable pub serialize_reply : Bool → Reply → Memory → ℕ → Outcome Memory
serialize_reply signed no_content m p = ok m
serialize_reply signed (port_path s) m p = serialize_string signed s m p
serialize_reply signed (chip_status c) m p = serialize_status signed c m p

-- The `std::unique_ptr<IResponce<…>>` that a procedure returns: an object, or a null pointer to an
-- `Empty` or to a message with content.
pub data Responce : Type 0 where
  object : Reply → Responce
  null_empty null_content : Responce

-- `IHandler`: the procedures that a handler of the state `H` offers.
pub record IHandler (H : Type 0) : Type 0 where
  pub serve : Request → Exec H Responce

pub record Server (H N : Type 0) : Type 0 where
  pub interface : IHandler H
  pub char_signed : Bool
  pub net : Network N
  pub strerror : ℕ → List ℕ
  -- `PackMsg(…, *responce)` on a null pointer to an `Empty`: undefined, and passed over by a compiler
  -- for which `Empty` has no data to read.
  pub null_reply_passes : Bool

-- `Proc::Request::Deserialize(header.Data)` by the id; `none`: no case of the `switch` has it.
pub data Decoded : Type 0 where
  unknown : Decoded
  order : Outcome Order → Decoded

pub decode : Bool → ℕ → Memory → Decoded
decode signed id m =
    if id == ProcIds.get_status
    then order (ok (handler_order asks_status))
    else if id == ProcIds.flash
    then order (deserialize_string signed m 0 >>= λ s. ok (handler_order (asks_flash s)))
    else if id == ProcIds.start
    then order (ok (handler_order asks_start))
    else if id == ProcIds.reset
    then order (ok (handler_order asks_reset))
    else if id == ProcIds.connect
    then order (deserialize_user signed m 0 >>= λ u. ok (handler_order (asks_connect u)))
    else if id == ProcIds.disconnect
    then order (ok (handler_order asks_disconnect))
    else if id == ProcIds.shutdown
    then order (ok shutdown_order)
    else if id == ProcIds.ping
    then order (ok ping_order)
    else if id == ProcIds.debug_block
    then order (ok block_order)
    else if id == ProcIds.debug_throw
    then order (ok throw_order)
    else unknown

-- How a thread goes on after a round of its loop. `terminated`: an exception left the thread's
-- function, and the program ends.
pub data Next : Type 0 where
  again stop terminated faulted hung : Next

module _ {H N : Type 0} (server : Server H N) where
  open server use {char_signed, net, strerror}

  -- `HandlerImpl<Proc>(request)`.
  perform : Order → Session H N → Outcome Responce × Session H N
  perform (handler_order r) s =
      let (result, h) = server.interface.serve r s.handler in (result, record s { handler = h })
  perform shutdown_order s = (ok null_empty, record s { do_shutdown = true })
  perform ping_order s = (ok null_empty, s)
  perform block_order s = (ok null_empty, s)
  perform throw_order s = (throw (runtime_error (str "Debug exception")), s)

  pub on_provider : {A : Type 0} → Exec (Provider N) A → Session H N → Outcome A × Session H N
  on_provider call s = let (result, p) = call s.provider in (result, record s { provider = p })

  returning : {A : Type 0} → Outcome A → Session H N → Outcome A × Session H N
  returning r s = (r, s)

  -- `PackMsg(Proc::ID, *responce)`.
  pub pack_reply : ℕ → Responce → Session H N → Outcome (Unit {0}) × Session H N
  unfolding on_provider
  pack_reply id (object reply) s =
      on_provider (pack_msg id (reply_size reply) (serialize_reply char_signed reply)) s
  pack_reply id null_empty s =
      if server.null_reply_passes
      then on_provider (pack_msg id 0 (serialize_reply char_signed no_content)) s
      else (fault, s)
  pack_reply id null_content s = (fault, s)

  -- `GenericHandler`.
  generic_handler : ℕ → Outcome Order → Session H N → Outcome (Unit {0}) × Session H N
  unfolding perform pack_reply returning
  generic_handler id decoded = then_do (returning (to_str char_signed id)) λ _.
      then_do (returning decoded) λ request. then_do (perform request) λ reply. pack_reply id reply

  -- An id with no case leaves the buffer as it is.
  dispatch_decoded : ℕ → Decoded → Session H N → Outcome (Unit {0}) × Session H N
  unfolding generic_handler
  dispatch_decoded id unknown s = (ok tt, s)
  dispatch_decoded id (order request) s = generic_handler id request s

  unfoldable pub dispatch_package : MsgHeader → Session H N → Outcome (Unit {0}) × Session H N
  unfolding dispatch_decoded decode
  dispatch_package header s =
      dispatch_decoded header.proc_id (decode char_signed header.proc_id s.provider.buffer) s

  -- `catch (std::exception& e)` where the connection is sound: `PackError` and `SendPackage`. What
  -- they throw leaves the thread's function.
  after_report : Outcome (Unit {0}) × Session H N → Next × Session H N
  after_report (ok u, s) = (again, s)
  after_report (throw e, s) = (terminated, s)
  after_report (fault, s) = (faulted, s)
  after_report (hang, s) = (hung, s)

  report : Exception → Session H N → Next × Session H N
  unfolding after_report on_provider
  report e s =
      after_report (
        on_provider (then_do (pack_error net (what strerror e)) λ _. send_package net char_signed)
          s)

  -- `SendPackage` in the loop: where it throws, the connection is given up.
  after_send : Outcome (Unit {0}) × Session H N → Next × Session H N
  after_send (ok u, s) = (again, s)
  after_send (throw e, s) = (stop, s)
  after_send (fault, s) = (faulted, s)
  after_send (hang, s) = (hung, s)

  pub after_dispatch : Outcome (Unit {0}) × Session H N → Next × Session H N
  unfolding after_send report on_provider
  after_dispatch (ok u, s) = after_send (on_provider (send_package net char_signed) s)
  after_dispatch (throw e, s) = report e s
  after_dispatch (fault, s) = (faulted, s)
  after_dispatch (hang, s) = (hung, s)

  -- A package with the error code is the client's farewell.
  after_receive : Outcome MsgHeader × Session H N → Next × Session H N
  unfolding after_dispatch dispatch_package
  after_receive (ok header, s) =
      if header.is_ok then after_dispatch (dispatch_package header s) else (stop, s)
  after_receive (throw e, s) = (stop, s)
  after_receive (fault, s) = (faulted, s)
  after_receive (hang, s) = (hung, s)

  -- One round of the loop of `HandlerRoutine`.
  unfoldable pub serve_round : Session H N → Next × Session H N
  unfolding after_receive on_provider
  serve_round s = after_receive (on_provider (recv_package net) s)

  -- The loop, for at most `fuel` rounds: `again` means that the connection is still served.
  unfoldable pub serve_loop : ℕ → Session H N → Next × Session H N
  unfolding serve_round
  serve_loop zero s = (again, s)
  serve_loop (suc fuel) s =
      let (next, t) = serve_round s in
      let rest = serve_loop fuel t in
      if s.do_shutdown then (stop, s) else elim next [
        | again ↦ rest
        | stop ↦ (stop, t)
        | terminated ↦ (terminated, t)
        | faulted ↦ (faulted, t)
        | hung ↦ (hung, t)
      ]
