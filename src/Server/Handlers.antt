-- ===== src/Server/Handlers.antt =====
-- Src/HandlerImpl.cpp and Src/HandlerMock.cpp as the handlers that a server calls.
use roki_mb_daemon.Base.{
  ℕ, ◌≡◌, refl, Bool, true, false, if◌then◌else◌, List, Exception, ok, throw, ◌>>=◌,
}
use roki_mb_daemon.Streams.{Network}
use roki_mb_daemon.Handler.{
  Handler, Setup, Request, asks_status, asks_start, asks_reset, asks_disconnect, asks_flash,
  asks_connect, Reply, handle,
}
use roki_mb_daemon.Server.{Server, IHandler, Responce, object, null_empty, null_content}

-- `HandlerImpl`: each of its procedures returns an object.
abbrev pub handler_impl : {W : Type 0} → Setup W → IHandler (Handler W)
handler_impl setup = record {
  serve = λ r h. let (result, h') = handle setup r h in (result >>= λ reply. ok (object reply), h');
}

-- A request granted, and a request refused.
pub impl-grants :
    {W : Type 0} (setup : Setup W) (q : Request) (reply : Reply) (h h' : Handler W)
    → handle setup q h ≡ (ok reply, h')
    → (handler_impl setup).serve q h ≡ (ok (object reply), h')
impl-grants setup q reply h h' e = rw e refl

pub impl-refuses :
    {W : Type 0} (setup : Setup W) (q : Request) (x : Exception) (h h' : Handler W)
    → handle setup q h ≡ (throw x, h')
    → (handler_impl setup).serve q h ≡ (throw x, h')
impl-refuses setup q x h h' e = rw e refl

-- Which procedures reply with content: `ChipStatusResponce` and `PortPathResponce`.
unfoldable pub has_content : Request → Bool
has_content asks_status = true
has_content asks_start = false
has_content asks_reset = false
has_content asks_disconnect = false
has_content (asks_flash path) = false
has_content (asks_connect user) = true

-- `return {}`: a null pointer to the message that the procedure replies with.
unfoldable pub mock_reply : Bool → Responce
mock_reply content = if content then null_content else null_empty

-- `HandlerMock`.
abbrev pub handler_mock : IHandler (Unit {0})
handler_mock = record { serve = λ r h. (ok (mock_reply (has_content r)), h) }

-- The server of the daemon, with the chip's handler.
pub record ChipDaemon (W N : Type 0) : Type 0 where
  pub setup : Setup W
  pub open setup use {char_signed}
  pub net : Network N
  pub strerror : ℕ → List ℕ
  pub null_reply_passes : Bool

abbrev pub as_server : {W N : Type 0} → ChipDaemon W N → Server (Handler W) N
as_server daemon = record {
  interface = handler_impl daemon.setup;
  char_signed = daemon.char_signed;
  net = daemon.net;
  strerror = daemon.strerror;
  null_reply_passes = daemon.null_reply_passes;
}
