-- ===== src/Cli.antt =====
-- Src/CLI.cpp and Inc/roki-mb-daemon/CLI.hpp: how `mbctl` reads its command line. What a command then
-- does is printing and calls of the client, and is not modelled here.
pub mod Grammar
pub mod Output
pub mod Commands
pub mod Program
pub mod Runs
pub mod Start
pub mod Descriptors
use text.Mathlib.Text.{◌==◌ as str_eq}
use roki_mb_daemon.Base.{
  ℕ, ◌+◌, String, Bool, List, [], ◌∷◌, Option, none, some, ◌==◌, if◌then◌else◌, get_elem?, length,
}

pub data Command : Type 0 where
  chip_start chip_stop chip_status : Command
  chip_flash : String → Command
  daemon_start daemon_stop daemon_status daemon_kill daemon_logs : Command
  debug_start debug_throw debug_block debug_connect debug_disconnect : Command
  help : Command

pub data SyntaxError : Type 0 where
  unexpected_end unknown_token : SyntaxError

-- A value, or a `SyntaxException` with the index of its token; `none` is a `PrevToken` that no call
-- has set.
pub data Parsed (A : Type 0) : Type 0 where
  parsed : A → Parsed A
  syntax_exception : Option ℕ → SyntaxError → Parsed A

pub record DaemonCli : Type 0 where
  pub tokens : List String
  pub current_token : ℕ
  pub prev_token : Option ℕ

unfoldable pub make_cli : List String → DaemonCli
make_cli tokens = record { tokens = tokens; current_token = 0; prev_token = none }

-- A call that moves the position.
abbrev pub Reader : Type 0 → Type 0
Reader A = DaemonCli → Parsed A × DaemonCli

abbrev continue : {A B : Type 0} → Parsed A → (A → Reader B) → Reader B
continue (parsed a) f c = f a c
continue (syntax_exception i e) f c = (syntax_exception i e, c)

infixl 10 ◌>>=◌
abbrev ◌>>=◌ : {A B : Type 0} → Reader A → (A → Reader B) → Reader B
◌>>=◌ m f c = let (r, d) = m c in continue r f d

infixl 10 ◌>>◌
abbrev ◌>>◌ : {A B : Type 0} → Reader A → Reader B → Reader B
m >> k = m >>= λ _. k

take_token : Option String → Reader String
take_token none c = (syntax_exception c.prev_token unexpected_end, c)
take_token (some token) c = (
  parsed token,
  record c { prev_token = some c.current_token; current_token = c.current_token + 1 },
)

-- `CurrentToken` never passes `Tokens.size()`, so the test for equality is a lookup.
unfoldable pub get_next_token : Reader String
unfolding take_token
get_next_token c = take_token (get_elem? c.tokens c.current_token) c

unknown : Reader Command
unknown c = (syntax_exception c.prev_token unknown_token, c)

found : Command → Reader Command
found command c = (parsed command, c)

chip_command : String → Reader Command
unfolding unknown found get_next_token
chip_command cmd =
    if str_eq cmd "start"
    then found chip_start
    else if str_eq cmd "stop"
    then found chip_stop
    else if str_eq cmd "flash"
    then (do path ← get_next_token; found (chip_flash path))
    else if str_eq cmd "status"
    then found chip_status
    else unknown

daemon_command : String → Reader Command
unfolding unknown found
daemon_command cmd =
    if str_eq cmd "start"
    then found daemon_start
    else if str_eq cmd "stop"
    then found daemon_stop
    else if str_eq cmd "status"
    then found daemon_status
    else if str_eq cmd "kill"
    then found daemon_kill
    else if str_eq cmd "logs"
    then found daemon_logs
    else unknown

debug_command : String → Reader Command
unfolding unknown found
debug_command cmd =
    if str_eq cmd "start"
    then found debug_start
    else if str_eq cmd "throw"
    then found debug_throw
    else if str_eq cmd "block"
    then found debug_block
    else if str_eq cmd "connect"
    then found debug_connect
    else if str_eq cmd "disconnect"
    then found debug_disconnect
    else unknown

first_command : String → Reader Command
unfolding chip_command daemon_command debug_command
first_command cmd =
    if str_eq cmd "chip"
    then get_next_token >>= chip_command
    else if str_eq cmd "daemon"
    then get_next_token >>= daemon_command
    else if str_eq cmd "debug"
    then get_next_token >>= debug_command
    else if str_eq cmd "help"
    then found help
    else unknown

-- `Run`: the first token is the name of the executable.
unfoldable pub run : Reader Command
unfolding first_command
run = do get_next_token; cmd ← get_next_token; first_command cmd

-- `Execute`: an empty call prints the help.
unfoldable pub execute : List String → Parsed Command
unfolding run make_cli
execute tokens = if length tokens == 1 then parsed help else (run (make_cli tokens)).0
