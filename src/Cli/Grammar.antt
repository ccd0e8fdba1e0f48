-- ===== src/Cli/Grammar.antt =====
-- Src/CLI.cpp: the commands and the words that name them.
use text.Mathlib.Text.{◌==◌ as str_eq}
use text.Mathlib.TextEquality.{eq_iff}
use roki_mb_daemon.Base.{
  ◌+◌, ◌<◌, ◌≡◌, refl, sym, subst, inl, inr, Bool-cases, String, true, false, List, [], ◌∷◌, ◌++◌,
  none, some, arith, length, drop, ◌==◌, get_elem?,
}
use roki_mb_daemon.Cli.{
  Command, chip_start, chip_stop, chip_status, chip_flash, daemon_start, daemon_stop, daemon_status,
  daemon_kill, daemon_logs, debug_start, debug_throw, debug_block, debug_connect, debug_disconnect,
  help, Parsed, parsed, syntax_exception, unexpected_end, unknown_token, DaemonCli, execute,
  chip_command, daemon_command, debug_command,
}

-- The words of each command, as the help text lists them.
abbrev pub words : Command → List String
words chip_start = "chip" ∷ "start" ∷ []
words chip_stop = "chip" ∷ "stop" ∷ []
words chip_status = "chip" ∷ "status" ∷ []
words (chip_flash path) = "chip" ∷ "flash" ∷ path ∷ []
words daemon_start = "daemon" ∷ "start" ∷ []
words daemon_stop = "daemon" ∷ "stop" ∷ []
words daemon_status = "daemon" ∷ "status" ∷ []
words daemon_kill = "daemon" ∷ "kill" ∷ []
words daemon_logs = "daemon" ∷ "logs" ∷ []
words debug_start = "debug" ∷ "start" ∷ []
words debug_throw = "debug" ∷ "throw" ∷ []
words debug_block = "debug" ∷ "block" ∷ []
words debug_connect = "debug" ∷ "connect" ∷ []
words debug_disconnect = "debug" ∷ "disconnect" ∷ []
words help = "help" ∷ []

-- Every command is read back from its words, whatever stands behind them.
pub execute-words :
    (exe : String) (c : Command) (extra : List String)
    → execute (exe ∷ (words c ++ extra)) ≡ parsed c
unfolding execute
execute-words exe chip_start extra = ground arith
execute-words exe (chip_flash path) extra = ground arith
execute-words exe _ extra = ground arith

abbrev pub PointsInto : List String → Parsed Command → Type 0
PointsInto tokens (parsed c) = Unit {0}
PointsInto tokens (syntax_exception none e) = tokens ≡ []
PointsInto tokens (syntax_exception (some i) unexpected_end) = i + 1 ≡ length tokens
PointsInto tokens (syntax_exception (some i) unknown_token) = i < length tokens

-- Every syntax error points at one of the tokens, and an unexpected end at the last one; only without
-- any token is there none to point at.
pub execute-PointsInto : (tokens : List String) → PointsInto tokens (execute tokens)
unfolding execute
execute-PointsInto [] = refl
execute-PointsInto (exe ∷ []) = tt
execute-PointsInto (exe ∷ cmd ∷ []) = ground arith
execute-PointsInto (exe ∷ cmd ∷ sub ∷ []) = ground arith
execute-PointsInto (exe ∷ cmd ∷ sub ∷ path ∷ rest) = ground arith

-- What is read as a command, with what stands behind it.
abbrev pub Reads : List String → Parsed Command → Type 0
Reads ws (parsed c) = ws ≡ words c ++ drop (length (words c)) ws
Reads ws (syntax_exception i e) = Unit {0}

daemon-Reads :
    (sub : String) (rest : List String) (cli : DaemonCli)
    → Reads ("daemon" ∷ sub ∷ rest) (daemon_command sub cli).0
unfolding daemon_command
daemon-Reads sub rest cli = ground (
  arith,
  eq_iff sub "start",
  eq_iff sub "stop",
  eq_iff sub "status",
  eq_iff sub "kill",
  eq_iff sub "logs",
)

debug-Reads :
    (sub : String) (rest : List String) (cli : DaemonCli)
    → Reads ("debug" ∷ sub ∷ rest) (debug_command sub cli).0
unfolding debug_command
debug-Reads sub rest cli = ground (
  arith,
  eq_iff sub "start",
  eq_iff sub "throw",
  eq_iff sub "block",
  eq_iff sub "connect",
  eq_iff sub "disconnect",
)

chip-Reads :
    (sub : String) (rest : List String) (cli : DaemonCli)
    → get_elem? cli.tokens cli.current_token ≡ get_elem? rest 0
    → Reads ("chip" ∷ sub ∷ rest) (chip_command sub cli).0
unfolding chip_command
chip-Reads sub [] cli e =
    ground (arith, eq_iff sub "start", eq_iff sub "stop", eq_iff sub "flash", eq_iff sub "status")
chip-Reads sub (path ∷ rest) cli e =
    ground (arith, eq_iff sub "start", eq_iff sub "stop", eq_iff sub "flash", eq_iff sub "status")

not_alone : (exe cmd : String) (ws : List String) → (length (exe ∷ cmd ∷ ws) == 1) ≡ false
not_alone exe cmd ws = ground arith

-- A command word in front of what the reader of its subcommands gives.
module _ (cmd : String) (ws : List String) (r : Parsed Command) where
  spelled : (word : String) → str_eq cmd word ≡ true → Reads (word ∷ ws) r → Reads (cmd ∷ ws) r
  spelled word e = subst (λ w. Reads (w ∷ ws) r) (sym ((eq_iff cmd word).0 e))

-- Whatever is read as a command consists of its words, with more words behind them.
pub execute-Reads :
    (exe cmd : String) (ws : List String) → Reads (cmd ∷ ws) (execute (exe ∷ cmd ∷ ws))
unfolding execute
execute-Reads exe cmd [] =
    ground (arith, eq_iff cmd "chip", eq_iff cmd "daemon", eq_iff cmd "debug", eq_iff cmd "help")
execute-Reads exe cmd (sub ∷ rest) =
    rw (not_alone exe cmd (sub ∷ rest)) (elim (Bool-cases (str_eq cmd "chip")) [
      | inl e ↦ rw e (spelled cmd (sub ∷ rest) _ "chip" e (chip-Reads sub rest _ refl))
      | inr n1 ↦ elim (Bool-cases (str_eq cmd "daemon")) [
        | inl e ↦ rw (n1, e) (spelled cmd (sub ∷ rest) _ "daemon" e (daemon-Reads sub rest _))
        | inr n2 ↦ elim (Bool-cases (str_eq cmd "debug")) [
          | inl e ↦ rw (n1, n2, e) (spelled cmd (sub ∷ rest) _ "debug" e (debug-Reads sub rest _))
          | inr n3 ↦ elim (Bool-cases (str_eq cmd "help")) [
            | inl e ↦ rw (n1, n2, n3, e) (spelled cmd (sub ∷ rest) (parsed help) "help" e refl)
            | inr n4 ↦ rw (n1, n2, n3, n4) tt
          ]
        ]
      ]
    ])
