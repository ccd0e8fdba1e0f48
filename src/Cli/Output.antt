-- ===== src/Cli/Output.antt =====
-- Src/CLI.cpp: the texts that `mbctl` prints. Text is a list of bytes.
use roki_mb_daemon.Base.{
  ℕ, ◌+◌, String, List, [], ◌∷◌, ◌++◌, Option, none, some, ◌==◌, if◌then◌else◌, str, to_string,
}
use roki_mb_daemon.Cli.{SyntaxError, unexpected_end, unknown_token}
use roki_mb_daemon.DaemonTools.Session.{Params}

-- `std::endl`.
abbrev pub endl : List ℕ
endl = str "\n"

-- `TermTools`.
unfoldable pub make_red : List ℕ
make_red = 27 ∷ str "[91m"

unfoldable pub make_default : List ℕ
make_default = 27 ∷ str "[39m"

abbrev pub tab : List ℕ
tab = str " - "

unfoldable pub make_error_message : List ℕ → List ℕ
make_error_message msg = str "Error: " ++ (msg ++ endl)

pub syntax_text : SyntaxError → List ℕ
syntax_text unexpected_end = str "Unexpected end of command"
syntax_text unknown_token = str "Unknown token"

-- The loop over the tokens from number `i` on; the token with the index of the error is marked.
unfoldable pub marked_tokens : Option ℕ → ℕ → List String → List ℕ
unfolding make_red make_default
marked_tokens index i [] = []
marked_tokens none i (t ∷ ts) = str t ++ (str " " ++ marked_tokens none (i + 1) ts)
marked_tokens (some index) i (t ∷ ts) =
    let rest = marked_tokens (some index) (i + 1) ts in
    if i == index
    then make_red ++ (str "=> " ++ (str t ++ (str " <=" ++ (make_default ++ (str " " ++ rest)))))
    else str t ++ (str " " ++ rest)

unfoldable pub put_daemon_params : Params → List ℕ
put_daemon_params p =
    (str "Daemon parameters: " ++ endl)
    ++ ((tab ++ (str "Port:    " ++ (to_string p.port ++ endl)))
        ++ ((tab ++ (str "Backlog: " ++ (to_string p.backlog ++ endl)))
            ++ (tab ++ (str "Logs at: " ++ (p.log_path ++ endl)))))

-- `cli` is `CLI_EXECUTABLE`, which the build gives.
module _ (cli : List ℕ) where
  unfoldable pub print_usage : List ℕ
  print_usage = str "Usage: " ++ (cli ++ (str " <COMMAND> <ARGS>" ++ endl))

  unfoldable pub make_syntax_error_message : List String → Option ℕ → SyntaxError → List ℕ
  unfolding syntax_text marked_tokens print_usage
  make_syntax_error_message tokens index e =
      str "Syntax error: "
      ++ (syntax_text e
          ++ (endl
              ++ (str "Reason: "
                  ++ (marked_tokens index 0 tokens
                      ++ (endl
                          ++ (print_usage
                              ++ (str "See \"" ++ (cli ++ (str " help\"" ++ endl)))))))))

  -- The loop of `PutDescription` and the last token; an empty list stops at its `assert`.
  words : List ℕ → List (List ℕ) → List ℕ
  words t [] = t
  words t (u ∷ us) = t ++ (str " " ++ words u us)

  unfoldable pub put_description : List ℕ → List (List ℕ) → List ℕ → List ℕ → List ℕ
  unfolding words
  put_description t ts description prefix =
      (tab ++ (str "\"" ++ (prefix ++ (cli ++ str " "))))
      ++ (words t ts ++ (str "\": " ++ (description ++ endl)))

  help_daemon : List ℕ
  unfolding put_description
  help_daemon =
      put_description (str "daemon") (str "start" ∷ []) (str "Starts daemon") (str "sudo -E ")
      ++ (put_description (str "daemon") (str "stop" ∷ []) (str "Stops daemon") []
          ++ (put_description (str "daemon") (str "status" ∷ [])
                (str "Prints status info on daemon") []
              ++ (put_description (str "daemon") (str "logs" ∷ []) (str "Prints daemon logs") []
                  ++ put_description (str "daemon") (str "kill" ∷ [])
                      (str "Forcefully kills daemon") [])))

  help_chip : List ℕ
  unfolding put_description
  help_chip =
      put_description (str "chip") (str "start" ∷ []) (str "Starts firmware") []
      ++ (put_description (str "chip") (str "stop" ∷ []) (str "Stops firmware") []
          ++ (put_description (str "chip") (str "flash" ∷ str "<PATH>" ∷ [])
                (str "Flashes selected firmware") []
              ++ put_description (str "chip") (str "status" ∷ [])
                  (str "Prints status info on firmware") []))

  help_debug : List ℕ
  unfolding put_description
  help_debug =
      put_description (str "debug") (str "start" ∷ []) (str "Launches daemon in this session") []
      ++ (put_description (str "debug") (str "block" ∷ [])
            (str "Performs blocking request on daemon") []
          ++ (put_description (str "debug") (str "throw" ∷ [])
                (str "Performs throwing request on daemon") []
              ++ (put_description (str "debug") (str "connect" ∷ [])
                    (str "Marks motherboard port acquired") []
                  ++ put_description (str "debug") (str "disconnect" ∷ [])
                      (str "Frees motherboard port") [])))

  unfoldable pub do_help : List ℕ
  unfolding help_daemon help_chip help_debug print_usage put_description
  do_help =
      (str "\nmbctl : Motherboard Firmware Manager CLI" ++ endl)
      ++ ((str "Author: Lekhterev V.V. @tndrd, Starkit 2024\n" ++ endl)
          ++ ((print_usage ++ (endl ++ (str "List of available commands: " ++ endl)))
              ++ ((help_daemon ++ endl)
                  ++ ((help_chip ++ endl)
                      ++ ((put_description (str "help") [] (str "Prints this text") [] ++ endl)
                          ++ ((str "List of debug commands: " ++ endl) ++ (help_debug ++ endl)))))))
