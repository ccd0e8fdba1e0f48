-- ===== src/Examples/CommandLine.antt =====
-- Concrete command lines.
use roki_mb_daemon.Base.{◌≡◌, [], ◌∷◌}
use roki_mb_daemon.Cli.{chip_flash, parsed, execute}
use roki_mb_daemon.Cli.Grammar.{execute-words}

execute-words_example :
    execute ("mbctl" ∷ "chip" ∷ "flash" ∷ "fw.hex" ∷ "now" ∷ []) ≡ parsed (chip_flash "fw.hex")
execute-words_example = execute-words "mbctl" (chip_flash "fw.hex") ("now" ∷ [])
