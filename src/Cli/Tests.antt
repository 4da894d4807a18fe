-- ===== src/Cli/Tests.antt =====
-- Instances of the theorem about the command line, with a command that keeps its arguments.
use rtbus.Base.{ℕ, refl, true, List, [], ◌∷◌, ◌++◌, arith}
use Prim.{tt}
use rtbus.Cli.{Cli, Command, cli_header, process_bytes}
use rtbus.Cli.Lines.{Ran, process_bytes-Ran}

-- "DFU" and "APP"
abbrev dfu : List ℕ
dfu = 68 ∷ 70 ∷ 85 ∷ []

abbrev app : List ℕ
app = 65 ∷ 80 ∷ 80 ∷ []

abbrev keep : Command (List ℕ)
keep = record { name = dfu; has_name = true; has_handler = true; handler = λ args s. (s.0, args) }

abbrev idle : Cli
idle = record { line = []; input_enabled = true }

process_bytes-Ran_example :
    Ran dfu app
      (record idle { line = cli_header ++ (dfu ++ (61 ∷ app)) }, [])
      (keep ∷ [])
      (process_bytes (keep ∷ []) (idle, []) ((cli_header ++ (dfu ++ (61 ∷ app))) ++ 10 ∷ []))
process_bytes-Ran_example =
    process_bytes-Ran (keep ∷ []) idle [] dfu app 10
      (
        (refl, refl),
        (
          (refl, refl),
          ((refl, refl), ((refl, refl), ((refl, refl), ((refl, refl), ((refl, refl), tt))))),
        ),
      )
      (refl, (refl, (refl, tt))) refl (ground arith)
