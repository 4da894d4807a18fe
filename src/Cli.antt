-- ===== src/Cli.antt =====
-- zephyr/modules/rtbus/services/rtbus_cli.c: the line editor of the command line, and the dispatch of a
-- line to its command.
-- A line is its first `rtbus_cli_line_len` characters. The handlers are a parameter: what they do to
-- the command line and to the rest of the system, `W`. The queue of submitted bytes and the work item
-- that posts the event are not modelled: `process_bytes` is the loop on what was taken from the queue.
pub mod Lines
mod Tests
use rtbus.Base.{
  ℕ, zero, suc, ◌+◌, ◌-◌, Bool, true, false, not, ◌&&◌, ◌||◌, List, [], ◌∷◌, ◌++◌, ltb, leb, ◌==◌,
  if◌then◌else◌, length, take, drop,
}
use rtbus.Base.Rc.{Rc, ok, err}
use rtbus.Serial.{cli_line_max, is_newline}

pub record Cli : Type 0 where
  pub line : List ℕ
  pub input_enabled : Bool

-- A registered command; one without a handler or a name is never run.
pub record Command (W : Type 0) : Type 0 where
  pub name : List ℕ
  pub has_name : Bool
  pub has_handler : Bool
  pub handler : (args : List ℕ) → Cli × W → Cli × W

-- RTBUS_CLI_HEADER, "@RTBUS:"
abbrev pub cli_header : List ℕ
cli_header = 64 ∷ 82 ∷ 84 ∷ 66 ∷ 85 ∷ 83 ∷ 58 ∷ []

-- A C string: the characters before the first zero.
unfoldable pub c_string : List ℕ → List ℕ
c_string [] = []
c_string (c ∷ text) = if c == 0 then [] else c ∷ c_string text

-- `strcmp` and `strncmp` against zero.
unfoldable pub same_text : List ℕ → List ℕ → Bool
same_text [] [] = true
same_text [] (d ∷ right) = false
same_text (c ∷ left) [] = false
same_text (c ∷ left) (d ∷ right) = (c == d) && same_text left right

-- The name before the first `=`, and the arguments behind it.
unfoldable pub before_separator : List ℕ → List ℕ
before_separator [] = []
before_separator (c ∷ text) = if c == 61 then [] else c ∷ before_separator text

unfoldable pub after_separator : List ℕ → List ℕ
after_separator [] = []
after_separator (c ∷ text) = if c == 61 then text else after_separator text

abbrev pub clear_line : {W : Type 0} → Cli × W → Cli × W
clear_line s = (record s.0 { line = [] }, s.1)

module _ {W : Type 0} where
  -- The loop over the commands: the first one with the name is run.
  unfoldable pub run_command : List (Command W) → (command_name args : List ℕ) → Cli × W → Cli × W
  run_command [] command_name args s = s
  run_command (command ∷ commands) command_name args s =
      let rest = run_command commands command_name args s in
      if command.has_name && command.has_handler && same_text command_name command.name
      then command.handler args s
      else rest

  module _ (commands : List (Command W)) where
    unfoldable pub dispatch_line : Cli × W → Cli × W
    dispatch_line s =
        let line = c_string s.0.line in
        let text = drop 7 line in
        if length s.0.line == 0
        then s
        else if not (same_text (take 7 line) cli_header)
        then clear_line s
        else clear_line (run_command commands (before_separator text) (after_separator text) s)

    unfoldable pub process_byte : Cli × W → (byte : ℕ) → Cli × W
    process_byte s byte =
        if is_newline byte
        then dispatch_line s
        else if leb (cli_line_max - 1) (length s.0.line)
        then clear_line s
        else (record s.0 { line = s.0.line ++ byte ∷ [] }, s.1)

    -- The loop of `rtbus_cli_process_input` over the bytes that it takes from the queue.
    unfoldable pub process_bytes : Cli × W → List ℕ → Cli × W
    process_bytes s [] = s
    process_bytes s (byte ∷ bytes) = process_bytes (process_byte s byte) bytes
