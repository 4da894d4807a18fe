-- ===== src/Cli/Lines.antt =====
-- What the command line does with a whole line.
use Prim.{tt}
use mathlib.Core.Path.{subst}
use mathlib.Core.List.{append-nil, append_assoc}
use rtbus.Base.{
  ℕ, ◌+◌, ◌≤◌, ◌<◌, ◌≡◌, refl, sym, ap, inl, inr, Bool-cases, ◌&&◌, ==_iff, true, false, not, List,
  [], ◌∷◌, ◌++◌, arith, leb, ◌==◌, ==_self, if◌then◌else◌, length, take, drop, All, length-append,
  ◌∙◌,
}
use rtbus.Serial.{is_newline}
use rtbus.Cli.{
  Cli, Command, cli_header, c_string, same_text, before_separator, after_separator, clear_line,
  run_command, dispatch_line, process_byte, process_bytes,
}

-- A character of a line: neither the end of a line nor of a string.
abbrev pub IsText : List ℕ → Type 0
IsText = All (λ c. (is_newline c ≡ false) × ((c == 0) ≡ false))

abbrev pub HasNoSeparator : List ℕ → Type 0
HasNoSeparator = All (λ c. (c == 61) ≡ false)

c_string-IsText : (text : List ℕ) → IsText text → c_string text ≡ text
unfolding c_string
c_string-IsText [] h = refl
c_string-IsText (c ∷ text) h = rw (h.0.1, c_string-IsText text h.1)

same_text_self : (text : List ℕ) → same_text text text ≡ true
unfolding same_text
same_text_self [] = refl
same_text_self (c ∷ text) = rw (==_self c, same_text_self text)

before_separator-HasNoSeparator :
    (name args : List ℕ) → HasNoSeparator name → before_separator (name ++ (61 ∷ args)) ≡ name
unfolding before_separator
before_separator-HasNoSeparator [] args h = refl
before_separator-HasNoSeparator (c ∷ name) args h =
    rw (h.0, before_separator-HasNoSeparator name args h.1)

after_separator-HasNoSeparator :
    (name args : List ℕ) → HasNoSeparator name → after_separator (name ++ (61 ∷ args)) ≡ args
unfolding after_separator
after_separator-HasNoSeparator [] args h = refl
after_separator-HasNoSeparator (c ∷ name) args h =
    rw (h.0, after_separator-HasNoSeparator name args h.1)

same_text_eq : (left right : List ℕ) → same_text left right ≡ true → left ≡ right
unfolding same_text
same_text_eq [] [] h = refl
same_text_eq [] (d ∷ right) h = absurd (ground (arith, h))
same_text_eq (c ∷ left) [] h = absurd (ground (arith, h))
same_text_eq (c ∷ left) (d ∷ right) h =
    let first : c ≡ d = (==_iff c d).0 (ground (arith, h)) in
    let rest : left ≡ right = same_text_eq left right (ground (arith, h)) in λ i. first i ∷ rest i

module _ {W : Type 0} (name args : List ℕ) (s : Cli × W) where
  -- A command that a line with the name calls.
  pub record Answers (command : Command W) : Type 0 where
    pub named : command.has_name ≡ true
    pub handled : command.has_handler ≡ true
    pub same : name ≡ command.name

  abbrev pub NoneAnswers : List (Command W) → Type 0
  NoneAnswers = All (λ command. Answers command → ⊥)

  -- What a line does: it calls the first command that answers, if there is one, and is cleared.
  pub data Ran (commands : List (Command W)) : Cli × W → Type 0 where
    ran :
        (before : List (Command W)) (command : Command W) (after : List (Command W))
        → commands ≡ before ++ command ∷ after
        → NoneAnswers before
        → Answers command
        → Ran commands (clear_line (command.handler args s))
    unknown : NoneAnswers commands → Ran commands (clear_line s)

  Ran-later :
      (command : Command W) (commands : List (Command W)) (o : Cli × W)
      → (Answers command → ⊥)
      → Ran commands o
      → Ran (command ∷ commands) o
  Ran-later command commands o silent (ran before next after e none_before here) =
      ran (command ∷ before) next after (ap (λ xs. command ∷ xs) e) (silent, none_before) here
  Ran-later command commands o silent (unknown none_here) = unknown (silent, none_here)

  run_command-Ran :
      (commands : List (Command W)) → Ran commands (clear_line (run_command commands name args s))
  unfolding run_command
  run_command-Ran [] = unknown tt
  run_command-Ran (command ∷ commands) =
      elim (Bool-cases (command.has_name && command.has_handler && same_text name command.name)) [
        | inl y ↦ rw y (
            ran [] command commands refl tt (record {
              named = ground (arith, y);
              handled = ground (arith, y);
              same = same_text_eq name command.name (ground (arith, y));
            }))
        | inr n ↦
            rw n (Ran-later command commands _ (λ k. silent command n k) (run_command-Ran commands))
      ]
    where
      silent :
          (command : Command W)
          → (command.has_name && command.has_handler && same_text name command.name) ≡ false
          → Answers command
          → ⊥
      silent command n k =
          ground
            (arith, n, k.named, k.handled, ap (same_text name) (sym k.same) ∙ same_text_self name)

module _ {W : Type 0} (commands : List (Command W)) where
  abbrev with_line : Cli → W → List ℕ → Cli × W
  with_line cli w line = (record cli { line = line }, w)

  process_byte_text :
      (cli : Cli) (w : W) (byte : ℕ) (line : List ℕ)
      → is_newline byte ≡ false
      → length line < 255
      → process_byte commands (with_line cli w line) byte ≡ with_line cli w (line ++ byte ∷ [])
  unfolding process_byte
  process_byte_text cli w byte line text fits =
      let room : leb 255 (length line) ≡ false = ground (arith, fits) in rw (text, room) refl

  -- The bytes of a line are collected, up to its end.
  process_bytes_text :
      (cli : Cli) (w : W) (bytes line : List ℕ) (newline : ℕ)
      → IsText bytes
      → is_newline newline ≡ true
      → length line + length bytes ≤ 255
      → process_bytes commands (with_line cli w line) (bytes ++ newline ∷ [])
        ≡ dispatch_line commands (with_line cli w (line ++ bytes))
  unfolding process_bytes process_byte
  process_bytes_text cli w [] line newline h e fits = rw (e, append-nil line) refl
  process_bytes_text cli w (byte ∷ bytes) line newline h e fits =
      ap (λ s. process_bytes commands s (bytes ++ newline ∷ []))
        (process_byte_text cli w byte line h.0.0 (omega (arith, fits)))
      ∙ process_bytes_text cli w bytes (line ++ byte ∷ []) newline h.1 e
          (omega (arith, length-append line (byte ∷ []), fits))
      ∙ ap (λ z. dispatch_line commands (with_line cli w z)) (append_assoc line (byte ∷ []) bytes)

  process_bytes-dispatched :
      (cli : Cli) (w : W) (name args : List ℕ) (newline : ℕ)
      → IsText (name ++ (61 ∷ args))
      → HasNoSeparator name
      → is_newline newline ≡ true
      → length name + length args ≤ 247
      → process_bytes commands
          (with_line cli w [])
          ((cli_header ++ (name ++ (61 ∷ args))) ++ newline ∷ [])
        ≡ clear_line
            (run_command commands name args (with_line cli w (cli_header ++ (name ++ (61 ∷ args)))))
  unfolding dispatch_line
  process_bytes-dispatched cli w name args newline h plain e fits =
      process_bytes_text cli w line [] newline header_text e (omega (arith, long))
      ∙ ap
          (λ z.
            if length line == 0
            then s
            else if not (same_text (take 7 z) cli_header)
            then clear_line s
            else clear_line
                (run_command commands (before_separator (drop 7 z)) (after_separator (drop 7 z)) s))
          (c_string-IsText line header_text)
      ∙ ap
          (λ b.
            if b
            then s
            else if not (same_text cli_header cli_header)
            then clear_line s
            else clear_line (run_command commands (before_separator text) (after_separator text) s))
          some_text
      ∙ ap
          (λ b.
            if not b
            then clear_line s
            else clear_line (run_command commands (before_separator text) (after_separator text) s))
          (same_text_self cli_header)
      ∙ ap (λ z. clear_line (run_command commands z (after_separator text) s))
          (before_separator-HasNoSeparator name args plain)
      ∙ ap (λ z. clear_line (run_command commands name z s))
          (after_separator-HasNoSeparator name args plain)
    where
      text : List ℕ
      text = name ++ (61 ∷ args)

      line : List ℕ
      line = cli_header ++ text

      s : Cli × W
      s = with_line cli w line

      header_text : IsText line
      header_text = (
        (refl, refl),
        (
          (refl, refl),
          ((refl, refl), ((refl, refl), ((refl, refl), ((refl, refl), ((refl, refl), h))))),
        ),
      )

      long : length line ≡ 8 + length name + length args
      long = omega (arith, length-append cli_header text, length-append name (61 ∷ args))

      some_text : (length line == 0) ≡ false
      some_text = ground (arith, long)

  -- A line with the header, a name and arguments, submitted to an empty line. If a command has that name
  -- and a handler, the handler of the first such command is called with the arguments, on the state with
  -- the line in it; if there is none, nothing is called. Then the line is empty again. The characters are
  -- neither ends of a line nor of a string, the name has no separator, and all of it fits into the line.
  pub process_bytes-Ran :
      (cli : Cli) (w : W) (name args : List ℕ) (newline : ℕ)
      → IsText (name ++ (61 ∷ args))
      → HasNoSeparator name
      → is_newline newline ≡ true
      → length name + length args ≤ 247
      → Ran name args (with_line cli w (cli_header ++ (name ++ (61 ∷ args)))) commands (
          process_bytes commands
            (with_line cli w [])
            ((cli_header ++ (name ++ (61 ∷ args))) ++ newline ∷ []))
  process_bytes-Ran cli w name args newline h plain e fits =
      subst (Ran name args (with_line cli w (cli_header ++ (name ++ (61 ∷ args)))) commands)
        (sym (process_bytes-dispatched cli w name args newline h plain e fits))
        (run_command-Ran name args (with_line cli w (cli_header ++ (name ++ (61 ∷ args)))) commands)
