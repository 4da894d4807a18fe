-- ===== src/HeaderTool/Tests.antt =====
-- Instances of the theorems about the header tool, for a payload of four bytes.
use rtbus.Base.{ℕ, ◌≡◌, List, [], ◌∷◌, some, arith}
use rtbus.Image.Header.{decode}
use rtbus.HeaderTool.Hex.{component_ihex}
use rtbus.HeaderTool.HexRead.{read_ihex, numbered, read_ihex-component_ihex}
use rtbus.HeaderTool.{Symbols, build_header, make_component}
use rtbus.HeaderTool.Component.{Component, make_component-Component}
use rtbus.HeaderTool.Built.{built, decode-build_header}

abbrev symbols : Symbols
symbols = record {
  slot_start = 4096;
  flash_start = 4224;
  entry = 4224;
  data_load = 4226;
  data_start = 8192;
  data_end = 8194;
  bss_start = 8194;
  bss_end = 8200;
  ram_start = 8192;
  ram_end = 9192;
}

-- "app" and "1.0".
abbrev app : List ℕ
app = 97 ∷ 112 ∷ 112 ∷ []

abbrev one : List ℕ
one = 49 ∷ 46 ∷ 48 ∷ []

decode-build_header_example :
    decode (build_header 12 symbols app one 1000 4 3057449933)
    ≡ built 12 symbols app one 1000 4 3057449933
decode-build_header_example =
    decode-build_header 12 symbols app one 1000 4 3057449933 (ground arith) (ground arith)
      (ground arith)

make_component-Component_example :
    Component symbols (make_component 12 symbols app one (1 ∷ 2 ∷ 3 ∷ 4 ∷ []))
make_component-Component_example =
    make_component-Component 12 symbols app one (1 ∷ 2 ∷ 3 ∷ 4 ∷ []) (ground arith) (ground arith)
      (ground arith)

-- Ten bytes across a boundary of 64 KB.
abbrev across : List ℕ
across = 1 ∷ 2 ∷ 3 ∷ 4 ∷ 5 ∷ 6 ∷ 7 ∷ 8 ∷ 9 ∷ 10 ∷ []

read_ihex-component_ihex_example :
    read_ihex 0 (component_ihex 65530 across) ≡ some (numbered 65530 across)
read_ihex-component_ihex_example = read_ihex-component_ihex 65530 across (omega arith)
