-- ===== src/Sender/Tests.antt =====
-- Instances of the theorems about the sender, for a file of three bytes.
use rtbus.Base.{ℕ, ◌≡◌, true, List, [], ◌∷◌, replicate}
use rtbus.Sender.{send_ymodem}
use rtbus.Sender.Script.{script, at, bytes_of, transfer, replies_to, send_ymodem-transfer}

abbrev file : List ℕ
file = 10 ∷ 20 ∷ 30 ∷ []

-- The path "a/b".
abbrev path : List ℕ
path = 97 ∷ 47 ∷ 98 ∷ []

-- Numbers in unary, with the digit 1.
abbrev print_ones : ℕ → List ℕ
print_ones n = 49 ∷ replicate n 49

send_ymodem-transfer_example :
    send_ymodem script print_ones path file (at [] (replies_to file))
    ≡ (true, at (bytes_of (transfer print_ones path file)) [])
send_ymodem-transfer_example = send_ymodem-transfer print_ones path file
