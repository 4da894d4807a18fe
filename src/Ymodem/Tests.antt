-- ===== src/Ymodem/Tests.antt =====
-- Instances of the theorems about the receiver, with a store that keeps the bytes it gets.
use rtbus.Base.{ℕ, ◌≡◌, refl, List, arith, replicate}
use rtbus.Ymodem.{packet, got, read_packet}
use rtbus.Ymodem.Frame.{frame, Checked, read_packet-frame, read_packet-Checked}

abbrev block : List ℕ
block = replicate 128 7

read_packet-frame_example : read_packet 1 (got (frame 3 block)) ≡ packet 3 block
read_packet-frame_example = read_packet-frame 1 3 128 block refl (omega arith) refl

read_packet-Checked_example : Checked 1 (frame 3 block) (read_packet 1 (got (frame 3 block)))
read_packet-Checked_example = read_packet-Checked 1 (frame 3 block)
