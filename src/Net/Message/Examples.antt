-- ===== src/Net/Message/Examples.antt =====
-- Runs of the message buffer, and its theorems at concrete inputs.
use tib.Common.{◌≡◌, refl, false, List, [], ◌∷◌, arith}
use tib.Common.Bytes.{write_byte, write_bytes, read_bytes, to_bytes, from_bytes}
use tib.Net.Message.{NetworkMessage, get, get_string, add, add_string}
use tib.Net.Message.Layout.{Confined, Field, byte, word, text, place, write_all, write_all-Confined}
use tib.Net.Message.Reading.{read_all}
use tib.Net.Message.RoundTrip.{read_all-write_all}

abbrev blank : NetworkMessage
blank = record { buffer = λ i. 0; length = 0; position = 8; overrun = false }

abbrev fields : List Field
fields =
    byte 0x1e
    ∷ word 4 70000
    ∷ text (b'O' ∷ b'k' ∷ [])
    ∷ text []
    ∷ place (record { x = 32100; y = 31950; z = 7 })
    ∷ []

string_run :
    (get_string 0 (record (add_string (add 4 blank 9) (b'O' ∷ b'k' ∷ [])) { position = 12 })).0
    ≡ b'O' ∷ b'k' ∷ []
unfolding get_string get add_string add write_bytes write_byte read_bytes to_bytes from_bytes
string_run = refl

empty_read : (get 2 (record blank { length = 1 })).0 ≡ 0
unfolding get
empty_read = refl

write_all-Confined_example : Confined blank (write_all blank fields)
write_all-Confined_example = write_all-Confined blank fields (omega arith)

read_all-write_all_example :
    (read_all (record (write_all blank fields) { position = 8 }) fields).0 ≡ fields
unfolding to_bytes
read_all-write_all_example =
    read_all-write_all blank fields (omega arith) (omega arith) (omega arith)
