-- ===== src/Files/Streams/Examples.antt =====
-- Runs of the streams, and their theorem at a concrete input.
use tib.Common.{◌≡◌, refl, List, [], ◌∷◌, ◌++◌, none, arith}
use tib.Common.Bytes.{from_bytes}
use tib.Files.Streams.{read, read_string, read_text}
use tib.Files.Streams.RoundTrip.{
  Prop, word, text, write_props, read_props, found, read_props-write_props,
}

-- A length with too few bytes behind it.
short_run : read_string (3 ∷ 0 ∷ 97 ∷ []) ≡ (none, 97 ∷ [])
unfolding read_string read read_text from_bytes
short_run = refl

abbrev some_props : List Prop
some_props = word 1 5 ∷ text (97 ∷ 98 ∷ []) ∷ word 4 70000 ∷ []

read_props-write_props_example :
    read_props some_props (write_props some_props [] ++ 1 ∷ []) ≡ (found some_props, 1 ∷ [])
read_props-write_props_example = read_props-write_props some_props (1 ∷ []) (omega arith)
