-- ===== src/Tests/Texts.antt =====
-- The theorems on the file of addresses and on addresses, at an address of each of two servers.
use hvac_checkpoint.Common.{◌≡◌, ◌++◌, refl, some, List, [], ◌∷◌, arith}
use hvac_checkpoint.Common.Int.{ℤ, pos}
use hvac_checkpoint.Common.Text.{Text, codes}
use hvac_checkpoint.Common.Decimal.{to_string, stoi, stoi-to_string}
use hvac_checkpoint.Ports.{find_address}
use hvac_checkpoint.Ports.RoundTrip.{print_file, first_entry, find_address-print_file}

abbrev addresses : List (ℤ × Text)
addresses = (pos 0, codes "tcp://a:1") ∷ (pos 1, codes "tcp://b:2") ∷ []

find_address-print_file_example :
    find_address (pos 1) (print_file addresses) ≡ first_entry (pos 1) addresses
find_address-print_file_example = find_address-print_file (pos 1) addresses (ground arith)

stoi-to_string_example : stoi (to_string 42 ++ codes ",") ≡ some (pos 42)
stoi-to_string_example = stoi-to_string 42 (codes ",") (omega arith) refl
