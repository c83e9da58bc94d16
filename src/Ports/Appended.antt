-- ===== src/Ports/Appended.antt =====
-- hvac_comm.cpp and hvac_comm_client.cpp: the search of a file to which a line has been appended.
use hvac_checkpoint.Common.{◌≡◌, refl, ap, ◌∙◌, none, some, List, [], ◌∷◌, ◌++◌, arith, All-append}
use hvac_checkpoint.Common.Int.{ℤ, int_eq, FitsInt32}
use hvac_checkpoint.Common.Maps.{beq_refl}
use hvac_checkpoint.Common.Text.{Text, text_eq}
use hvac_checkpoint.Ports.{list_addr, find_address}
use hvac_checkpoint.Ports.RoundTrip.{
  IsWord, IsWritten, print_file, first_entry, list_addr-print_file, find_address-print_file,
}

first_entry-append :
    (r : ℤ) (a : Text) (es : List (ℤ × Text))
    → first_entry r es ≡ none
    → first_entry r (es ++ (r, a) ∷ []) ≡ some a
unfolding first_entry
first_entry-append r a [] alone = rw (beq_refl r) refl
first_entry-append r a ((j, b) ∷ es) alone = ground (arith, first_entry-append r a es)

-- A line that is added behind lines of other ranks is found.
pub find_address-list_addr :
    (r : ℤ) (a : Text) (es : List (ℤ × Text))
    → FitsInt32 r
    → IsWord a
    → IsWritten es
    → first_entry r es ≡ none
    → find_address r (list_addr r a (print_file es)) ≡ some a
find_address-list_addr r a es fits word words alone =
    ap (find_address r) (list_addr-print_file r a es)
    ∙ find_address-print_file r (es ++ (r, a) ∷ [])
        (All-append (λ e. FitsInt32 e.0 × IsWord e.1) es ((r, a) ∷ []) words ((fits, word), tt))
    ∙ first_entry-append r a es alone
