-- ===== src/Ports.antt =====
-- The file of server addresses, `.ports.cfg.<job>`: `hvac_comm_list_addr` (hvac_comm.cpp) appends
-- a line to it, `hvac_client_comm_lookup_addr` (hvac_comm_client.cpp) searches it.
pub mod RoundTrip
pub mod Appended
use hvac_checkpoint.Common.{
  ℕ, zero, suc, ◌+◌, ◌*◌, Bool, true, false, Option, some, none, List, [], ◌∷◌, ◌++◌, ◌||◌,
  if◌then◌else◌, ◌==◌, length,
}
use hvac_checkpoint.Common.Int.{ℤ, pos, negsuc, int_beq, int_eq, to_int32}
use hvac_checkpoint.Common.Maps.{Map, lookup, insert}
use hvac_checkpoint.Common.Text.{Text, codes}
use hvac_checkpoint.Common.Decimal.{to_string, is_digit, is_space, read_digits}

-- `"%d"`
unfoldable pub print_int : ℤ → Text
print_int (pos n) = to_string n
print_int (negsuc n) = b'-' ∷ to_string (suc n)

-- `fprintf(na_config, "%d %s\n", rank, address)` at the end of the file.
unfoldable pub list_addr : ℤ → Text → Text → Text
list_addr rank address file = file ++ (print_int rank ++ (b' ' ∷ (address ++ b'\n' ∷ [])))

unfoldable pub skip_space : Text → Text
skip_space [] = []
skip_space (c ∷ s) = let rest = skip_space s in if is_space c then rest else c ∷ s

unfoldable pub skip_digits : Text → Text
skip_digits [] = []
skip_digits (c ∷ s) = let rest = skip_digits s in if is_digit c then rest else c ∷ s

-- The digits at the head of the text, at least one, and what follows.
unfoldable pub scan_digits : Text → Option (ℕ × Text)
scan_digits [] = none
scan_digits (c ∷ s) = if is_digit c then some (read_digits 0 (c ∷ s), skip_digits (c ∷ s)) else none

unfoldable pub negate_scan : Option (ℕ × Text) → Option (ℤ × Text)
negate_scan none = none
negate_scan (some (zero, s)) = some (pos 0, s)
negate_scan (some (suc n, s)) = some (negsuc n, s)

abbrev pub keep_scan : Option (ℕ × Text) → Option (ℤ × Text)
keep_scan none = none
keep_scan (some (n, s)) = some (pos n, s)

-- A sign and digits.
unfoldable pub scan_signed : Text → Option (ℤ × Text)
unfolding scan_digits negate_scan
scan_signed [] = none
scan_signed (c ∷ s) =
    if c == b'-'
    then negate_scan (scan_digits s)
    else if c == b'+'
    then keep_scan (scan_digits s)
    else keep_scan (scan_digits (c ∷ s))

-- The characters up to the next white space, and what follows.
unfoldable pub take_word : Text → Text
take_word [] = []
take_word (c ∷ s) = if is_space c then [] else c ∷ take_word s

unfoldable pub drop_word : Text → Text
drop_word [] = []
drop_word (c ∷ s) = let rest = drop_word s in if is_space c then c ∷ s else rest

-- `%s` needs a character.
unfoldable pub entry_of : ℤ → Text → Text → Option (ℤ × Text × Text)
entry_of rank [] rest = none
entry_of rank (c ∷ word) rest = some (to_int32 rank, c ∷ word, rest)

-- `fscanf(na_config, "%d %s\n", &svr_rank, svr_str) == 2`, with the rest of the file. A number
-- outside `int` is taken modulo 2^32, as the C library of the platform does.
unfoldable pub scan_entry : Text → Option (ℤ × Text × Text)
unfolding entry_of
scan_entry s = elim (scan_signed (skip_space s)) [
  | none ↦ none
  | some (rank, rest) ↦
      entry_of rank (take_word (skip_space rest)) (skip_space (drop_word (skip_space rest)))
]

-- The search loop on fuel; the length of the file is enough, since each entry takes a character.
unfoldable pub search_file : ℕ → ℤ → Text → Option Text
search_file zero rank file = none
search_file (suc fuel) rank file = elim (scan_entry file) [
  | none ↦ none
  | some (svr_rank, svr_str, rest) ↦
      let more = search_file fuel rank rest in if int_beq svr_rank rank then some svr_str else more
]

unfoldable pub find_address : ℤ → Text → Option Text
find_address rank file = search_file (suc (length file)) rank file

-- `hvac_client_comm_lookup_addr`: the address that is handed to `HG_Addr_lookup2`, and the cache
-- afterwards. `none` is the path that returns `target_server` uninitialised.
unfoldable pub lookup_addr : ℤ → Text → Map ℤ Text → Option Text × Map ℤ Text
lookup_addr rank file cache = elim (lookup rank cache) [
  | some address ↦ (some address, cache)
  | none ↦ elim (find_address rank file) [
    | some address ↦ (some address, insert rank address cache)
    | none ↦ (none, cache)
  ]
]
