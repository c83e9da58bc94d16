-- ===== src/Ports/RoundTrip.antt =====
-- hvac_comm.cpp and hvac_comm_client.cpp: the file of addresses as the servers write it and as the
-- clients read it.
use hvac_checkpoint.Common.{
  ℕ, zero, suc, ◌+◌, ◌<◌, ◌≤◌, ◌≡◌, refl, ap, ◌∙◌, true, false, Option, some, none, List, [], ◌∷◌,
  ◌++◌, ◌||◌, if◌then◌else◌, ◌==◌, length, ◌/◌, ◌%◌, All, arith, append_assoc, length-append,
}
use hvac_checkpoint.Common.Int.{ℤ, pos, negsuc, int_beq, int_eq, FitsInt32, to_int32_fits}
use hvac_checkpoint.Common.Text.{Text}
use hvac_checkpoint.Common.Decimal.{
  to_string, is_digit, is_space, read_digits, Ends, digits_from, StartsWithDigit,
  digits_from-StartsWithDigit, digits-to_string, read_digits-digits_from, read_digits-end,
}
use hvac_checkpoint.Ports.{
  print_int, list_addr, skip_space, skip_digits, scan_digits, scan_signed, take_word, drop_word,
  scan_entry, entry_of, search_file, find_address,
}

-- An address is a word: characters that are no white space, at least one.
abbrev pub IsWord : Text → Type 0
IsWord [] = ⊥
IsWord (c ∷ s) = All (λ d. is_space d ≡ false) (c ∷ s)

-- The file as the servers wrote it, line by line.
unfoldable pub print_file : List (ℤ × Text) → Text
print_file [] = []
print_file ((rank, address) ∷ es) = print_int rank ++ (b' ' ∷ (address ++ (b'\n' ∷ print_file es)))

unfoldable pub first_entry : ℤ → List (ℤ × Text) → Option Text
first_entry rank [] = none
first_entry rank ((r, address) ∷ es) = if int_beq r rank then some address else first_entry rank es

-- Appending a server's line is appending its entry.
pub list_addr-print_file :
    (rank : ℤ) (address : Text) (es : List (ℤ × Text))
    → list_addr rank address (print_file es) ≡ print_file (es ++ (rank, address) ∷ [])
unfolding list_addr print_file
list_addr-print_file rank address [] = refl
list_addr-print_file rank address ((r, a) ∷ es) =
    simp (append_assoc)
      (ap (λ t. print_int r ++ (b' ' ∷ (a ++ (b'\n' ∷ t)))) (list_addr-print_file rank address es))

skip_digits-end : (s : Text) → Ends s → skip_digits s ≡ s
unfolding skip_digits
skip_digits-end [] h = refl
skip_digits-end (c ∷ s) h = ground arith

skip_digits-digits_from :
    (f n : ℕ) (rest : Text) → n < f → skip_digits (digits_from f n rest) ≡ skip_digits rest
unfolding digits_from skip_digits
skip_digits-digits_from zero n rest h = absurd (omega arith)
skip_digits-digits_from (suc f) n rest h =
    ground (arith, skip_digits-digits_from f (n / 10) ((b'0' + n % 10) ∷ rest))

scan_digits_of :
    (n : ℕ) (t rest : Text)
    → StartsWithDigit t
    → read_digits 0 t ≡ n
    → skip_digits t ≡ rest
    → scan_digits t ≡ some (n, rest)
unfolding scan_digits
scan_digits_of n [] rest d e f = absurd d
scan_digits_of n (c ∷ s) rest d e f = ground arith

scan_digits-to_string : (n : ℕ) (s : Text) → Ends s → scan_digits (to_string n ++ s) ≡ some (n, s)
scan_digits-to_string n s h = rw (digits-to_string n s) (
    scan_digits_of n _ s (digits_from-StartsWithDigit (suc n) n s (omega arith))
      (read_digits-digits_from (suc n) n s (omega arith) ∙ read_digits-end n s h)
      (skip_digits-digits_from (suc n) n s (omega arith) ∙ skip_digits-end s h))

-- A text that a scan of a number does not skip into: it begins with a digit or a minus sign.
abbrev StartsNumber : Text → Type 0
StartsNumber [] = ⊥
StartsNumber (c ∷ s) = (is_digit c || c == b'-') ≡ true

StartsNumber-of_digit : (t : Text) → StartsWithDigit t → StartsNumber t
StartsNumber-of_digit [] d = d
StartsNumber-of_digit (c ∷ s) d = ground arith

print_int-StartsNumber : (r : ℤ) (s : Text) → StartsNumber (print_int r ++ s)
unfolding print_int
print_int-StartsNumber (pos n) s =
    rw (digits-to_string n s)
      (StartsNumber-of_digit _ (digits_from-StartsWithDigit (suc n) n s (omega arith)))
print_int-StartsNumber (negsuc n) s = refl

skip_space-StartsNumber : (t : Text) → StartsNumber t → skip_space t ≡ t
unfolding skip_space
skip_space-StartsNumber [] d = refl
skip_space-StartsNumber (c ∷ s) d = ground arith

scan_signed_of_digit :
    (n : ℕ) (t rest : Text)
    → StartsWithDigit t
    → scan_digits t ≡ some (n, rest)
    → scan_signed t ≡ some (pos n, rest)
unfolding scan_signed
scan_signed_of_digit n [] rest d e = absurd d
scan_signed_of_digit n (c ∷ s) rest d e = ground arith

scan_signed-print_int : (r : ℤ) (s : Text) → Ends s → scan_signed (print_int r ++ s) ≡ some (r, s)
unfolding print_int scan_signed
scan_signed-print_int (pos n) s h =
    scan_signed_of_digit n (to_string n ++ s) s
      (rw (digits-to_string n s) (digits_from-StartsWithDigit (suc n) n s (omega arith)))
      (scan_digits-to_string n s h)
scan_signed-print_int (negsuc n) s h = rw (scan_digits-to_string (suc n) s h)

word_first : (a rest : Text) → IsWord a → skip_space (a ++ rest) ≡ a ++ rest
unfolding skip_space
word_first [] rest w = absurd w
word_first (c ∷ a) rest w = ground (arith, w.0)

take_word-append :
    (a rest : Text) → All (λ d. is_space d ≡ false) a → take_word (a ++ (b'\n' ∷ rest)) ≡ a
unfolding take_word
take_word-append [] rest w = refl
take_word-append (c ∷ a) rest w = ground (arith, w.0, take_word-append a rest w.1)

drop_word-append :
    (a rest : Text)
    → All (λ d. is_space d ≡ false) a
    → drop_word (a ++ (b'\n' ∷ rest)) ≡ b'\n' ∷ rest
unfolding drop_word
drop_word-append [] rest w = refl
drop_word-append (c ∷ a) rest w = ground (arith, w.0, drop_word-append a rest w.1)

skip_space-print_file : (es : List (ℤ × Text)) → skip_space (print_file es) ≡ print_file es
unfolding print_file skip_space
skip_space-print_file [] = refl
skip_space-print_file ((r, a) ∷ es) = skip_space-StartsNumber _ (print_int-StartsNumber r _)

-- What `IsWord` says of the characters of an address.
IsWord-All : (a : Text) → IsWord a → All (λ d. is_space d ≡ false) a
IsWord-All [] w = absurd w
IsWord-All (c ∷ a) w = w

IsWord-ne-nil : (a : Text) → IsWord a → (c : ℕ) × (s : Text) × (a ≡ c ∷ s)
IsWord-ne-nil [] w = absurd w
IsWord-ne-nil (c ∷ a) w = (c, a, refl)

entry_of_word :
    (r : ℤ) (a rest : Text) → FitsInt32 r → IsWord a → entry_of r a rest ≡ some (r, a, rest)
unfolding entry_of
entry_of_word r [] rest fits w = absurd w
entry_of_word r (c ∷ a) rest fits w = rw (to_int32_fits r fits)

-- Reading the first line of the file gives its entry and the rest of the file.
scan_entry-print_file :
    (r : ℤ) (a : Text) (es : List (ℤ × Text))
    → FitsInt32 r
    → IsWord a
    → scan_entry (print_file ((r, a) ∷ es)) ≡ some (r, a, print_file es)
unfolding scan_entry print_file
scan_entry-print_file r a es fits w =
    let tail = b'\n' ∷ print_file es in
    let word = IsWord-All a w in
    let (c, s, shape) = IsWord-ne-nil a w in
    let first = skip_space-StartsNumber _ (print_int-StartsNumber r (b' ' ∷ (a ++ tail))) in
    let number = scan_signed-print_int r (b' ' ∷ (a ++ tail)) refl in
    let gap : skip_space (b' ' ∷ (a ++ tail)) ≡ a ++ tail =
      unfold skip_space in word_first a tail w in
    let end : skip_space tail ≡ print_file es = unfold skip_space in skip_space-print_file es in
    rw
      (
        first,
        scan_entry,
        number,
        gap,
        take_word-append a (print_file es) word,
        drop_word-append a (print_file es) word,
        end,
      )
      (entry_of_word r a (print_file es) fits w)

-- Every entry of the file has a rank that an `int` holds and an address that is a word.
abbrev pub IsWritten : List (ℤ × Text) → Type 0
IsWritten = All (λ e. FitsInt32 e.0 × IsWord e.1)

search_file-print_file :
    (fuel : ℕ) (rank : ℤ) (es : List (ℤ × Text))
    → length es < fuel
    → IsWritten es
    → search_file fuel rank (print_file es) ≡ first_entry rank es
unfolding search_file first_entry
search_file-print_file zero rank es enough w = absurd (omega arith)
search_file-print_file (suc fuel) rank [] enough w =
    unfold print_file scan_entry skip_space scan_signed in refl
search_file-print_file (suc fuel) rank ((r, a) ∷ es) enough w = rw (
  scan_entry-print_file r a es w.0.0 w.0.1,
  search_file,
  search_file-print_file fuel rank es (omega arith) w.1,
)

length-print_file : (es : List (ℤ × Text)) → length es ≤ length (print_file es)
unfolding print_file
length-print_file [] = omega arith
length-print_file ((r, a) ∷ es) =
    rw (length-append (print_int r) (b' ' ∷ (a ++ (b'\n' ∷ print_file es))))
      (rw (length-append a (b'\n' ∷ print_file es)) (omega (arith, length-print_file es)))

-- In a file whose lines have ranks of the range of `int` and addresses without white space, the
-- search finds the address of the first line with the rank, and nothing for a rank that no line
-- has.
pub find_address-print_file :
    (rank : ℤ) (es : List (ℤ × Text))
    → IsWritten es
    → find_address rank (print_file es) ≡ first_entry rank es
unfolding find_address
find_address-print_file rank es w =
    search_file-print_file (suc (length (print_file es))) rank es
      (omega (arith, length-print_file es)) w
