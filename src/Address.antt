-- ===== src/Address.antt =====
-- hvac_comm.cpp: `extract_ip_portion`, which cuts a Mercury address down to the part before the port.
use hvac_checkpoint.Common.{
  ℕ, zero, suc, ◌+◌, ◌-◌, ◌≤◌, ◌<◌, ◌≡◌, refl, ap, ◌∙◌, ◌≢◌, Option, some, none, [], ◌∷◌, ◌++◌,
  if◌then◌else◌, ◌==◌, ltb, length, take, drop, replicate, All, arith, length-append,
  length-replicate, length-take, take-append, Option-cases, Bool-cases, inl, inr, lt→ltb,
}
use hvac_checkpoint.Common.Text.{Text, c_str}
use hvac_checkpoint.Common.Run.{Run, ok, fault, undefined}

-- `strchr(s, c)` as an offset.
unfoldable pub index_of : ℕ → Text → Option ℕ
index_of c [] = none
index_of c (d ∷ s) = elim (index_of c s) [
  | none ↦ if d == c then some 0 else none
  | some i ↦ if d == c then some 0 else some (suc i)
]

-- The offset of the second colon.
unfoldable pub second_colon : Text → Option ℕ
second_colon s = elim (index_of b':' s) [
  | none ↦ none
  | some i ↦ elim (index_of b':' (drop (suc i) s)) [ none ↦ none | some j ↦ some (suc i + j) ]
]

-- `strncpy(dest, s, n)`: exactly `n` bytes, padded with zeros.
unfoldable pub strncpy : ℕ → Text → Text
strncpy n s = take n s ++ replicate (n - length s) 0

-- `strncpy(ip_portion, full_address, max_len - 1)` with the zero behind it. For `max_len` 0 the
-- count wraps and the buffer is overrun.
unfoldable pub copy_bounded : Text → ℕ → Run Text
copy_bounded s zero = fault undefined
copy_bounded s (suc n) = ok (strncpy n s ++ 0 ∷ [])

-- The bytes that are written to `ip_portion`.
unfoldable pub extract_ip_portion : Text → ℕ → Run Text
extract_ip_portion full_address max_len = elim (second_colon full_address) [
  | none ↦ copy_bounded full_address max_len
  | some p ↦
      if ltb (suc p) max_len
      then ok (strncpy (suc p) full_address ++ 0 ∷ [])
      else copy_bounded full_address max_len
]

length-strncpy : (n : ℕ) (s : Text) → length (strncpy n s) ≡ n
unfolding strncpy
length-strncpy n s = omega (
  arith,
  length-append (take n s) (replicate (n - length s) 0),
  length-take n s,
  length-replicate {A = ℕ} (n - length s) 0,
)

c_str-zeros : (n : ℕ) → c_str (replicate n 0 ++ 0 ∷ []) ≡ []
unfolding c_str
c_str-zeros zero = refl
c_str-zeros (suc n) = refl

-- A copy that is cut or padded reads as the head of the text.
c_str-strncpy : (n : ℕ) (s : Text) → All (λ c. c ≢ 0) s → c_str (strncpy n s ++ 0 ∷ []) ≡ take n s
unfolding strncpy c_str
c_str-strncpy zero s h = c_str-zeros (0 - length s)
c_str-strncpy (suc n) [] h = c_str-zeros (suc n - 0)
c_str-strncpy (suc n) (c ∷ s) h = ground (arith, h.0, c_str-strncpy n s h.1)

-- For an address without zero bytes and a buffer with room for a byte, the result is written
-- within the buffer and reads as a head of the address.
pub extract_ip_portion-bounds :
    (full_address : Text) (max_len : ℕ)
    → All (λ c. c ≢ 0) full_address
    → 0 < max_len
    → (written : Text) × (extract_ip_portion full_address max_len ≡ ok written)
      × (length written ≤ max_len)
      × (n : ℕ) × (c_str written ≡ take n full_address)
unfolding extract_ip_portion copy_bounded
extract_ip_portion-bounds s zero h pos = absurd (omega arith)
extract_ip_portion-bounds s (suc m) h pos = elim (Option-cases (second_colon s)) [
  | inl e ↦ (strncpy m s ++ 0 ∷ [], rw (e, extract_ip_portion), fits m, m, c_str-strncpy m s h)
  | inr (p, e) ↦ elim (Bool-cases (ltb (suc p) (suc m))) [
    | inl room ↦ (
      strncpy (suc p) s ++ 0 ∷ [],
      rw (e, extract_ip_portion, room),
      ground (arith, fits (suc p)),
      suc p,
      c_str-strncpy (suc p) s h,
    )
    | inr full ↦
        (strncpy m s ++ 0 ∷ [], rw (e, extract_ip_portion, full), fits m, m, c_str-strncpy m s h)
  ]
]
  where
    fits : (n : ℕ) → length (strncpy n s ++ 0 ∷ []) ≤ suc n
    fits n = omega (arith, length-append (strncpy n s) (0 ∷ []), length-strncpy n s)

index_of-append :
    (c : ℕ) (a b : Text) → All (λ d. d ≢ c) a → index_of c (a ++ c ∷ b) ≡ some (length a)
unfolding index_of
index_of-append c [] b h = ground arith
index_of-append c (d ∷ a) b h = ground (arith, h.0, index_of-append c a b h.1)

second_colon-append :
    (scheme host port : Text)
    → All (λ d. d ≢ b':') scheme
    → All (λ d. d ≢ b':') host
    → second_colon (scheme ++ (b':' ∷ (host ++ b':' ∷ port)))
      ≡ some (suc (length scheme) + length host)
unfolding second_colon
second_colon-append scheme host port hs hh = rw (
  index_of-append b':' scheme (host ++ b':' ∷ port) hs,
  second_colon,
  drop_past scheme (host ++ b':' ∷ port),
  index_of-append b':' host port hh,
)
  where
    drop_past : (a b : Text) → drop (suc (length a)) (a ++ b':' ∷ b) ≡ b
    drop_past [] b = refl
    drop_past (c ∷ a) b = drop_past a b

take_through :
    (scheme host port : Text)
    → take (suc (suc (length scheme) + length host)) (scheme ++ (b':' ∷ (host ++ b':' ∷ port)))
      ≡ scheme ++ (b':' ∷ (host ++ b':' ∷ []))
take_through scheme host port =
    take-append (suc (suc (length scheme) + length host)) (suc (suc (length host))) scheme
      (b':' ∷ (host ++ b':' ∷ port)) (omega arith)
    ∙ ap (λ t. scheme ++ (b':' ∷ t))
        (take-append (suc (length host)) 1 host (b':' ∷ port) (omega arith))

-- An address "scheme:host:port" without zero bytes, with no colon in the scheme and the host,
-- whose first two parts fit the buffer, is cut behind its second colon.
pub extract_ip_portion-host :
    (scheme host port : Text) (max_len : ℕ)
    → All (λ d. d ≢ b':') scheme
    → All (λ d. d ≢ b':') host
    → All (λ d. d ≢ 0) (scheme ++ (b':' ∷ (host ++ b':' ∷ port)))
    → suc (suc (length scheme) + length host) < max_len
    → (written : Text) × (extract_ip_portion (scheme ++ (b':' ∷ (host ++ b':' ∷ port))) max_len
        ≡ ok written)
      × (c_str written ≡ scheme ++ (b':' ∷ (host ++ b':' ∷ [])))
unfolding extract_ip_portion
extract_ip_portion-host scheme host port max_len hs hh hz room =
    let full = scheme ++ (b':' ∷ (host ++ b':' ∷ port)) in
    let p = suc (length scheme) + length host in
    (
      strncpy (suc p) full ++ 0 ∷ [],
      rw (
        second_colon-append scheme host port hs hh,
        extract_ip_portion,
        lt→ltb (suc p) max_len room,
      ),
      c_str-strncpy (suc p) full hz ∙ take_through scheme host port,
    )
