-- ===== src/Logging/Width.antt =====
-- hvac_logging.c: the buffer for the prefix of the log files, and what `hvac_init_logging` settles.
use hvac_checkpoint.Common.{
  ℕ, zero, suc, ◌+◌, ◌*◌, ◌/◌, ◌%◌, ◌≤◌, ◌<◌, ◌≡◌, refl, ◌⊎◌, inl, inr, true, Option, some, none,
  [], ◌∷◌, ◌++◌, Bool-cases, length, ltb, if◌then◌else◌, length-append, arith,
}
use hvac_checkpoint.Common.Int.{ℤ, pos, negsuc, is_negative, pos_part}
use hvac_checkpoint.Common.Text.{Text, codes}
use hvac_checkpoint.Common.Decimal.{to_string, digits_from}
use hvac_checkpoint.Common.Run.{ok, fault, undefined}
use hvac_checkpoint.Startup.{atoi}
use hvac_checkpoint.Logging.{
  LogEnv, LogSettings, root_priority, or_default, prefix_and_pid, init_logging,
}

abbrev pow10 : ℕ → ℕ
pow10 zero = 1
pow10 (suc k) = 10 * pow10 k

-- A number below a power of ten has at most as many digits as its exponent.
length-digits_from_le :
    (f n k : ℕ) (rest : Text)
    → n < f
    → n < pow10 (suc k)
    → length (digits_from f n rest) ≤ suc k + length rest
unfolding digits_from
length-digits_from_le zero n k rest enough small = absurd (omega (arith, enough))
length-digits_from_le (suc f) n zero rest enough small = ground (arith, small)
length-digits_from_le (suc f) n (suc k) rest enough small =
    let more : Text = (b'0' + n % 10) ∷ rest in
    let ih = length-digits_from_le f (n / 10) k more in ground (arith, ih, enough, small)

pow10_positive : (k : ℕ) → 0 < pow10 k
pow10_positive zero = omega arith
pow10_positive (suc k) = omega (arith, pow10_positive k)

-- One that reaches a power of ten has more.
length-digits_from_gt :
    (f n k : ℕ) (rest : Text)
    → n < f
    → pow10 k ≤ n
    → k + length rest < length (digits_from f n rest)
unfolding digits_from
length-digits_from_gt zero n k rest enough large = absurd (omega (arith, enough))
length-digits_from_gt (suc f) n zero rest enough large =
    let more : Text = (b'0' + n % 10) ∷ rest in
    let ih = length-digits_from_gt f (n / 10) zero more in ground (arith, ih, enough, large)
length-digits_from_gt (suc f) n (suc k) rest enough large =
    let more : Text = (b'0' + n % 10) ∷ rest in
    let ih = length-digits_from_gt f (n / 10) k more in
    let positive = pow10_positive k in ground (arith, ih, enough, large, positive)

-- The buffer is large enough exactly for the process ids of at most five digits.
prefix_and_pid-cases :
    (prefix : Text) (pid : ℕ)
    → ((pid < 100000) × (prefix_and_pid prefix pid ≡ ok (prefix ++ (codes "." ++ to_string pid))))
      ⊎ ((100000 ≤ pid) × (prefix_and_pid prefix pid ≡ fault undefined))
unfolding prefix_and_pid to_string
prefix_and_pid-cases prefix pid =
    let digits = to_string pid in
    let size = length-append prefix (codes "." ++ digits) in
    elim (Bool-cases (ltb pid 100000)) [
      | inl small ↦
          let few =
            length-digits_from_le (suc pid) pid 4 [] (omega arith) (ground (arith, small)) in
          inl (ground (arith, small), ground (arith, size, few))
      | inr large ↦
          let many =
            length-digits_from_gt (suc pid) pid 5 [] (omega arith) (ground (arith, large)) in
          inr (ground (arith, large), ground (arith, size, many))
    ]

-- A number of the range of log4c's priorities, whether or not it is one of them (0, 100, ..., 800).
abbrev pub IsInRange : ℤ → Type 0
IsInRange level = (n : ℕ) × (level ≡ pos n) × (n ≤ 800)

clamped_IsInRange :
    (level : ℤ)
    → IsInRange
        (if is_negative level then pos 0 else if ltb 800 (pos_part level) then pos 800 else level)
clamped_IsInRange (negsuc n) = (0, refl, omega arith)
clamped_IsInRange (pos n) = elim (Bool-cases (ltb 800 n)) [
  | inl large ↦ (800, ground (arith, large), omega arith)
  | inr small ↦ (n, ground (arith, small), ground (arith, small))
]

root_priority-IsInRange :
    (notice : ℕ) (level : Option Text) → notice ≤ 800 → IsInRange (root_priority (pos notice) level)
unfolding root_priority
root_priority-IsInRange notice none h = (notice, refl, h)
root_priority-IsInRange notice (some text) h = clamped_IsInRange (atoi text)

-- With log4c started and a default priority from 0 to 800: for a process id of at most five digits
-- the logging system gets its settings, with a number from 0 to 800 for the priority, and files
-- named by the prefix and the process id. For a longer process id it writes beyond the end of a
-- buffer.
pub init_logging-cases :
    (notice : ℕ) (log_dir log_prefix : Text) (env : LogEnv)
    → notice ≤ 800
    → ((env.pid < 100000)
        × (s : LogSettings) × (init_logging (pos notice) log_dir log_prefix true env ≡ ok (some s))
        × (s.files_prefix
            ≡ or_default log_prefix env.hvac_log_prefix ++ (codes "." ++ to_string env.pid))
        × IsInRange s.priority)
      ⊎ ((100000 ≤ env.pid)
          × (init_logging (pos notice) log_dir log_prefix true env ≡ fault undefined))
unfolding init_logging
init_logging-cases notice log_dir log_prefix env h =
    let prefix = or_default log_prefix env.hvac_log_prefix in
    elim (prefix_and_pid-cases prefix env.pid) [
      | inl (small, e) ↦ inl (
        small,
        record {
          priority = root_priority (pos notice) env.hvac_log_level;
          dir = or_default log_dir env.hvac_log_dir;
          files_prefix = prefix ++ (codes "." ++ to_string env.pid);
        },
        rw e refl,
        refl,
        root_priority-IsInRange notice env.hvac_log_level h,
      )
      | inr (large, e) ↦ inr (large, rw e refl)
    ]
