-- ===== src/Server/Read/Laws.antt =====
-- hvac_comm.cpp: what `hvac_rpc_handler` answers on each path, and what it gives back.
use hvac_checkpoint.Common.{
  ℕ, ◌-◌, ◌≤◌, ◌<◌, ◌^◌, ◌%◌, ◌≡◌, ◌≢◌, ◌∙◌, inl, inr, true, false, List, [], ◌∷◌, if◌then◌else◌,
  ◌==◌, length, take, replicate, take-append_length, take_all, arith, Bool-cases,
}
use hvac_checkpoint.Common.Int.{ℤ, pos, minus_one, int_beq, int_beq_iff, to_unsigned}
use hvac_checkpoint.Common.Run.{ok, fault, assertion}
use hvac_checkpoint.Posix.{Posix, ReadLaws, ReadsUpTo}
use hvac_checkpoint.Server.{
  Server, HgCalls, responds, pushes, bulk_freed, buffer_freed, state_freed,
}
use hvac_checkpoint.Server.Read.{RpcIn, filled, log_path, start_transfer, serve_read, rpc_handler}

-- The first bytes of the buffer after a read are the bytes that were read.
take-filled :
    (size : ℕ) (bytes : List ℕ)
    → length bytes ≤ size
    → take (length bytes) (filled size bytes) ≡ bytes
unfolding filled
take-filled size bytes h =
    rw (take_all size bytes h) (take-append_length bytes (replicate (size - length bytes) 0))

start_transfer-pushes :
    (os : Posix) (hg : HgCalls) (size n : ℕ) (bytes : List ℕ) (s : Server os.Fs)
    → length bytes ≡ n
    → n ≤ size
    → n < 2 ^ 63
    → hg.transfer n ≡ 0
    → start_transfer os hg size (pos n) bytes s
      ≡ ok (record { server = s; events = pushes n bytes ∷ []; ret = 0 })
unfolding start_transfer
start_transfer-pushes os hg size n bytes s len le small sent =
    let low : n % 2 ^ 64 ≡ n = omega arith in
    let whole : take n (filled size bytes) ≡ bytes =
      rw (← len) (take-filled size bytes (omega arith)) in
    rw (low, sent, whole)

-- The calls into Mercury and `calloc` before the read succeed.
pub record IsSetUp (hg : HgCalls) : Type 0 where
  pub got_input : hg.get_input ≡ 0
  pub allocated : hg.allocated ≡ true
  pub info : hg.info ≡ true
  pub registered : hg.bulk_create ≡ 0

-- The call that serves a request: `read` for the offset -1, `pread` for any other.
abbrev pub served : (os : Posix) → RpcIn → Server os.Fs → ℤ × List ℕ × os.Fs
served os inp s =
    if int_beq inp.offset minus_one
    then os.read_file inp.accessfd (to_unsigned 64 inp.input_val) s.fs
    else os.pread_file inp.accessfd (to_unsigned 64 inp.input_val) inp.offset s.fs

module _ (os : Posix) (laws : ReadLaws os) (hg : HgCalls) (inp : RpcIn) (s : Server os.Fs)
    (up : IsSetUp hg) where
  abbrev after_read : Server os.Fs
  after_read = log_path inp.accessfd (record s { fs = (served os inp s).2 })

  served_result : ReadsUpTo (to_unsigned 64 inp.input_val) (served os inp s).0 (served os inp s).1
  served_result = elim (Bool-cases (int_beq inp.offset minus_one)) [
    | inl e ↦ rw e (laws.read_result inp.accessfd (to_unsigned 64 inp.input_val) s.fs)
    | inr e ↦ rw e (laws.pread_result inp.accessfd (to_unsigned 64 inp.input_val) inp.offset s.fs)
  ]

  rpc_handler-serve_read :
      rpc_handler os hg inp s ≡ serve_read os hg inp (to_unsigned 64 inp.input_val) s
  unfolding rpc_handler
  rpc_handler-serve_read = ground (arith, up.got_input, up.allocated, up.info, up.registered)

  served_bytes :
      (n : ℕ)
      → (served os inp s).0 ≡ pos n
      → (length (served os inp s).1 ≡ n) × (n ≤ to_unsigned 64 inp.input_val)
  served_bytes n e = elim served_result [
    | inl (bad, none_read) ↦ absurd (cc (e, bad))
    | inr (m, good, le, len) ↦ let same : m ≡ n = cc (e, good) in (omega arith, omega arith)
  ]

  -- Where files keep `ReadLaws` and the calls before the read succeed, a read of `n` bytes, below
  -- 2^63, whose transfer is accepted pushes exactly those `n` bytes to the client, by `read` for
  -- the offset -1 and by `pread` for any other.
  pub rpc_handler_pushes :
      (n : ℕ)
      → (served os inp s).0 ≡ pos n
      → n < 2 ^ 63
      → hg.transfer n ≡ 0
      → rpc_handler os hg inp s
        ≡ ok (record { server = after_read; events = pushes n (served os inp s).1 ∷ []; ret = 0 })
  unfolding serve_read
  rpc_handler_pushes n e small sent =
      let (len, le) = served_bytes n e in
      let step =
        start_transfer-pushes os hg (to_unsigned 64 inp.input_val) n (served os inp s).1 after_read
          len le small sent in
      rpc_handler-serve_read ∙ elim (Bool-cases (int_beq inp.offset minus_one)) [
        | inl c ↦ rw (c, serve_read) (let e₁ = rw c at e in rw e₁ (rw c at step))
        | inr c ↦ rw (c, serve_read) (let e₁ = rw c at e in rw e₁ (rw c at step))
      ]

  -- Where the calls before it succeed, a failed `pread`, at an offset that is not -1, is answered
  -- with -1, and the bulk handle, the buffer and the state are freed.
  pub rpc_handler_pread_fails :
      inp.offset ≢ minus_one
      → (served os inp s).0 ≡ minus_one
      → rpc_handler os hg inp s
        ≡ ok (record {
          server = after_read;
          events = bulk_freed ∷ buffer_freed ∷ responds minus_one ∷ state_freed ∷ [];
          ret = 0;
        })
  unfolding serve_read
  rpc_handler_pread_fails ne e =
      let other : int_beq inp.offset minus_one ≡ false =
        ground (arith, int_beq_iff inp.offset minus_one) in
      let e₁ = rw other at e in rpc_handler-serve_read ∙ rw (other, serve_read, e₁)

  -- A failed `read` is not answered: the size of the transfer becomes 2^64 - 1, which is beyond the
  -- registered size. Mercury refuses such a transfer, and the assertion on its code ends the server.
  pub rpc_handler_read_fails :
      inp.offset ≡ minus_one
      → (served os inp s).0 ≡ minus_one
      → to_unsigned 64 inp.input_val < 2 ^ 64 - 1
      → ((n : ℕ) → to_unsigned 64 inp.input_val < n → hg.transfer n ≢ 0)
      → rpc_handler os hg inp s ≡ fault assertion
  unfolding serve_read start_transfer
  rpc_handler_read_fails here e small bounded =
      let refused = bounded (2 ^ 64 - 1) small in
      let same : int_beq inp.offset minus_one ≡ true = (int_beq_iff inp.offset minus_one).1 here in
      let e₁ = rw same at e in
      let stops : hg.transfer (2 ^ 64 - 1) == 0 ≡ false = ground arith in
      rpc_handler-serve_read ∙ rw (same, serve_read, e₁, start_transfer, stops)
