-- ===== src/Startup/Laws.antt =====
-- hvac_client.cpp: what `hvac_client_init` leaves, with and without the number of servers.
use hvac_checkpoint.Common.{
  ℕ, ◌≡◌, refl, ap, true, false, Option, some, none, arith, Option-cases, inl, inr, All, ◌≢◌, take,
}
use hvac_checkpoint.Common.Int.{to_unsigned, FitsInt32, to_int32-FitsInt32}
use hvac_checkpoint.Ports.{scan_signed, skip_space}
use hvac_checkpoint.Common.Text.{Text, c_str}
use hvac_checkpoint.Common.Run.{Run, ok, fault, blocked, ◌>>=◌}
use hvac_checkpoint.Address.{extract_ip_portion-bounds}
use hvac_checkpoint.Ring.Servers.{server_ring}
use hvac_checkpoint.Client.{virtual_node_cnt}
use hvac_checkpoint.Startup.{
  atoi, rank_of, Surroundings, Startup, addr_buffer, own_address, get_addr, set_up, client_init,
}

-- What a start leaves: either the ring is set up, the redirection is on and a second start changes
-- nothing, but the own address is unknown, and what stands for its first part is a head of the bytes
-- that were in the buffer; or the redirection is off, as before, and a second start waits for ever.
pub data Started (hash : Text → ℕ) (env : Surroundings) (leftover : Text) (s : Startup)
    : Type 0 where
  set :
      s.disable_redirect ≡ false
      → s.ring ≡ server_ring hash s.server_count virtual_node_cnt
      → client_init hash env s ≡ ok s
      → s.my_address ≡ none
      → (n : ℕ) × (s.client_address ≡ take n leftover)
      → Started hash env leftover s
  unset :
      env.hvac_server_count ≡ none
      → s.disable_redirect ≡ true
      → client_init hash env s ≡ fault blocked
      → Started hash env leftover s

-- Before there is a class, the own address is not found, and the buffer is read as it was.
get_addr-leftover :
    (env : Surroundings) (leftover : Text) (s : Startup)
    → All (λ c. c ≢ 0) leftover
    → env.leftover ≡ some leftover
    → s.my_address ≡ none
    → s.has_class ≡ false
    → (written : Text) × (get_addr env s
        ≡ ok (record s {
          my_address = none;
          client_address = c_str written;
          client_rank = rank_of env.horovod_rank;
        }))
      × ((n : ℕ) × (c_str written ≡ take n leftover))
unfolding get_addr addr_buffer own_address
get_addr-leftover env leftover s clean held unknown no_class =
    let (written, cut, _, n, head) = extract_ip_portion-bounds leftover 128 clean (omega arith) in
    (written, ground (arith, unknown, no_class, held, cut), (n, head))

-- The part of the start behind the number of servers returns, with that number and the data directory.
pub client_init_kept :
    (hash : Text → ℕ) (env : Surroundings) (count leftover : Text) (s : Startup)
    → All (λ c. c ≢ 0) leftover
    → env.leftover ≡ some leftover
    → s.my_address ≡ none
    → s.has_class ≡ false
    → (t : Startup) × (set_up hash env count s ≡ ok t)
      × (t.server_count ≡ to_unsigned 32 (atoi count))
      × (t.data_dir ≡ elim env.hvac_data_dir [ none ↦ s.data_dir | some d ↦ some (c_str d) ])
      × (t.disable_redirect ≡ false)
      × (t.ring ≡ server_ring hash t.server_count virtual_node_cnt)
      × (t.initialized ≡ true)
      × (t.init_mutex_held ≡ false)
      × (t.my_address ≡ none)
      × ((n : ℕ) × (t.client_address ≡ take n leftover))
unfolding set_up
client_init_kept hash env count leftover s clean held unknown no_class =
    let servers = to_unsigned 32 (atoi count) in
    let dir : Option Text = elim env.hvac_data_dir [
      | none ↦ s.data_dir
      | some d ↦ some (c_str d)
    ] in
    let s₁ : Startup = record s {
      server_count = servers;
      data_dir = dir;
      ring = server_ring hash servers virtual_node_cnt;
    } in
    let (written, found, head) = get_addr-leftover env leftover s₁ clean held unknown no_class in
    (
      record s₁ {
        my_address = none;
        client_address = c_str written;
        client_rank = rank_of env.horovod_rank;
        initialized = true;
        init_mutex_held = false;
        disable_redirect = false;
      },
      ap
          (λ (m : Run Startup). m >>= λ s'.
            ok
              (record s' { initialized = true; init_mutex_held = false; disable_redirect = false }))
          found,
      refl,
      refl,
      refl,
      refl,
      refl,
      refl,
      refl,
      head,
    )

-- `atoi` gives a value of the range of `int`.
pub atoi-FitsInt32 : (s : Text) → FitsInt32 (atoi s)
unfolding atoi
atoi-FitsInt32 s = elim (Option-cases (scan_signed (skip_space s))) [
  | inl none_there ↦ rw (none_there, atoi) (omega arith, omega arith)
  | inr ((n, rest), found) ↦ rw (found, atoi) (to_int32-FitsInt32 n)
]
