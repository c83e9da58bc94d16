-- ===== src/Earlier/Startup.antt =====
-- backup/hvac_client.cpp: the earlier `hvac_client_init`, which needs a rank, ends the process where the
-- number of servers is missing, and sets no ring up.
use hvac_checkpoint.Common.{
  ℕ, ◌≡◌, ◌≢◌, refl, sym, ◌⊎◌, inl, inr, Bool, true, false, Option, none, some, if◌then◌else◌, All,
  arith, Option-cases,
}
use hvac_checkpoint.Common.Int.{to_unsigned}
use hvac_checkpoint.Common.Text.{Text, c_str}
use hvac_checkpoint.Common.Run.{Run, ok, fault, blocked, exited, undefined}
use hvac_checkpoint.Startup.{atoi, Surroundings, Startup, before_init}
use hvac_checkpoint.Startup
use hvac_checkpoint.Startup.Laws.{client_init_kept}

-- `PMI_RANK` is read for the log alone; without it a null pointer is.
unfoldable pub client_init : Option Text → Surroundings → Startup → Run Startup
client_init pmi_rank env s =
    let dir : Option Text = elim env.hvac_data_dir [
      | none ↦ s.data_dir
      | some d ↦ some (c_str d)
    ] in
    if s.init_mutex_held then fault blocked else if s.initialized then ok s else elim pmi_rank [
      | none ↦ fault undefined
      | some rank_str ↦ elim env.hvac_server_count [
        | none ↦ fault exited
        | some count ↦ ok (record s {
          server_count = to_unsigned 32 (atoi count);
          data_dir = dir;
          initialized = Bool.true;
          init_mutex_held = Bool.false;
          disable_redirect = Bool.false;
        })
      ]
    ]

-- Where the rank is in the environment and the uninitialised buffer of `hvac_get_addr` holds a text, the earlier and the
-- later start of a client from the state that the loader leaves differ only where the number of servers
-- is missing: there the earlier one ends the process, and the later one returns with the redirection off;
-- elsewhere both return with the same number of servers, the same data directory and the redirection on.
pub client_init-earlier :
    (hash : Text → ℕ) (rank_str leftover : Text) (env : Surroundings)
    → All (λ c. c ≢ 0) leftover
    → env.leftover ≡ some leftover
    → ((env.hvac_server_count ≡ none)
        × (client_init (some rank_str) env before_init ≡ fault exited)
        × (t : Startup) × (Startup.client_init hash env before_init ≡ ok t)
        × (t.disable_redirect ≡ true))
      ⊎ ((s t : Startup) × (client_init (some rank_str) env before_init ≡ ok s)
          × (Startup.client_init hash env before_init ≡ ok t)
          × (s.server_count ≡ t.server_count)
          × (s.data_dir ≡ t.data_dir)
          × (s.disable_redirect ≡ false)
          × (t.disable_redirect ≡ false))
unfolding client_init Startup.client_init
client_init-earlier hash rank_str leftover env clean held =
    elim (Option-cases env.hvac_server_count) [
      | inl absent ↦ inl (
        absent,
        ground (arith, absent),
        record before_init { init_mutex_held = true },
        rw (absent, Startup.client_init) refl,
        refl,
      )
      | inr (count, present) ↦
          let locked : Startup = record before_init { init_mutex_held = true } in
          let (t, run, servers, dir, on, _, _, _, _, _) =
            client_init_kept hash env count leftover locked clean held refl refl in
          inr (
            record before_init {
              server_count = to_unsigned 32 (atoi count);
              data_dir = elim env.hvac_data_dir [ none ↦ none | some d ↦ some (c_str d) ];
              initialized = true;
              init_mutex_held = false;
              disable_redirect = false;
            },
            t,
            ground (arith, present),
            ground (arith, present, run),
            sym servers,
            sym dir,
            refl,
            on,
          )
    ]
