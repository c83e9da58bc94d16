-- ===== src/Client/Seeks.antt =====
-- hvac_comm_client.cpp: `hvac_seek_cb` and `hvac_seek_block` when seeks overlap. `done` and `read_ret`
-- are globals, and `hvac_client_comm_gen_seek_rpc` resets them for every seek.
use hvac_checkpoint.Common.{
  suc, ◌+◌, ◌%◌, ◌^◌, ◌<◌, ◌≡◌, List, [], ◌∷◌, if◌then◌else◌, ◌==◌, length, arith,
}
use hvac_checkpoint.Common.Int.{ℤ}
use hvac_checkpoint.Common.Run.{Run, ok, fault, blocked, ◌>>=◌}
use hvac_checkpoint.Client.{answered}
use hvac_checkpoint.Client.Calls.{SeekState, seek_reset, seek_cb, seek_block}

-- The callbacks of the seeks that are under way, in the order of their answers.
unfoldable pub deliver : List ℤ → SeekState → Run SeekState
deliver [] s = ok s
deliver (ret ∷ rets) s = seek_cb (answered ret) s >>= deliver rets

-- The answer that came last.
abbrev pub last_answer : ℤ → List ℤ → ℤ
last_answer r [] = r
last_answer r (ret ∷ rets) = last_answer ret rets

deliver_lem :
    (rets : List ℤ) (s : SeekState)
    → s.done < 2 ^ 8
    → deliver rets s
      ≡ ok
          (record { done = (s.done + length rets) % 2 ^ 8; read_ret = last_answer s.read_ret rets })
unfolding deliver seek_cb
deliver_lem [] s h = ground arith
deliver_lem (ret ∷ rets) s h =
    let t : SeekState = record { done = (s.done + 1) % 2 ^ 8; read_ret = ret } in
    let same : (t.done + length rets) % 2 ^ 8 ≡ (s.done + suc (length rets)) % 2 ^ 8 =
      omega arith in
    rw (← same) (deliver_lem rets t (omega arith))

-- A wait that starts after the answers to seeks that were all under way at the last reset returns
-- for exactly one answer, with it; for two and more it never ends, since `done` has gone past
-- `HG_TRUE`, and for none it waits on. (`done` comes round after 256 answers.)
pub seek_block-deliver :
    (rets : List ℤ)
    → (deliver rets seek_reset >>= seek_block) ≡ (
        if length rets % 2 ^ 8 == 1
        then ok (last_answer seek_reset.read_ret rets)
        else fault blocked)
unfolding seek_block
seek_block-deliver rets = ground (arith, deliver_lem rets seek_reset (omega arith))
