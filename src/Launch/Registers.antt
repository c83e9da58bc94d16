-- ===== src/Launch/Registers.antt =====
-- hvac_comm.cpp and hvac_comm_client.cpp: the registrations, one after the other.
use hvac_checkpoint.Common.{
  ◌≡◌, refl, ap, sym, ◌∙◌, ◌≢◌, true, List, [], ◌∷◌, All, ℕ_discrete, arith,
}
use hvac_checkpoint.Common.Run.{ok}
use mathlib.Core.Path.{subst}
use hvac_checkpoint.Launch.{
  RpcCall, read_call, open_call, close_call, seek_call, MercurySetup, RpcIds, assert_disabled,
  rpc_register, open_rpc_register, close_rpc_register, seek_rpc_register, register_rpcs,
  client_comm_register_rpc,
}
use hvac_checkpoint.Launch.Laws.{rpc_name, is_answered, RegisterLaws, call_id, Serves, ServesAll}

module _ (hg : MercurySetup) (laws : RegisterLaws hg) where
  open laws use {handler_at, answers_at}

  -- From one class to the next, the call has been registered.
  record Registered (call : RpcCall) (c c' : hg.Class) : Type 0 where
    mine : Serves hg laws c' call
    kept :
        (other : RpcCall)
        → call_id hg laws other ≢ call_id hg laws call
        → (handler_at c' (call_id hg laws other) ≡ handler_at c (call_id hg laws other))
          × (answers_at c' (call_id hg laws other) ≡ answers_at c (call_id hg laws other))

  Registered-Serves :
      (call : RpcCall) (calls : List RpcCall) (c c' : hg.Class)
      → Registered call c c'
      → All (Serves hg laws c) calls
      → All (Serves hg laws c') calls
  Registered-Serves call [] c c' r served = tt
  Registered-Serves call (other ∷ calls) c c' r served = (
    elim (ℕ_discrete (call_id hg laws other) (call_id hg laws call)) [
      | yes same ↦ subst (Serves hg laws c') (sym (laws.distinct other call same)) r.mine
      | no ne ↦ ((r.kept other ne).0 ∙ served.0.0, (r.kept other ne).1 ∙ served.0.1)
    ],
    Registered-Serves call calls c c' r served.1,
  )

  -- A registration with an answer.
  after_register : RpcCall → hg.Class → hg.Class
  after_register call c = (hg.register c (rpc_name call) call).1

  register-Registered :
      (call : RpcCall) (c : hg.Class)
      → is_answered call ≡ true
      → Registered call c (after_register call c)
  unfolding after_register
  register-Registered call c answered =
      let (_, handler, answers) = laws.registers c (rpc_name call) call in
      record {
        mine = (handler, answers ∙ sym answered);
        kept = λ j ne. laws.registers_other c (rpc_name call) call (call_id hg laws j) ne;
      }

  register_id :
      (call : RpcCall) (c : hg.Class)
      → hg.register c (rpc_name call) call ≡ (call_id hg laws call, after_register call c)
  unfolding after_register
  register_id call c =
      ap (λ i. (i, (hg.register c (rpc_name call) call).1))
        (laws.registers c (rpc_name call) call).0

  rpc_register_lem :
      (c : hg.Class)
      → rpc_register hg c ≡ ok (call_id hg laws read_call, after_register read_call c)
  unfolding rpc_register
  rpc_register_lem c = ap ok (register_id read_call c)

  open_rpc_register_lem :
      (c : hg.Class)
      → open_rpc_register hg c ≡ ok (call_id hg laws open_call, after_register open_call c)
  unfolding open_rpc_register
  open_rpc_register_lem c = ap ok (register_id open_call c)

  seek_rpc_register_lem :
      (c : hg.Class)
      → seek_rpc_register hg c ≡ ok (call_id hg laws seek_call, after_register seek_call c)
  unfolding seek_rpc_register
  seek_rpc_register_lem c = ap ok (register_id seek_call c)

  -- The close call is registered, and then its answers are disabled.
  after_close : hg.Class → hg.Class
  after_close c = (hg.disable_response (after_register close_call c) (call_id hg laws close_call)).1

  close-Registered : (c : hg.Class) → Registered close_call c (after_close c)
  unfolding after_close after_register
  close-Registered c =
      let name = rpc_name close_call in
      let c₁ = (hg.register c name close_call).1 in
      let (_, handler, _) = laws.registers c name close_call in
      let (_, handler', answers') =
        laws.disables c₁ (call_id hg laws close_call) close_call handler in
      record {
        mine = (handler', answers');
        kept = λ j ne.
            let (h₁, a₁) = laws.registers_other c name close_call (call_id hg laws j) ne in
            let (h₂, a₂) =
              laws.disables_other c₁ (call_id hg laws close_call) (call_id hg laws j) ne in
            (h₂ ∙ h₁, a₂ ∙ a₁);
      }

  close_rpc_register_lem :
      (c : hg.Class) → close_rpc_register hg c ≡ ok (call_id hg laws close_call, after_close c)
  unfolding close_rpc_register assert_disabled after_close after_register
  close_rpc_register_lem c =
      let name = rpc_name close_call in
      let c₁ = (hg.register c name close_call).1 in
      let (id, handler, _) = laws.registers c name close_call in
      let (code, _, _) = laws.disables c₁ (call_id hg laws close_call) close_call handler in
      ground (arith, id, code)

  by_call :
      (c : hg.Class)
      → Serves hg laws c read_call
      → Serves hg laws c open_call
      → Serves hg laws c close_call
      → Serves hg laws c seek_call
      → ServesAll hg laws c
  by_call c r o cl s read_call = r
  by_call c r o cl s open_call = o
  by_call c r o cl s close_call = cl
  by_call c r o cl s seek_call = s

  -- The registrations of a server leave a class that serves every call.
  pub register_rpcs-ServesAll :
      (c : hg.Class) → (c' : hg.Class) × (register_rpcs hg c ≡ ok c') × ServesAll hg laws c'
  unfolding register_rpcs
  register_rpcs-ServesAll c =
      let c₁ = after_register read_call c in
      let c₂ = after_register open_call c₁ in
      let c₃ = after_close c₂ in
      let c₄ = after_register seek_call c₃ in
      let all =
        Registered-Serves seek_call (close_call ∷ open_call ∷ read_call ∷ []) c₃ c₄
          (register-Registered seek_call c₃ refl)
          (let r₃ = close-Registered c₂ in
            let r₂ = register-Registered open_call c₁ refl in
            let r₁ = register-Registered read_call c refl in
            let s₂ = Registered-Serves open_call (read_call ∷ []) c₁ c₂ r₂ (r₁.mine, tt) in
            (
              r₃.mine,
              Registered-Serves close_call (open_call ∷ read_call ∷ []) c₂ c₃ r₃ (r₂.mine, s₂),
            )) in
      (
        c₄,
        rw (
          rpc_register_lem c,
          register_rpcs,
          open_rpc_register_lem c₁,
          close_rpc_register_lem c₂,
          seek_rpc_register_lem c₃,
        ),
        by_call c₄ all.1.1.0 all.1.0 all.0 (register-Registered seek_call c₃ refl).mine,
      )

  -- A client's registrations return, and give each call the id that depends on its name alone.
  pub client_comm_register_rpc_lem :
      (c : hg.Class)
      → (ids : RpcIds) × (c' : hg.Class) × (client_comm_register_rpc hg c ≡ ok (ids, c'))
        × (ids.rpc_id ≡ call_id hg laws read_call)
        × (ids.open_id ≡ call_id hg laws open_call)
        × (ids.close_id ≡ call_id hg laws close_call)
        × (ids.seek_id ≡ call_id hg laws seek_call)
  unfolding client_comm_register_rpc
  client_comm_register_rpc_lem c =
      let c₁ = after_register open_call c in
      let c₂ = after_register read_call c₁ in
      let c₃ = after_close c₂ in
      (
        record {
          open_id = call_id hg laws open_call;
          rpc_id = call_id hg laws read_call;
          close_id = call_id hg laws close_call;
          seek_id = call_id hg laws seek_call;
        },
        after_register seek_call c₃,
        rw (
          open_rpc_register_lem c,
          client_comm_register_rpc,
          rpc_register_lem c₁,
          close_rpc_register_lem c₂,
          seek_rpc_register_lem c₃,
        ),
        refl,
        refl,
        refl,
        refl,
      )
