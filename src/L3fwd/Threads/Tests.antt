-- ===== src/L3fwd/Threads/Tests.antt =====
-- Runs of two threads over one context, and instances of the theorems about the program.
use my_l3fwd.Prelude.{
  ℕ, ◌==◌, suc, ◌+◌, ◌<◌, ◌≡◌, ◌≢◌, ◌⊎◌, refl, sym, ◌∙◌, arith, Bool, true, false, Option, none,
  some, List, [], ◌∷◌, ltb, length, get_or, if◌then◌else◌, Bool-cases, inl, inr,
}
use mathlib.Core.Path.{subst}
use my_l3fwd.Nic.{rmc_hw_send, rmc_hw_recv, create_wq_entry, advance}
use my_l3fwd.Nic.Check.{rmc_check_cq, outer, inner, count_round, tick, classify, consume}
use my_l3fwd.Prelude.Family.{update}
use my_l3fwd.Nic.Tests.{request, one_pending, one_pending-Delivered}
use my_l3fwd.Rpc.{
  done, create_rpc_numa_context, qp_at, register_new_local_buffer, register_new_sonuma_qp,
  receive_rpc_request_zsim_l3fwd, poll_loop, send_to_node_zsim, send_loop, do_recv_zsim,
}
use my_l3fwd.L3fwd.{ThreadParams, serve_round, serve}
use my_l3fwd.L3fwd.Main.{start, launch, launched, thread_param}
use my_l3fwd.L3fwd.Tests.{
  one_request_only, one_request_only-Simulator, locals, locals-Benign, thread, no_entry,
  three_posts, all_granted, asked, context,
}
use my_l3fwd.L3fwd.Threads.{
  Process, System, main_next, join_returns, thread_next, all_arrived, arrived, can_act, passed,
  has_ended, act, Step, main_acts, thread_acts, Run, begin, later, initial, returned,
}
use my_l3fwd.L3fwd.Threads.Invariant.{Load, Fed}
use my_l3fwd.L3fwd.Threads.Missing.{missing_stuck}
use my_l3fwd.L3fwd.Threads.Program.{started, Safe, all_steps, program-Safe, program_returns}

abbrev two_params : List ThreadParams
two_params = thread_param thread asked 0 ∷ thread_param thread asked 1 ∷ []

abbrev process : Process
process = record {
  num_threads = 2;
  params = λ i. get_or two_params i thread;
  locals = λ i. locals;
  machine = λ i. one_pending;
  hw = λ i. one_request_only;
  fuel = 2;
  create_ok = λ i. true;
  unset_join = λ i. true;
}

abbrev one_each : ℕ → Load
one_each i = record { stream = λ j. request; stop = 1; first = 0; pending = 1; slot = 0 }

one_each-Fed : (i : ℕ) → Fed (one_each i) (process.hw i) (process.locals i) (process.machine i)
one_each-Fed i = record {
  sim = one_request_only-Simulator;
  sends = λ j h. refl;
  benign = locals-Benign;
  span = refl;
  delivered = one_pending-Delivered;
  going = refl;
  room = three_posts;
}

-- Who acts: `none` is `main`, `some i` is thread `i`.
module _ (g : Process) where
  unfoldable step_of : Option ℕ → System → Option System
  step_of none s = main_next g s
  step_of (some i) s = if ltb i g.num_threads then thread_next g i s else none

  unfoldable play : List (Option ℕ) → System → System
  play [] s = s
  play (who ∷ order) s = elim (step_of who s) [ none ↦ s | some s' ↦ play order s' ]

  unfoldable all_act : List (Option ℕ) → System → Bool
  all_act [] s = true
  all_act (who ∷ order) s = elim (step_of who s) [ none ↦ false | some s' ↦ all_act order s' ]

  step_of-Step : (who : Option ℕ) (s s' : System) → step_of who s ≡ some s' → Step g s s'
  unfolding step_of
  step_of-Step none s s' e = main_acts e
  step_of-Step (some i) s s' e = elim (Bool-cases (ltb i g.num_threads)) [
    | inl less ↦ thread_acts i (ground (arith, less)) (sym (rw less refl) ∙ e)
    | inr over ↦ let here : step_of (some i) s ≡ none = rw over in absurd (cc)
  ]

  -- A step, when one is made, and then what follows it.
  step-Run :
      (who : Option ℕ) (rest : System → Bool) (next : System → System) {s₀ : System} (s : System)
      {n : ℕ} (o : Option System)
      → step_of who s ≡ o
      → ((s' : System) → Step g s s' → rest s' ≡ true → Run g s₀ n (next s'))
      → elim o [ none ↦ false | some s' ↦ rest s' ] ≡ true
      → Run g s₀ n (elim o [ none ↦ s | some s' ↦ next s' ])
  step-Run who rest next s none e go all = absurd (cc)
  step-Run who rest next s (some s') e go all = go s' (step_of-Step who s s' e) all

  play-Run :
      (order : List (Option ℕ)) {s₀ : System} (s : System) {k : ℕ}
      → Run g s₀ k s
      → all_act order s ≡ true
      → Run g s₀ (k + length order) (play order s)
  unfolding play all_act
  play-Run [] {s₀} s {k} run all = subst (λ x. Run g s₀ x s) (omega arith) run
  play-Run (who ∷ order) {s₀} s {k} run all =
      step-Run who (all_act order) (play order) s (step_of who s) refl
        (λ s' step more.
          subst (λ x. Run g s₀ x (play order s')) (omega arith)
            (play-Run order s' {k = suc k} (later run step) more))
        all

abbrev begins : System
begins = initial process context 7 []

-- Thread 0 registers its buffer before thread 1 exists, and is the last to reach the barrier.
abbrev order : List (Option ℕ)
order =
    none
    ∷ some 0
    ∷ none
    ∷ some 1
    ∷ some 1
    ∷ some 0
    ∷ some 1
    ∷ some 1
    ∷ some 0
    ∷ none
    ∷ some 0
    ∷ some 0
    ∷ none
    ∷ some 1
    ∷ none
    ∷ none
    ∷ []

order_acts : all_act process order begins ≡ true
unfolding all_act step_of main_next thread_next has_ended join_returns all_arrived arrived can_act
    update act register_new_local_buffer register_new_sonuma_qp serve_round
    receive_rpc_request_zsim_l3fwd qp_at poll_loop rmc_check_cq outer inner count_round tick
    classify consume serve send_to_node_zsim send_loop do_recv_zsim rmc_hw_send rmc_hw_recv
    create_wq_entry advance thread_param create_rpc_numa_context
order_acts = refl

abbrev ends : System
ends = play process order begins

order-Run : Run process begins 16 ends
order-Run = play-Run process order begins begin order_acts

asked_launched : start all_granted no_entry thread asked ≡ done (launched context two_params)
unfolding start launch
asked_launched = refl

program-Safe_example : Safe (started asked thread two_params process) one_each ends
program-Safe_example =
    program-Safe all_granted no_entry thread asked (omega arith) (omega arith)
      (refl, refl, refl, refl, refl) process one_each (omega arith) (λ i lt. one_each-Fed i) 7 []
      context two_params asked_launched 16 ends order-Run

program_returns_example :
    ((16 < all_steps 2 one_each) × ((s' : System) × Step process ends s'))
    ⊎ ((16 ≡ all_steps 2 one_each) × (ends.main_at ≡ returned))
program_returns_example =
    program_returns all_granted no_entry thread asked (omega arith) (omega arith)
      (refl, refl, refl, refl, refl) process one_each (omega arith) (λ i lt. one_each-Fed i) 7 []
      (λ i lt. refl) context two_params asked_launched 16 ends order-Run

-- The second thread is refused: the first waits at the barrier, and `main` for it.
abbrev refusing : Process
refusing = record process { create_ok = λ i. i == 0 }

abbrev waiting_order : List (Option ℕ)
waiting_order = none ∷ none ∷ some 0 ∷ none ∷ some 0 ∷ []

abbrev refusing_begins : System
refusing_begins = initial refusing context 7 []

waiting_order_acts : all_act refusing waiting_order refusing_begins ≡ true
unfolding all_act step_of main_next thread_next has_ended join_returns all_arrived arrived can_act
    update act register_new_local_buffer register_new_sonuma_qp thread_param create_rpc_numa_context
waiting_order_acts = refl

missing_stuck_example :
    let s = play refusing waiting_order refusing_begins in
    (s.main_at ≢ returned)
    × ((i : ℕ) → (passed (s.phases i) ≡ false) × (has_ended (s.phases i) ≡ false))
missing_stuck_example =
    missing_stuck refusing 1 (omega arith) refl 0 (omega arith) refl context 7 []
      (play-Run refusing waiting_order refusing_begins begin waiting_order_acts)
