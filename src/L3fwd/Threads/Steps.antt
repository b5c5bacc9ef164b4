-- ===== src/L3fwd/Threads/Steps.antt =====
-- All orders of the steps of l3fwd/main.c and l3fwd/worker.c: what each step leaves and
-- what each state that is reached is like.
use mathlib.Core.Path.{subst}
use my_l3fwd.Prelude.{
  List, ℕ, suc, ◌+◌, ◌≤◌, ◌<◌, ◌≡◌, inl, inr, refl, sym, ◌∙◌, ap, arith, true, some, none, length,
  Bool-cases,
}
use my_l3fwd.Prelude.Family.{update_self, update_other, sum_step}
use my_l3fwd.Rpc.{Context}
use my_l3fwd.L3fwd.Threads.{
  Process, System, passed, all_arrived, can_act, thread_next, Step, main_acts, thread_acts, Run,
  begin, later, initial,
}
use my_l3fwd.L3fwd.Threads.Invariant.{Load, Fed, Holds, is_created, registered, work}
use my_l3fwd.L3fwd.Threads.Acts.{act-Acts}
use my_l3fwd.L3fwd.Threads.Good.{MainAt, moved, Good}
use my_l3fwd.L3fwd.Threads.Safe.{moved-Good}
use my_l3fwd.L3fwd.Threads.Creates.{steps_left, Kept, main_next-Kept}

-- The parameters number the threads, there is fuel, and each thread has its load.
pub record Loaded (g : Process) (loads : ℕ → Load) : Type 0 where
  pub fuel : 0 < g.fuel
  pub ids : (i : ℕ) → i < g.num_threads → (g.params i).id ≡ i
  pub fed : (i : ℕ) → i < g.num_threads → Fed (loads i) (g.hw i) (g.locals i) (g.machine i)

module _ (g : Process) (loads : ℕ → Load) (loaded : Loaded g loads) where
  -- A thread that can act does so.
  pub thread_acts-Kept :
      (s : System)
      → Good g loads s
      → (i : ℕ) → i < g.num_threads
      → can_act (all_arrived g.num_threads s.phases) (s.phases i) ≡ true
      → (s' : System) × (thread_next g i s ≡ some s') × Kept g loads s s'
  unfolding thread_next steps_left
  thread_acts-Kept s good i lt can =
      let le = good.in_qps in
      let le' = good.in_buffers in
      let (r, e, acts) =
        act-Acts g loads i (all_arrived g.num_threads s.phases) s.shared (loaded.ids i lt)
          loaded.fuel (loaded.fed i lt) (omega (arith, le, lt)) (omega (arith, le', lt))
          (s.phases i) (good.threads i lt) can in
      let here : work g loads i (s.phases i) ≡ suc (work g loads i ((moved i r s).phases i)) =
        acts.lowers ∙ ap (λ x. suc (work g loads i x)) (sym (update_self s.phases i (r.1))) in
      let total =
        sum_step g.num_threads i (λ j. work g loads j (s.phases j))
          (λ j. work g loads j ((moved i r s).phases j)) lt here
          (λ j _ apart. ap (work g loads j) (sym (update_other s.phases i j (r.1) apart))) in
      (
        moved i r s,
        rw (can, e),
        record { good = moved-Good g loads s good i lt can acts; less = omega (arith, total) },
      )

  thread_next-Kept :
      (s : System)
      → Good g loads s
      → (i : ℕ) → i < g.num_threads
      → {s' : System} → thread_next g i s ≡ some s'
      → Kept g loads s s'
  unfolding thread_next
  thread_next-Kept s good i lt {s'} h =
      elim (Bool-cases (can_act (all_arrived g.num_threads s.phases) (s.phases i))) [
        | inl can ↦
            let (s₁, e, kept) = thread_acts-Kept s good i lt can in
            let same : s₁ ≡ s' = cc in subst (Kept g loads s) same kept
        | inr waits ↦ let here : thread_next g i s ≡ none = rw waits in absurd (cc)
      ]

  pub Step-Kept : {s s' : System} → Good g loads s → Step g s s' → Kept g loads s s'
  Step-Kept {s} good (main_acts e) = main_next-Kept g loads s good s.main_at refl e
  Step-Kept {s} good (thread_acts i lt e) = thread_next-Kept s good i lt e

  -- The steps made and the steps that are left are as many in each state of a run.
  pub Run-Kept :
      {s₀ s : System} {k : ℕ}
      → Good g loads s₀
      → Run g s₀ k s
      → Good g loads s × (k + steps_left g loads s ≡ steps_left g loads s₀)
  Run-Kept good begin = (good, omega arith)
  Run-Kept good (later r step) =
      let (before, count) = Run-Kept good r in
      let kept = Step-Kept before step in
      let one = kept.less in (kept.good, omega (arith, count, one))

  pub initial-Good :
      (c : Context) (check : ℕ) (table : List ℕ)
      → g.num_threads ≤ length c.qps
      → g.num_threads ≤ length c.app_buffers
      → Good g loads (initial g c check table)
  unfolding Holds passed MainAt is_created registered
  initial-Good c check table in_qps in_buffers = record {
    threads = λ i lt. tt;
    in_qps = in_qps;
    in_buffers = in_buffers;
    barrier = λ i j in_i in_j came. absurd (cc);
    table = λ i lt h. absurd (cc);
    main_at = (λ j le. refl, λ j le ok. absurd (omega arith));
  }
