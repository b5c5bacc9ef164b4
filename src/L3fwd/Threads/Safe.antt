-- ===== src/L3fwd/Threads/Safe.antt =====
-- Every step of `main` (l3fwd/main.c) and of a thread (l3fwd/worker.c) keeps what holds of them, and
-- lowers the steps that are left by one.
use my_l3fwd.Prelude.{ℕ, ◌<◌, ◌≡◌, ◌≢◌, inl, inr, arith, true, false}
use my_l3fwd.Prelude.Family.{update_each}
use my_l3fwd.L3fwd.Threads.{
  Process, System, Shared, Phase, arrived, passed, has_ended, all_arrived, can_act, MainPhase,
  creating, joining, returned,
}
use my_l3fwd.L3fwd.Threads.Invariant.{Load, Holds, is_created, registered, addresses}
use my_l3fwd.L3fwd.Threads.Acts.{Acts}
use my_l3fwd.L3fwd.Threads.Good.{
  all_arrived_each, can_act-created, can_act-not_ended, MainAt, moved, Good, Holds-other,
}

module _ (g : Process) (loads : ℕ → Load) (s : System) (good : Good g loads s) (i : ℕ)
    (lt : i < g.num_threads)
    (can : can_act (all_arrived g.num_threads s.phases) (s.phases i) ≡ true) {r : Shared × Phase}
    (acts : Acts g loads i (all_arrived g.num_threads s.phases) s.shared (s.phases i) r) where
  -- A property that the step gives thread `i` and that the others have.
  at_each :
      (P : ℕ → Phase → Type 0) (j : ℕ)
      → P i (r.1)
      → (i ≢ j → P j (s.phases j))
      → P j ((moved i r s).phases j)
  at_each P j = update_each P s.phases i (r.1) j

  -- Once a thread has passed the barrier, all have arrived at it, and before the step too.
  all_before :
      (j : ℕ)
      → j < g.num_threads
      → passed ((moved i r s).phases j) ≡ true
      → (x : ℕ) → x < g.num_threads
      → arrived (s.phases x) ≡ true
  all_before j in_j came x in_x =
      at_each (λ y ph. y < g.num_threads → passed ph ≡ true → arrived (s.phases x) ≡ true) j
        (λ _ h. elim (acts.passes h) [
          | inl before ↦ good.barrier i x lt in_x before
          | inr opened ↦ all_arrived_each g.num_threads s.phases opened x in_x
        ])
        (λ apart in_y h. good.barrier j x in_y in_x h) in_j came

  arrived_after : (j : ℕ) → arrived (s.phases j) ≡ true → arrived ((moved i r s).phases j) ≡ true
  arrived_after j h =
      at_each (λ y ph. arrived (s.phases y) ≡ true → arrived ph ≡ true) j acts.arrives
        (λ apart q. q) h

  created_after :
      (j : ℕ) → is_created (s.phases j) ≡ true → is_created ((moved i r s).phases j) ≡ true
  created_after j h =
      at_each (λ y ph. is_created (s.phases y) ≡ true → is_created ph ≡ true) j (λ q. acts.exists)
        (λ apart q. q) h

  -- A thread that can act has been created and has not ended.
  ended_after : (j : ℕ) → has_ended (s.phases j) ≡ true → has_ended ((moved i r s).phases j) ≡ true
  ended_after j h =
      at_each (λ y ph. has_ended (s.phases y) ≡ true → has_ended ph ≡ true) j
        (λ q. absurd (can_act-not_ended _ (s.phases i) can q)) (λ _ q. q) h

  unborn_after :
      (j : ℕ) → is_created (s.phases j) ≡ false → is_created ((moved i r s).phases j) ≡ false
  unborn_after j h =
      at_each (λ y ph. is_created (s.phases y) ≡ false → is_created ph ≡ false) j
        (λ q. let made = can_act-created _ (s.phases i) can in absurd (cc)) (λ _ q. q) h

  MainAt-moved : (at : MainPhase) → MainAt g s.phases at → MainAt g (moved i r s).phases at
  unfolding MainAt
  MainAt-moved (creating k) h =
      (λ j le. unborn_after j (h.0 j le), λ j le ok. created_after j (h.1 j le ok))
  MainAt-moved (joining k) h =
      (λ j le ok. created_after j (h.0 j le ok), λ j le ok. ended_after j (h.1 j le ok))
  MainAt-moved returned h = λ j le ok. ended_after j (h j le ok)

  pub moved-Good : Good g loads (moved i r s)
  moved-Good = record {
    threads = λ j in_j.
        at_each (λ y ph. y < g.num_threads → Holds g loads y (r.0).context ph) j (λ _. acts.holds)
          (λ apart in_y.
            Holds-other g loads j (s.phases j) (acts.others j apart)
              (λ came. acts.still (good.barrier j i in_y lt came)) (good.threads j in_y))
          in_j;
    in_qps = let le = good.in_qps in let e = acts.kept_qps in omega (arith, le, e);
    in_buffers = let le = good.in_buffers in let e = acts.kept_buffers in omega (arith, le, e);
    barrier = λ j x in_j in_x came. arrived_after x (all_before j in_j came x in_x);
    table = λ j in_j.
        at_each (λ y ph. y < g.num_threads → registered ph ≡ true → (r.0).eth_table ≡ addresses) j
          (λ _ q. acts.fills (good.table i lt) q) (λ _ in_y q. acts.stays (good.table j in_y q))
          in_j;
    main_at = MainAt-moved s.main_at good.main_at;
  }
