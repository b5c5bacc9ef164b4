-- ===== src/L3fwd/Threads/Creates.antt =====
-- What the steps of `main` (l3fwd/main.c) keep while it creates and joins the threads.
use mathlib.Core.Path.{subst}
use native.Mathlib.Decide.{ℕ_discrete}
use my_l3fwd.Prelude.{
  ℕ, suc, ◌+◌, ◌-◌, ◌≤◌, ◌<◌, ◌≡◌, ◌≢◌, inl, inr, refl, sym, ap, arith, true, false, some, none,
  ltb, Bool-cases,
}
use my_l3fwd.Prelude.Family.{update, update_each, sum, sum_same}
use my_l3fwd.L3fwd.Threads.{
  Process, System, Phase, not_created, created, with_buffer, at_barrier, in_loop, ended, failed,
  passed, has_ended, main_next, join_returns, MainPhase, creating, joining, returned,
}
use my_l3fwd.L3fwd.Threads.Invariant.{Load, Holds, is_created, registered, addresses, work}
use my_l3fwd.L3fwd.Threads.Good.{arrived-created, MainAt, Good}

-- The steps that `main` still makes.
unfoldable pub left_of_main : (n : ℕ) → MainPhase → ℕ
left_of_main n (creating i) = n - i + (n + 2)
left_of_main n (joining i) = suc (n - i)
left_of_main n returned = 0

unfoldable pub steps_left : (g : Process) (loads : ℕ → Load) → System → ℕ
steps_left g loads s =
    left_of_main g.num_threads s.main_at + sum g.num_threads (λ i. work g loads i (s.phases i))

-- What a step leaves: the threads are well, and one step less is to be made.
pub record Kept (g : Process) (loads : ℕ → Load) (s s' : System) : Type 0 where
  pub good : Good g loads s'
  pub less : steps_left g loads s ≡ suc (steps_left g loads s')

work_unborn :
    (g : Process) (loads : ℕ → Load) (i : ℕ) (ph : Phase)
    → is_created ph ≡ false
    → work g loads i ph ≡ (loads i).pending + 4
unfolding is_created work
work_unborn g loads i not_created h = refl
work_unborn g loads i (created m) h = absurd (cc)
work_unborn g loads i (with_buffer buf m) h = absurd (cc)
work_unborn g loads i (at_barrier buf m) h = absurd (cc)
work_unborn g loads i (in_loop buf t nb m) h = absurd (cc)
work_unborn g loads i (ended count m) h = absurd (cc)
work_unborn g loads i failed h = absurd (cc)

module _ (g : Process) (loads : ℕ → Load) (s : System) (good : Good g loads s) where
  -- A step that only moves `main`.
  only_main :
      (at : MainPhase)
      → MainAt g s.phases at
      → left_of_main g.num_threads s.main_at ≡ suc (left_of_main g.num_threads at)
      → Kept g loads s (record s { main_at = at })
  unfolding steps_left
  only_main at h less = record {
    good = record {
      threads = good.threads;
      in_qps = good.in_qps;
      in_buffers = good.in_buffers;
      barrier = good.barrier;
      table = good.table;
      main_at = h;
    };
    less = omega (arith, less);
  }

  -- The creation of thread `i`.
  module _ (i : ℕ) (lt : i < g.num_threads)
      (unborn : (j : ℕ) → i ≤ j → is_created (s.phases j) ≡ false)
      (born : (j : ℕ) → j < i → g.create_ok j ≡ true → is_created (s.phases j) ≡ true) where
    abbrev with_thread : ℕ → Phase
    with_thread = update s.phases i (created (g.machine i))

    -- What the new thread has and the others had.
    at_each :
        (P : ℕ → Phase → Type 0) (j : ℕ)
        → P i (created (g.machine i))
        → (i ≢ j → P j (s.phases j))
        → P j (with_thread j)
    at_each P j = update_each P s.phases i (created (g.machine i)) j

    -- As long as thread `i` is missing no thread has passed the barrier.
    none_passed : (j : ℕ) → j < g.num_threads → passed (s.phases j) ≢ true
    none_passed j in_j came =
        let c = arrived-created (s.phases i) (good.barrier j i in_j lt came) in
        let u = unborn i (omega arith) in absurd (cc)

    create-Kept :
        s.main_at ≡ creating i
        → Kept g loads s (record s { main_at = creating (i + 1); phases = with_thread })
    unfolding steps_left left_of_main MainAt Holds is_created registered passed work
    create-Kept at = record {
      good = record {
        threads = λ j in_j.
            at_each (λ y ph. y < g.num_threads → Holds g loads y s.shared.context ph) j
              (λ _. record { wq = refl; cq = refl; flag = refl }) (λ _ in_y. good.threads j in_y)
              in_j;
        in_qps = good.in_qps;
        in_buffers = good.in_buffers;
        barrier = λ j x in_j in_x came. absurd (
            at_each (λ y ph. y < g.num_threads → passed ph ≢ true) j (λ _ h. absurd (cc))
              (λ _ in_y. none_passed j in_y) in_j came);
        table = λ j in_j.
            at_each
              (λ y ph. y < g.num_threads → registered ph ≡ true → s.shared.eth_table ≡ addresses) j
              (λ _ h. absurd (cc)) (λ _ in_y. good.table j in_y) in_j;
        main_at = (
          λ j le.
              at_each (λ y ph. suc i ≤ y → is_created ph ≡ false) j (λ le'. absurd (omega arith))
                (λ _ le'. unborn j (omega arith)) (omega arith),
          λ j le ok.
              at_each (λ y ph. y < suc i → g.create_ok y ≡ true → is_created ph ≡ true) j
                (λ _ _. refl) (λ apart le' ok'. born j (omega arith) ok') (omega arith) ok,
        );
      };
      less =
          let same =
            sum_same g.num_threads (λ j. work g loads j (s.phases j))
              (λ j. work g loads j (with_thread j))
              (λ j in_j.
                at_each (λ y ph. work g loads y (s.phases y) ≡ work g loads y ph) j
                  (work_unborn g loads i (s.phases i) (unborn i (omega arith))) (λ _. refl)) in
          let before : left_of_main g.num_threads s.main_at
              ≡ g.num_threads - i + (g.num_threads + 2) =
            ap (left_of_main g.num_threads) at in
          omega (arith, same, before, lt);
    }

  -- The next state is the one that `main_next` computes.
  Kept-of :
      {a s' : System}
      → main_next g s ≡ some a
      → main_next g s ≡ some s'
      → Kept g loads s a
      → Kept g loads s s'
  Kept-of {a} {s'} here h kept = let e : a ≡ s' = cc in subst (Kept g loads s) e kept

  creating-Kept :
      (i : ℕ)
      → s.main_at ≡ creating i
      → MainAt g s.phases (creating i)
      → {s' : System} → main_next g s ≡ some s'
      → Kept g loads s s'
  unfolding main_next MainAt left_of_main
  creating-Kept i at (unborn, born) h = elim (Bool-cases (ltb i g.num_threads)) [
    | inl less ↦
        let lt : i < g.num_threads = ground (arith, less) in
        elim (Bool-cases (g.create_ok i)) [
          | inl ok ↦ Kept-of (rw (at, less, ok)) h (create-Kept i lt unborn born at)
          | inr refused ↦
              let here : main_next g s ≡ some (record s { main_at = creating (i + 1) }) =
                rw (at, less, refused) in
              let at' : left_of_main g.num_threads s.main_at
                  ≡ g.num_threads - i + (g.num_threads + 2) =
                ap (left_of_main g.num_threads) at in
              Kept-of here h (
                only_main (creating (i + 1))
                  (
                    λ j le. unborn j (omega arith),
                    λ j le ok. elim (ℕ_discrete j i) [
                      | yes e ↦ let ok' = subst (λ x. g.create_ok x ≡ true) e ok in absurd (cc)
                      | no ne ↦ born j (omega arith) ok
                    ],
                  )
                  (omega (arith, at', lt)))
        ]
    | inr over ↦
        let ge : g.num_threads ≤ i = ground (arith, over) in
        let here : main_next g s ≡ some (record s { main_at = joining 0 }) = rw (at, over) in
        let at' : left_of_main g.num_threads s.main_at ≡ g.num_threads - i + (g.num_threads + 2) =
          ap (left_of_main g.num_threads) at in
        Kept-of here h (
          only_main (joining 0)
            (λ j le ok. born j (omega arith) ok, λ j le ok. absurd (omega arith))
            (omega (arith, at', ge)))
  ]

  -- A thread that was created has ended when the call that joins it returns.
  join-has_ended :
      (i : ℕ)
      → g.create_ok i ≡ true
      → join_returns g i (s.phases i) ≡ true
      → has_ended (s.phases i) ≡ true
  unfolding join_returns
  join-has_ended i ok h = ground (arith, ok, h)

  joining-Kept :
      (i : ℕ)
      → s.main_at ≡ joining i
      → MainAt g s.phases (joining i)
      → {s' : System} → main_next g s ≡ some s'
      → Kept g loads s s'
  unfolding main_next MainAt left_of_main
  joining-Kept i at (made, over) h = elim (Bool-cases (ltb i g.num_threads)) [
    | inl less ↦
        let lt : i < g.num_threads = ground (arith, less) in
        elim (Bool-cases (join_returns g i (s.phases i))) [
          | inl gone ↦
              let here : main_next g s ≡ some (record s { main_at = joining (i + 1) }) =
                rw (at, less, gone) in
              let at' : left_of_main g.num_threads s.main_at ≡ suc (g.num_threads - i) =
                ap (left_of_main g.num_threads) at in
              Kept-of here h (
                only_main (joining (i + 1))
                  (
                    made,
                    λ j le ok. elim (ℕ_discrete j i) [
                      | yes e ↦
                          subst (λ x. has_ended (s.phases x) ≡ true) (sym e)
                            (join-has_ended i (subst (λ x. g.create_ok x ≡ true) e ok) gone)
                      | no ne ↦ over j (omega arith) ok
                    ],
                  )
                  (omega (arith, at', lt)))
          | inr there ↦ let here : main_next g s ≡ none = rw (at, less, there) in absurd (cc)
        ]
    | inr last ↦
        let ge : g.num_threads ≤ i = ground (arith, last) in
        let here : main_next g s ≡ some (record s { main_at = returned }) = rw (at, last) in
        let at' : left_of_main g.num_threads s.main_at ≡ suc (g.num_threads - i) =
          ap (left_of_main g.num_threads) at in
        Kept-of here h
          (only_main returned (λ j le ok. over j (omega arith) ok) (omega (arith, at', ge)))
  ]

  pub main_next-Kept :
      (at : MainPhase)
      → s.main_at ≡ at
      → {s' : System} → main_next g s ≡ some s'
      → Kept g loads s s'
  unfolding main_next
  main_next-Kept (creating i) at h =
      creating-Kept i at (subst (MainAt g s.phases) at good.main_at) h
  main_next-Kept (joining i) at h = joining-Kept i at (subst (MainAt g s.phases) at good.main_at) h
  main_next-Kept returned at h = let here : main_next g s ≡ none = rw at in absurd (cc)
