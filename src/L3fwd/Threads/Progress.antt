-- ===== src/L3fwd/Threads/Progress.antt =====
-- Some thread or `main` can always act until `main` has returned (l3fwd/main.c, l3fwd/worker.c).
use mathlib.Core.Path.{subst}
use my_l3fwd.Prelude.{
  some, ℕ, ◌+◌, ◌<◌, ◌≡◌, ◌⊎◌, inl, inr, refl, sym, arith, Bool, true, false, ltb, Bool-cases,
  if◌then◌else◌,
}
use my_l3fwd.Prelude.Family.{update}
use my_l3fwd.Rpc.{Context}
use my_l3fwd.L3fwd.Threads.{
  Process, System, Phase, not_created, created, with_buffer, at_barrier, in_loop, ended, failed,
  arrived, has_ended, all_arrived, can_act, main_next, join_returns, MainPhase, creating, joining,
  returned, Step, main_acts, thread_acts,
}
use my_l3fwd.L3fwd.Threads.Invariant.{Load, Holds, is_created}
use my_l3fwd.L3fwd.Threads.Good.{MainAt, Good, all_arrived_cases}
use my_l3fwd.L3fwd.Threads.Steps.{Loaded, thread_acts-Kept}

module _ (g : Process) (loads : ℕ → Load) (loaded : Loaded g loads) where
  -- A thread that has been created acts when it has not arrived at the barrier, and also when the
  -- barrier is open and it has not ended.
  acts_before :
      (i : ℕ) (c : Context) (opened : Bool) (ph : Phase)
      → Holds g loads i c ph
      → is_created ph ≡ true
      → arrived ph ≡ false
      → can_act opened ph ≡ true
  unfolding Holds is_created arrived can_act
  acts_before i c opened not_created h made away = cc
  acts_before i c opened (created m) h made away = refl
  acts_before i c opened (with_buffer buf m) h made away = refl
  acts_before i c opened (at_barrier buf m) h made away = cc
  acts_before i c opened (in_loop buf t nb m) h made away = refl
  acts_before i c opened (ended count m) h made away = cc
  acts_before i c opened failed h made away = absurd h

  acts_through :
      (i : ℕ) (c : Context) (ph : Phase)
      → Holds g loads i c ph
      → is_created ph ≡ true
      → has_ended ph ≡ false
      → can_act true ph ≡ true
  unfolding Holds is_created has_ended can_act
  acts_through i c not_created h made more = cc
  acts_through i c (created m) h made more = refl
  acts_through i c (with_buffer buf m) h made more = refl
  acts_through i c (at_barrier buf m) h made more = refl
  acts_through i c (in_loop buf t nb m) h made more = refl
  acts_through i c (ended count m) h made more = cc
  acts_through i c failed h made more = absurd h

  acting :
      (s : System)
      → Good g loads s
      → (i : ℕ) → i < g.num_threads
      → can_act (all_arrived g.num_threads s.phases) (s.phases i) ≡ true
      → (s' : System) × Step g s s'
  acting s good i lt can =
      let (s', e, kept) = thread_acts-Kept g loads loaded s good i lt can in
      (s', thread_acts i lt e)

  -- When all threads are there and one has not ended, one can act.
  some_acts :
      (s : System)
      → Good g loads s
      → ((j : ℕ) → j < g.num_threads → is_created (s.phases j) ≡ true)
      → (i : ℕ) → i < g.num_threads
      → has_ended (s.phases i) ≡ false
      → (s' : System) × Step g s s'
  some_acts s good made i lt more = elim (all_arrived_cases g.num_threads s.phases) [
    | inl all ↦
        let can =
          acts_through i s.shared.context (s.phases i) (good.threads i lt) (made i lt) more in
        acting s good i lt (subst (λ b. can_act b (s.phases i) ≡ true) (sym all) can)
    | inr (j, in_j, away) ↦
        acting s good j in_j
          (acts_before j s.shared.context _ (s.phases j) (good.threads j in_j) (made j in_j) away)
  ]

  joins_next :
      (s : System) (i : ℕ)
      → s.main_at ≡ joining i
      → ltb i g.num_threads ≡ true
      → join_returns g i (s.phases i) ≡ true
      → main_next g s ≡ some (record s { main_at = joining (i + 1) })
  unfolding main_next
  joins_next s i at less joins = rw (at, less, joins)

  -- With every thread created, the program makes a step until `main` has returned.
  pub never_stuck :
      (s : System)
      → Good g loads s
      → ((j : ℕ) → j < g.num_threads → g.create_ok j ≡ true)
      → (at : MainPhase) → s.main_at ≡ at
      → (at ≡ returned) ⊎ ((s' : System) × Step g s s')
  unfolding main_next MainAt join_returns
  never_stuck s good ok (creating i) at = elim (Bool-cases (ltb i g.num_threads)) [
    | inl less ↦ inr (
      record s {
        main_at = creating (i + 1);
        phases = if g.create_ok i then update s.phases i (created (g.machine i)) else s.phases;
      },
      main_acts (rw (at, less)),
    )
    | inr over ↦ inr (record s { main_at = joining 0 }, main_acts (rw (at, over)))
  ]
  never_stuck s good ok (joining i) at =
      let (made, over) = subst (MainAt g s.phases) at good.main_at in
      elim (Bool-cases (ltb i g.num_threads)) [
        | inl less ↦ elim (Bool-cases (has_ended (s.phases i))) [
          | inl gone ↦
              let joins : join_returns g i (s.phases i) ≡ true =
                ground (arith, ok i (ground (arith, less)), gone) in
              inr (record s { main_at = joining (i + 1) }, main_acts (joins_next s i at less joins))
          | inr there ↦
              inr (
                some_acts s good (λ j in_j. made j in_j (ok j in_j)) i (ground (arith, less)) there)
        ]
        | inr last ↦ inr (record s { main_at = returned }, main_acts (rw (at, last)))
      ]
  never_stuck s good ok returned at = inl refl
