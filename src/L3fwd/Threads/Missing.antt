-- ===== src/L3fwd/Threads/Missing.antt =====
-- What becomes of the program of l3fwd/main.c when a `pthread_create` fails.
use mathlib.Core.Path.{subst}
use my_l3fwd.Prelude.{
  List, ℕ, ◌+◌, ◌≤◌, ◌<◌, ◌≡◌, ◌≢◌, inl, inr, refl, sym, arith, Bool, true, false, some, none, ltb,
  length, Bool-cases,
}
use my_l3fwd.Prelude.Family.{update, update_each}
use my_l3fwd.Rpc.{
  Outcome, done, throws, spins, Context, register_new_local_buffer, register_new_sonuma_qp,
}
use my_l3fwd.L3fwd.Threads.{
  Process, System, Shared, Phase, not_created, created, with_buffer, at_barrier, in_loop, ended,
  failed, act, passed, has_ended, all_arrived, can_act, thread_next, main_next, join_returns,
  MainPhase, creating, joining, returned, Step, main_acts, thread_acts, Run, begin, later, initial,
}
use my_l3fwd.L3fwd.Threads.Invariant.{is_created}
use my_l3fwd.L3fwd.Threads.Good.{
  all_arrived_each, arrived-created, can_act-created, not_passed-not_ended, moved,
}

-- Where `main` can be while thread `j` waits.
HeldAt : (j : ℕ) → MainPhase → Type 0
HeldAt j (creating i) = Unit
HeldAt j (joining i) = i ≤ j
HeldAt j returned = ⊥

-- While thread `j` is missing, no thread has come through the barrier.
record Held (j other : ℕ) (s : System) : Type 0 where
  missing : is_created (s.phases j) ≡ false
  waiting : (i : ℕ) → passed (s.phases i) ≡ false
  stuck : HeldAt other s.main_at

-- Behind a closed barrier a step brings no thread through.
act_closed :
    (g : Process) (i : ℕ) (s : Shared) (ph : Phase)
    → can_act false ph ≡ true
    → passed ph ≡ false
    → (r : Shared × Phase) → act g i s ph ≡ done r
    → passed (r.1) ≡ false
unfolding act can_act passed register_new_local_buffer register_new_sonuma_qp
act_closed g i s not_created can here r e = absurd (cc)
act_closed g i s (created m) can here r e =
    elim (Bool-cases (ltb (g.params i).id (length s.context.app_buffers))) [
      | inl less ↦ ground (arith, e, less)
      | inr over ↦ ground (arith, e, over)
    ]
act_closed g i s (with_buffer buf m) can here r e =
    elim (Bool-cases (ltb (g.params i).id (length s.context.qps))) [
      | inl less ↦ ground (arith, e, less)
      | inr over ↦ ground (arith, e, over)
    ]
act_closed g i s (at_barrier buf m) can here r e = absurd (cc)
act_closed g i s (in_loop buf t nb m) can here r e = absurd (cc)
act_closed g i s (ended count m) can here r e = absurd (cc)
act_closed g i s failed can here r e = absurd (cc)

module _ (g : Process) (j : ℕ) (in_j : j < g.num_threads) (refused : g.create_ok j ≡ false)
    (other : ℕ) (in_other : other < g.num_threads) (made : g.create_ok other ≡ true) where
  closed : (s : System) → Held j other s → all_arrived g.num_threads s.phases ≡ false
  closed s held = elim (Bool-cases (all_arrived g.num_threads s.phases)) [
    | inl all ↦
        let made =
          arrived-created (s.phases j) (all_arrived_each g.num_threads s.phases all j in_j) in
        let missing = held.missing in absurd (cc)
    | inr none_yet ↦ none_yet
  ]

  -- Another thread is put where it has not come through the barrier.
  put-Held :
      (s s' : System) (i : ℕ) (ph : Phase)
      → Held j other s
      → i ≢ j
      → passed ph ≡ false
      → s'.phases ≡ update s.phases i ph
      → HeldAt other s'.main_at
      → Held j other s'
  put-Held s s' i ph held apart here e at = record {
    missing =
        subst (λ (f : ℕ → Phase). is_created (f j) ≡ false) (sym e)
          (update_each (λ y x. i ≢ y → is_created (s.phases y) ≡ false → is_created x ≡ false)
            s.phases i ph j (λ ne. absurd (ne refl)) (λ _ _ q. q) apart held.missing);
    waiting = λ x.
        subst (λ (f : ℕ → Phase). passed (f x) ≡ false) (sym e)
          (update_each (λ y z. passed z ≡ false) s.phases i ph x here (λ _. held.waiting x));
    stuck = at;
  }

  can_act-apart :
      (s : System)
      → Held j other s
      → (i : ℕ) (opened : Bool) → can_act opened (s.phases i) ≡ true
      → i ≢ j
  can_act-apart s held i opened can e =
      let made =
        subst (λ x. is_created (s.phases x) ≡ true) e (can_act-created opened (s.phases i) can) in
      let missing = held.missing in absurd (cc)

  -- What a thread that can act comes to.
  acted-Held :
      (s : System)
      → Held j other s
      → (i : ℕ) → can_act (all_arrived g.num_threads s.phases) (s.phases i) ≡ true
      → (o : Outcome (Shared × Phase)) → act g i s.shared (s.phases i) ≡ o
      → {s' : System} → thread_next g i s ≡ some s'
      → Held j other s'
  unfolding thread_next passed
  acted-Held s held i can (done r) e {s'} h =
      let here : thread_next g i s ≡ some (moved i r s) = rw (can, e) in
      let can' = subst (λ b. can_act b (s.phases i) ≡ true) (closed s held) can in
      let same : moved i r s ≡ s' = cc in
      subst (Held j other) same (
        put-Held s (moved i r s) i (r.1) held (can_act-apart s held i _ can)
          (act_closed g i s.shared (s.phases i) can' (held.waiting i) r e) refl held.stuck)
  acted-Held s held i can throws e {s'} h =
      let crashed : System = record s { phases = update s.phases i failed } in
      let here : thread_next g i s ≡ some crashed = rw (can, e) in
      let same : crashed ≡ s' = cc in
      subst (Held j other) same
        (put-Held s crashed i failed held (can_act-apart s held i _ can) refl refl held.stuck)
  acted-Held s held i can spins e {s'} h =
      let here : thread_next g i s ≡ some s = rw (can, e) in
      let same : s ≡ s' = cc in subst (Held j other) same held

  -- A step that only moves `main`.
  only_main-Held :
      (s : System) {s' : System}
      → Held j other s
      → (at : MainPhase) → HeldAt other at
      → main_next g s ≡ some (record s { main_at = at })
      → main_next g s ≡ some s'
      → Held j other s'
  only_main-Held s {s'} held at h here there =
      let same : record s { main_at = at } ≡ s' = cc in
      subst (Held j other) same
        (record { missing = held.missing; waiting = held.waiting; stuck = h })

  main_next-Held :
      (s : System) {s' : System}
      → Held j other s
      → (at : MainPhase) → s.main_at ≡ at
      → HeldAt other at
      → main_next g s ≡ some s'
      → Held j other s'
  unfolding main_next HeldAt passed join_returns
  main_next-Held s {s'} held (creating i) e h there = elim (Bool-cases (ltb i g.num_threads)) [
    | inl less ↦ elim (Bool-cases (g.create_ok i)) [
      | inl ok ↦
          let phases' = update s.phases i (created (g.machine i)) in
          let next : System = record s { main_at = creating (i + 1); phases = phases' } in
          let here : main_next g s ≡ some next = rw (e, less, ok) in
          let same : next ≡ s' = cc in
          subst (Held j other) same (
            put-Held s next i (created (g.machine i)) held
              (λ q. let ok' = subst (λ x. g.create_ok x ≡ true) q ok in absurd (cc)) refl refl tt)
      | inr fails ↦ only_main-Held s held (creating (i + 1)) tt (rw (e, less, fails)) there
    ]
    | inr over ↦ only_main-Held s held (joining 0) (omega arith) (rw (e, over)) there
  ]
  main_next-Held s {s'} held (joining i) e h there = elim (Bool-cases (ltb i g.num_threads)) [
    | inl less ↦ elim (Bool-cases (join_returns g i (s.phases i))) [
      | inl gone ↦
          let apart : i ≢ other = λ q.
            let there_now : has_ended (s.phases other) ≡ true =
              ground (arith, made, subst (λ x. join_returns g x (s.phases x) ≡ true) q gone) in
            let waits = not_passed-not_ended (s.phases other) (held.waiting other) in absurd (cc) in
          only_main-Held s held (joining (i + 1)) (omega (arith, h, apart)) (rw (e, less, gone))
            there
      | inr more ↦ let here : main_next g s ≡ none = rw (e, less, more) in absurd (cc)
    ]
    | inr over ↦ absurd (ground (arith, h, in_other, over))
  ]
  main_next-Held s held returned e h there = let here : main_next g s ≡ none = rw e in absurd (cc)

  Step-Held : {s s' : System} → Held j other s → Step g s s' → Held j other s'
  unfolding thread_next
  Step-Held {s} held (thread_acts i lt h) =
      elim (Bool-cases (can_act (all_arrived g.num_threads s.phases) (s.phases i))) [
        | inl can ↦ acted-Held s held i can (act g i s.shared (s.phases i)) refl h
        | inr waits ↦ let here : thread_next g i s ≡ none = rw waits in absurd (cc)
      ]
  Step-Held {s} held (main_acts h) = main_next-Held s held s.main_at refl held.stuck h

  Run-Held : {s₀ s : System} {k : ℕ} → Held j other s₀ → Run g s₀ k s → Held j other s
  Run-Held held begin = held
  Run-Held held (later r step) = Step-Held (Run-Held held r) step

  -- When one of the threads cannot be created, and another one can, then in every order of the steps,
  -- and however many are made: no thread comes through the barrier or ends, and `main` does not
  -- return, whatever a join through an identifier that was never set does.
  pub missing_stuck :
      (c : Context) (check : ℕ) (table : List ℕ) {k : ℕ} {s : System}
      → Run g (initial g c check table) k s
      → (s.main_at ≢ returned)
        × ((i : ℕ) → (passed (s.phases i) ≡ false) × (has_ended (s.phases i) ≡ false))
  unfolding is_created passed HeldAt
  missing_stuck c check table {s = s} run =
      let held : Held j other s =
        Run-Held (record { missing = refl; waiting = λ i. refl; stuck = tt }) run in
      (
        λ e. subst (HeldAt other) e held.stuck,
        λ i. (held.waiting i, not_passed-not_ended (s.phases i) (held.waiting i)),
      )
