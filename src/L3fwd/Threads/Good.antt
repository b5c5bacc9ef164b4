-- ===== src/L3fwd/Threads/Good.antt =====
-- What holds of all the threads together in every order of their steps (l3fwd/main.c,
-- l3fwd/worker.c).
use mathlib.Core.Path.{subst}
use native.Mathlib.Decide.{ℕ_discrete}
use my_l3fwd.Prelude.{
  ℕ, zero, suc, ◌≤◌, ◌<◌, ◌≡◌, ◌≢◌, ◌⊎◌, inl, inr, Bool-cases, refl, sym, arith, Bool, true, false,
  length, get_elem?,
}
use my_l3fwd.Prelude.Family.{update}
use my_l3fwd.Rpc.{Context, qp_at}
use my_l3fwd.L3fwd.Threads.{
  Process, System, Shared, Phase, not_created, created, with_buffer, at_barrier, in_loop, ended,
  failed, arrived, passed, has_ended, all_arrived, can_act, MainPhase, creating, joining, returned,
}
use my_l3fwd.L3fwd.Threads.Invariant.{Load, InLoop, Holds, is_created, registered, addresses}

pub all_arrived_each :
    (n : ℕ) (phases : ℕ → Phase)
    → all_arrived n phases ≡ true
    → (j : ℕ) → j < n
    → arrived (phases j) ≡ true
unfolding all_arrived
all_arrived_each zero phases all j lt = absurd (omega arith)
all_arrived_each (suc n) phases all j lt = elim (ℕ_discrete j n) [
  | yes e ↦ subst (λ x. arrived (phases x) ≡ true) (sym e) (ground (arith, all))
  | no ne ↦ all_arrived_each n phases (ground (arith, all)) j (omega arith)
]

pub all_arrived_cases :
    (n : ℕ) (phases : ℕ → Phase)
    → (all_arrived n phases ≡ true) ⊎ ((j : ℕ) × (j < n) × (arrived (phases j) ≡ false))
unfolding all_arrived
all_arrived_cases zero phases = inl refl
all_arrived_cases (suc n) phases = elim (Bool-cases (arrived (phases n))) [
  | inr away ↦ inr (n, omega arith, away)
  | inl here ↦ elim (all_arrived_cases n phases) [
    | inl all ↦ inl (rw (here, all))
    | inr (j, lt, away) ↦ inr (j, omega arith, away)
  ]
]

-- The three Boolean views of a phase: one that has arrived has been created, and so has one that
-- can act; one that has ended cannot.
pub arrived-created : (ph : Phase) → arrived ph ≡ true → is_created ph ≡ true
unfolding arrived is_created
arrived-created not_created h = absurd (cc)
arrived-created (created m) h = refl
arrived-created (with_buffer buf m) h = refl
arrived-created (at_barrier buf m) h = refl
arrived-created (in_loop buf t nb m) h = refl
arrived-created (ended count m) h = refl
arrived-created failed h = refl

pub ended-created : (ph : Phase) → has_ended ph ≡ true → is_created ph ≡ true
unfolding has_ended is_created
ended-created not_created h = absurd (cc)
ended-created (created m) h = refl
ended-created (with_buffer buf m) h = refl
ended-created (at_barrier buf m) h = refl
ended-created (in_loop buf t nb m) h = refl
ended-created (ended count m) h = refl
ended-created failed h = refl

pub not_passed-not_ended : (ph : Phase) → passed ph ≡ false → has_ended ph ≡ false
unfolding passed has_ended
not_passed-not_ended not_created h = refl
not_passed-not_ended (created m) h = refl
not_passed-not_ended (with_buffer buf m) h = refl
not_passed-not_ended (at_barrier buf m) h = refl
not_passed-not_ended (in_loop buf t nb m) h = cc
not_passed-not_ended (ended count m) h = cc
not_passed-not_ended failed h = refl

pub passed-registered : (ph : Phase) → passed ph ≡ true → registered ph ≡ true
unfolding passed registered
passed-registered not_created h = absurd (cc)
passed-registered (created m) h = absurd (cc)
passed-registered (with_buffer buf m) h = absurd (cc)
passed-registered (at_barrier buf m) h = absurd (cc)
passed-registered (in_loop buf t nb m) h = refl
passed-registered (ended count m) h = refl
passed-registered failed h = absurd (cc)

pub can_act-created : (opened : Bool) (ph : Phase) → can_act opened ph ≡ true → is_created ph ≡ true
unfolding can_act is_created
can_act-created opened not_created h = absurd (cc)
can_act-created opened (created m) h = refl
can_act-created opened (with_buffer buf m) h = refl
can_act-created opened (at_barrier buf m) h = refl
can_act-created opened (in_loop buf t nb m) h = refl
can_act-created opened (ended count m) h = refl
can_act-created opened failed h = refl

pub can_act-not_ended :
    (opened : Bool) (ph : Phase) → can_act opened ph ≡ true → has_ended ph ≢ true
unfolding can_act has_ended
can_act-not_ended opened not_created h e = absurd (cc)
can_act-not_ended opened (created m) h e = absurd (cc)
can_act-not_ended opened (with_buffer buf m) h e = absurd (cc)
can_act-not_ended opened (at_barrier buf m) h e = absurd (cc)
can_act-not_ended opened (in_loop buf t nb m) h e = absurd (cc)
can_act-not_ended opened (ended count m) h e = absurd (cc)
can_act-not_ended opened failed h e = absurd (cc)

-- What the position of `main` says of the threads.
unfoldable pub MainAt : (g : Process) (phases : ℕ → Phase) → MainPhase → Type 0
MainAt g phases (creating i) =
    ((j : ℕ) → i ≤ j → is_created (phases j) ≡ false)
    × ((j : ℕ) → j < i → g.create_ok j ≡ true → is_created (phases j) ≡ true)
MainAt g phases (joining i) =
    ((j : ℕ) → j < g.num_threads → g.create_ok j ≡ true → is_created (phases j) ≡ true)
    × ((j : ℕ) → j < i → g.create_ok j ≡ true → has_ended (phases j) ≡ true)
MainAt g phases returned =
    (j : ℕ) → j < g.num_threads → g.create_ok j ≡ true → has_ended (phases j) ≡ true

-- The system after thread `i` has acted.
abbrev pub moved : (i : ℕ) → Shared × Phase → System → System
moved i r s = record s { shared = r.0; phases = update s.phases i (r.1) }

module _ (g : Process) (loads : ℕ → Load) where
  pub record Good (s : System) : Type 0 where
    pub threads : (i : ℕ) → i < g.num_threads → Holds g loads i s.shared.context (s.phases i)
    pub in_qps : g.num_threads ≤ length s.shared.context.qps
    pub in_buffers : g.num_threads ≤ length s.shared.context.app_buffers
    pub barrier :
        (i j : ℕ)
        → i < g.num_threads
        → j < g.num_threads
        → passed (s.phases i) ≡ true
        → arrived (s.phases j) ≡ true
    pub table :
        (i : ℕ)
        → i < g.num_threads
        → registered (s.phases i) ≡ true
        → s.shared.eth_table ≡ addresses
    pub main_at : MainAt g s.phases s.main_at

  -- Another thread's step leaves alone what holds of a thread, when the context is the same once
  -- the thread is in its loop.
  pub Holds-other :
      (j : ℕ) (ph : Phase) {c c' : Context}
      → get_elem? c'.qps j ≡ get_elem? c.qps j
      → (passed ph ≡ true → c' ≡ c)
      → Holds g loads j c ph
      → Holds g loads j c' ph
  unfolding Holds passed qp_at
  Holds-other j not_created same still h = h
  Holds-other j (created m) same still h = h
  Holds-other j (with_buffer buf m) same still h = h
  Holds-other j (at_barrier buf m) {c} {c'} same still (queues, reg) =
      (queues, (reg.0, rw (qp_at, same) (reg.1)))
  Holds-other j (in_loop buf t nb m) same still h =
      subst (λ x. InLoop g loads j x buf t nb m) (sym (still refl)) h
  Holds-other j (ended count m) same still h = h
  Holds-other j failed same still h = h
