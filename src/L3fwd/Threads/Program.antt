-- ===== src/L3fwd/Threads/Program.antt =====
-- The whole program: the start of `main` (l3fwd/main.c) and its threads (l3fwd/worker.c), in every
-- order of their steps.
use mathlib.Core.Path.{subst}
use my_l3fwd.Prelude.{
  ◌*◌, List, ◌^◌, get_or, get_or-get_elem?, ℕ, zero, suc, ◌+◌, ◌≤◌, ◌<◌, ◌≡◌, ◌≢◌, ◌⊎◌, inl, inr,
  refl, ◌∙◌, ap, arith, true, length,
}
use my_l3fwd.Prelude.Family.{sum, sum_zeros}
use my_l3fwd.Rpc.{done, Context}
use my_l3fwd.L3fwd.Threads.{
  Process, System, Phase, not_created, created, with_buffer, at_barrier, in_loop, ended, failed,
  arrived, passed, has_ended, returned, Step, Run, initial,
}
use my_l3fwd.L3fwd.Threads.Invariant.{Load, Fed, Holds, Serviced, work}
use my_l3fwd.L3fwd.Threads.Good.{passed-registered, MainAt, Good}
use my_l3fwd.Nic.{Machine}
use my_l3fwd.Nic.Setup.{CtxEntry}
use my_l3fwd.L3fwd.{ThreadParams, rte_max_ethports, rte_ether_local_admin_addr}
use my_l3fwd.L3fwd.Worker.{dest_eth_addr-bytes}
use my_l3fwd.L3fwd.Main.{Options, Grants, Granted, start, launched, start-launches}
use my_l3fwd.L3fwd.Threads.Creates.{left_of_main, steps_left}
use my_l3fwd.L3fwd.Threads.Steps.{Loaded, Run-Kept, Step-Kept, initial-Good}
use my_l3fwd.L3fwd.Threads.Progress.{never_stuck}

-- The run that `main` starts from its options and its array of parameters, with the rest as in `g`.
abbrev pub started : Options → (garbage : ThreadParams) → List ThreadParams → Process → Process
started o garbage ps g = record g { num_threads = o.num_threads; params = λ i. get_or ps i garbage }

-- What the threads are like in a state of a run.
pub record Safe (g : Process) (loads : ℕ → Load) (s : System) : Type 0 where
  pub no_failure : (i : ℕ) → i < g.num_threads → s.phases i ≢ failed
  pub serviced :
      (i : ℕ)
      → i < g.num_threads
      → (count : ℕ) (m : Machine) → s.phases i ≡ ended count m
      → Serviced g loads i count m
  pub barrier :
      (i j : ℕ)
      → i < g.num_threads
      → j < g.num_threads
      → passed (s.phases i) ≡ true
      → arrived (s.phases j) ≡ true
  pub addressed :
      (i : ℕ)
      → i < g.num_threads
      → passed (s.phases i) ≡ true
      → (portid : ℕ) → portid < rte_max_ethports
      → get_or s.shared.eth_table portid 0 ≡ rte_ether_local_admin_addr + portid * 2 ^ 40
  pub joined :
      s.main_at ≡ returned
      → (i : ℕ) → i < g.num_threads
      → g.create_ok i ≡ true
      → (count : ℕ) × (m : Machine) × (s.phases i ≡ ended count m)

has_ended-ended :
    (ph : Phase) → has_ended ph ≡ true → (count : ℕ) × (m : Machine) × (ph ≡ ended count m)
unfolding has_ended
has_ended-ended not_created h = absurd (cc)
has_ended-ended (created m) h = absurd (cc)
has_ended-ended (with_buffer buf m) h = absurd (cc)
has_ended-ended (at_barrier buf m) h = absurd (cc)
has_ended-ended (in_loop buf t nb m) h = absurd (cc)
has_ended-ended (ended count m) h = (count, m, refl)
has_ended-ended failed h = absurd (cc)

Good-Safe : (g : Process) (loads : ℕ → Load) (s : System) → Good g loads s → Safe g loads s
unfolding Holds MainAt
Good-Safe g loads s good = record {
  no_failure = λ i lt e. subst (Holds g loads i s.shared.context) e (good.threads i lt);
  serviced = λ i lt count m e. subst (Holds g loads i s.shared.context) e (good.threads i lt);
  barrier = good.barrier;
  addressed = λ i lt h portid in_table.
      ap (λ t. get_or t portid 0) (good.table i lt (passed-registered (s.phases i) h))
      ∙ dest_eth_addr-bytes portid in_table;
  joined =
      λ e i lt ok. has_ended-ended (s.phases i) (subst (MainAt g s.phases) e good.main_at i lt ok);
}

-- The steps of a whole run: `main` creates and joins each thread, and a thread registers twice,
-- passes the barrier, answers its requests and ends.
unfoldable pub all_steps : (n : ℕ) (loads : ℕ → Load) → ℕ
all_steps n loads = n + (n + 2) + sum n (λ i. (loads i).pending + 4)

-- As many steps are left at the beginning as a whole run has.
steps_left-initial :
    (g : Process) (loads : ℕ → Load) (c : Context) (check : ℕ) (table : List ℕ)
    → steps_left g loads (initial g c check table) ≡ all_steps g.num_threads loads
unfolding steps_left all_steps left_of_main work
steps_left-initial g loads c check table = omega arith

-- No step is left once `main` has returned.
steps_left-returned :
    (g : Process) (loads : ℕ → Load) (s : System)
    → Good g loads s
    → ((i : ℕ) → i < g.num_threads → g.create_ok i ≡ true)
    → s.main_at ≡ returned
    → steps_left g loads s ≡ 0
unfolding steps_left left_of_main MainAt work
steps_left-returned g loads s good ok e =
    let over = subst (MainAt g s.phases) e good.main_at in
    let main_part : left_of_main g.num_threads s.main_at ≡ 0 = ap (left_of_main g.num_threads) e in
    let none_left =
      sum_zeros g.num_threads (λ i. work g loads i (s.phases i))
        (λ i lt.
          let (count, m, e') = has_ended-ended (s.phases i) (over i lt (ok i lt)) in
          ap (work g loads i) e') in
    omega (arith, main_part, none_left)

-- A bound on all the numbers below another is a bound on it.
below : (n len : ℕ) → ((i : ℕ) → i < n → i < len) → n ≤ len
below zero len h = omega arith
below (suc n) len h = omega (arith, h n (omega arith))

module _ (gr : Grants) (junk : CtxEntry) (garbage : ThreadParams) (o : Options)
    (small : o.num_threads < 2 ^ 32) (enough : o.num_threads ≤ o.qps) (granted : Granted gr)
    (g : Process) (loads : ℕ → Load) (fuel : 0 < g.fuel)
    (fed : (i : ℕ) → i < o.num_threads → Fed (loads i) (g.hw i) (g.locals i) (g.machine i))
    (check : ℕ) (table : List ℕ) where
  -- The threads find their loads and their places in the context.
  launched-Loaded :
      (c : Context) (ps : List ThreadParams)
      → start gr junk garbage o ≡ done (launched c ps)
      → Loaded (started o garbage ps g) loads
        × Good (started o garbage ps g) loads (initial (started o garbage ps g) c check table)
  launched-Loaded c ps e =
      let (c', ps', e', _, each) = (start-launches gr junk garbage o small).2 enough granted in
      let here : c' ≡ c = cc in
      let params : ps' ≡ ps = cc in
      let loaded : Loaded (started o garbage ps' g) loads = record {
        fuel = fuel;
        ids = λ i lt.
            let (p, at, id, _, _) = each i lt in
            ap (λ (x : ThreadParams). x.id) (get_or-get_elem? ps' i garbage at) ∙ id;
        fed = fed;
      } in
      let in_qps : o.num_threads ≤ length c'.qps =
        below o.num_threads (length c'.qps)
          (λ i lt. let (p, at, id, q, b) = each i lt in omega (arith, id, q)) in
      let in_buffers : o.num_threads ≤ length c'.app_buffers =
        below o.num_threads (length c'.app_buffers)
          (λ i lt. let (p, at, id, q, b) = each i lt in omega (arith, id, b)) in
      let loaded' = subst (λ x. Loaded (started o garbage x g) loads) params loaded in
      (
        loaded',
        initial-Good (started o garbage ps g) loads loaded' c check table
            (subst (λ (x : Context). o.num_threads ≤ length x.qps) here in_qps)
            (subst (λ (x : Context). o.num_threads ≤ length x.app_buffers) here in_buffers),
      )

  -- The program has been started with everything granted, fewer than 2 ^ 32 threads, and no more
  -- of them than queue pairs; polls have fuel. As for the hardware, each thread finds all of its
  -- requests in its completion queue at the start, room for their posts and one more in its work
  -- queue, the flag `client_done` unset, and benign contents in its uninitialised variables. At
  -- each moment the hardware may complete any entries of a work queue, and do what it likes to
  -- the stores and the magic instructions; it leaves the completion queue, and sets `client_done`
  -- at the first moment at which all requests of the thread have been read, and not before. Then,
  -- in every state of every order of the steps of `main` and of its threads: no thread fails; one
  -- that has ended has counted its requests, answered them in order and touched no other slot of
  -- its work queue, in which entries may only have been completed; one passes the barrier only
  -- when all have arrived, and from then on the table has the address 02:00:00:00:00:i for each
  -- port i below 64; and when `main` has returned, all threads that could be created have ended.
  pub program-Safe :
      (c : Context) (ps : List ThreadParams)
      → start gr junk garbage o ≡ done (launched c ps)
      → (k : ℕ) (s : System)
      → Run (started o garbage ps g) (initial (started o garbage ps g) c check table) k s
      → Safe (started o garbage ps g) loads s
  program-Safe c ps e k s run =
      let (loaded, good) = launched-Loaded c ps e in
      let g' = started o garbage ps g in
      Good-Safe g' loads s ((Run-Kept g' loads loaded good run).0)

  -- The program has been started with everything granted, fewer than 2 ^ 32 threads, and no more
  -- of them than queue pairs; every thread can be created, and polls have fuel. As for the
  -- hardware, each thread finds all of its requests in its completion queue at the start, room
  -- for their posts and one more in its work queue, the flag `client_done` unset, and benign
  -- contents in its uninitialised variables. At each moment the hardware may complete any entries
  -- of a work queue, and do what it likes to the stores and the magic instructions; it leaves the
  -- completion queue, and sets `client_done` at the first moment at which all requests of the
  -- thread have been read, and not before. Then no order of the steps is stuck or goes on for
  -- ever: the steps of a whole run are twice the number of threads and two, and for each thread
  -- its requests and four. A run that has made fewer can make another step; none makes more, and
  -- after the last one `main` has returned.
  pub program_returns :
      ((i : ℕ) → i < o.num_threads → g.create_ok i ≡ true)
      → (c : Context) (ps : List ThreadParams) → start gr junk garbage o ≡ done (launched c ps)
      → (k : ℕ) (s : System)
      → Run (started o garbage ps g) (initial (started o garbage ps g) c check table) k s
      → ((k < all_steps o.num_threads loads) × ((s' : System) × Step (started o garbage ps g) s s'))
        ⊎ ((k ≡ all_steps o.num_threads loads) × (s.main_at ≡ returned))
  program_returns ok c ps e k s run =
      let (loaded, start_good) = launched-Loaded c ps e in
      let g' = started o garbage ps g in
      let (good, count) = Run-Kept g' loads loaded start_good run in
      let all = steps_left-initial g' loads c check table in
      elim (never_stuck g' loads loaded s good ok s.main_at refl) [
        | inl over ↦
            let zero_left = steps_left-returned g' loads s good ok over in
            inr (omega (arith, count, all, zero_left), over)
        | inr (s', step) ↦
            let kept = Step-Kept g' loads loaded good step in
            let one = kept.less in inl (omega (arith, count, all, one), (s', step))
      ]
