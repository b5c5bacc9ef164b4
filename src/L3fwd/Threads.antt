-- ===== src/L3fwd/Threads.antt =====
-- The threads of the program over the context that they share: `main` of l3fwd/main.c, which creates
-- and joins them, and `run_worker` of l3fwd/worker.c cut at its barrier and at each round of its
-- loop. The steps come in any order.
pub mod Rounds
pub mod Invariant
pub mod Acts
pub mod Good
pub mod Safe
pub mod Creates
pub mod Steps
pub mod Progress
pub mod Missing
pub mod Program
pub mod Tests
use my_l3fwd.Prelude.{
  ℕ, zero, suc, ◌+◌, ◌<◌, ◌≡◌, Bool, true, false, ◌&&◌, Option, none, some, List, ltb,
  if◌then◌else◌,
}
use my_l3fwd.Prelude.Family.{update}
use my_l3fwd.Nic.{Machine, register_buffer}
use my_l3fwd.Rpc.{
  Outcome, done, throws, spins, ◌>>=◌, Context, get_lbuf_size, register_new_local_buffer,
  register_new_sonuma_qp,
}
use my_l3fwd.L3fwd.{
  ThreadParams, Locals, stopped, served, serve_round, init_dest_eth_addr, rte_max_ethports,
}

-- What the threads share and write: the context, and the two globals.
pub record Shared : Type 0 where
  pub context : Context
  pub multithread_check : ℕ
  pub eth_table : List ℕ

-- Where a worker thread is. A thread that fails an assertion or throws ends the program.
pub data Phase : Type 0 where
  not_created : Phase
  created : Machine → Phase
  with_buffer : (buf : ℕ) → Machine → Phase
  at_barrier : (buf : ℕ) → Machine → Phase
  in_loop : (buf tmp_count nb_tx_tot : ℕ) → Machine → Phase
  ended : (count : ℕ) → Machine → Phase
  failed : Phase

-- Where `main` is in its two loops over the threads.
pub data MainPhase : Type 0 where
  creating : (i : ℕ) → MainPhase
  joining : (i : ℕ) → MainPhase
  returned : MainPhase

-- A run of the program: the parameters of its threads, their local variables, queues and simulator,
-- whether `pthread_create` succeeds for them, and whether a `pthread_join` through an identifier that
-- was never set returns.
pub record Process : Type 0 where
  pub num_threads : ℕ
  pub params : ℕ → ThreadParams
  pub locals : ℕ → Locals
  pub machine : ℕ → Machine
  pub hw : ℕ → ℕ → Machine → Machine
  pub fuel : ℕ
  pub create_ok : ℕ → Bool
  pub unset_join : ℕ → Bool

pub record System : Type 0 where
  pub main_at : MainPhase
  pub shared : Shared
  pub phases : ℕ → Phase

-- The thread has called `pthread_barrier_wait`.
unfoldable pub arrived : Phase → Bool
arrived not_created = false
arrived (created m) = false
arrived (with_buffer buf m) = false
arrived (at_barrier buf m) = true
arrived (in_loop buf tmp_count nb_tx_tot m) = true
arrived (ended count m) = true
arrived failed = false

-- The thread has come through the barrier.
unfoldable pub passed : Phase → Bool
passed not_created = false
passed (created m) = false
passed (with_buffer buf m) = false
passed (at_barrier buf m) = false
passed (in_loop buf tmp_count nb_tx_tot m) = true
passed (ended count m) = true
passed failed = false

unfoldable pub has_ended : Phase → Bool
has_ended not_created = false
has_ended (created m) = false
has_ended (with_buffer buf m) = false
has_ended (at_barrier buf m) = false
has_ended (in_loop buf tmp_count nb_tx_tot m) = false
has_ended (ended count m) = true
has_ended failed = false

-- The barrier opens when as many threads wait as it was initialised for.
unfoldable pub all_arrived : (n : ℕ) → (ℕ → Phase) → Bool
all_arrived zero phases = true
all_arrived (suc n) phases = arrived (phases n) && all_arrived n phases

-- The thread is not waiting, with the barrier `opened` or not.
unfoldable pub can_act : (opened : Bool) → Phase → Bool
can_act opened not_created = false
can_act opened (created m) = true
can_act opened (with_buffer buf m) = true
can_act opened (at_barrier buf m) = opened
can_act opened (in_loop buf tmp_count nb_tx_tot m) = true
can_act opened (ended count m) = false
can_act opened failed = false

module _ (g : Process) where
  -- What thread `i` does next: it fills the table and registers its buffer, registers its queue
  -- pair, leaves the barrier and asks to be told when the clients finish, or makes a round of its
  -- loop; after the last one it tells the simulator that it is done.
  unfoldable pub act : (i : ℕ) → Shared → Phase → Outcome (Shared × Phase)
  act i s not_created = spins
  act i s (created m) = do
    let l = g.locals i
    let id = (g.params i).id
    (buf, c, m') ←
        register_new_local_buffer l.lbuf_var l.lbuf (get_lbuf_size s.context) id s.context m
    done (
      record {
        context = c;
        multithread_check = id;
        eth_table = init_dest_eth_addr rte_max_ethports 0;
      },
      with_buffer buf m',
    )
  act i s (with_buffer buf m) = do
    let l = g.locals i
    (qp, c, m') ← register_new_sonuma_qp l.wq_var l.cq_var (g.params i).id s.context m
    done (record s { context = c }, at_barrier buf m')
  act i s (at_barrier buf m) =
      done (s, in_loop buf 0 0 (register_buffer (g.locals i).client_done_var 0xd m))
  act i s (in_loop buf tmp_count nb_tx_tot m) = do
    r ← serve_round (g.hw i) g.fuel (g.locals i) (g.params i) s.context buf tmp_count nb_tx_tot m
    elim r [
      | stopped m' ↦ done (s, ended tmp_count (register_buffer 0 0xdead m'))
      | served m' ↦ done (s, in_loop buf (tmp_count + 1) (nb_tx_tot + 1) m')
    ]
  act i s (ended count m) = spins
  act i s failed = spins

  -- A thread that still polls when the fuel runs out stays where it is.
  unfoldable pub thread_next : (i : ℕ) → System → Option System
  thread_next i s =
      if can_act (all_arrived g.num_threads s.phases) (s.phases i)
      then elim (act i s.shared (s.phases i)) [
        | done r ↦ some (record s { shared = r.0; phases = update s.phases i (r.1) })
        | throws ↦ some (record s { phases = update s.phases i failed })
        | spins ↦ some s
      ]
      else none

  -- `pthread_join` waits for the thread's end; the identifier of a thread that could not be created
  -- was never set.
  unfoldable pub join_returns : (i : ℕ) → Phase → Bool
  join_returns i ph = if g.create_ok i then has_ended ph else g.unset_join i

  -- A failed `pthread_create` is only printed.
  unfoldable pub main_next : System → Option System
  main_next s = elim s.main_at [
    | creating i ↦
        if ltb i g.num_threads
        then some (record s {
          main_at = creating (i + 1);
          phases = if g.create_ok i then update s.phases i (created (g.machine i)) else s.phases;
        })
        else some (record s { main_at = joining 0 })
    | joining i ↦
        if ltb i g.num_threads
        then if join_returns i (s.phases i)
          then some (record s { main_at = joining (i + 1) })
          else none
        else some (record s { main_at = returned })
    | returned ↦ none
  ]

  pub data Step (s s' : System) : Type 0 where
    main_acts : main_next s ≡ some s' → Step s s'
    thread_acts : (i : ℕ) → i < g.num_threads → thread_next i s ≡ some s' → Step s s'

  -- The threads are still to be created; `check` is what the program file gives the global.
  abbrev pub initial : Context → (check : ℕ) (table : List ℕ) → System
  initial c check table = record {
    main_at = creating 0;
    shared = record { context = c; multithread_check = check; eth_table = table };
    phases = λ i. not_created;
  }

  -- A run of a number of steps, in any order.
  pub data Run (s₀ : System) : ℕ → System → Type 0 where
    begin : Run s₀ 0 s₀
    later : {k : ℕ} {s s' : System} → Run s₀ k s → Step s s' → Run s₀ (suc k) s'
