-- ===== src/L3fwd/Threads/Invariant.antt =====
-- What holds of each thread of l3fwd/worker.c wherever it is, and the work that it still has to do.
use my_l3fwd.Prelude.{ℕ, suc, ◌+◌, ◌-◌, ◌*◌, ◌<◌, ◌≡◌, Bool, true, false, List}
use my_l3fwd.Nic.{Machine, CqEntry}
use my_l3fwd.Nic.Post.{Room}
use my_l3fwd.Nic.Pending.{Delivered}
use my_l3fwd.Rpc.{done, Context, Qp, qp_at}
use my_l3fwd.L3fwd.{Locals, serve_loop, init_dest_eth_addr, rte_max_ethports}
use my_l3fwd.L3fwd.Serve.{Simulator}
use my_l3fwd.L3fwd.Slots.{Answered, Untouched}
use my_l3fwd.L3fwd.Loop.{Benign, Finished}
use my_l3fwd.L3fwd.Threads.{
  Process, Phase, not_created, created, with_buffer, at_barrier, in_loop, ended, failed,
}

-- The requests of a thread: `pending` of them, from number `first` of its stream up to `stop`, and
-- the slot of its work queue that is written next.
pub record Load : Type 0 where
  pub stream : ℕ → CqEntry
  pub stop : ℕ
  pub first : ℕ
  pub pending : ℕ
  pub slot : ℕ

-- The load is in the thread's queues, and its simulator and its uninitialised variables do no harm.
pub record Fed (d : Load) (hw : ℕ → Machine → Machine) (l : Locals) (m : Machine) : Type 0 where
  pub sim : Simulator d.stream d.stop hw
  pub sends : (j : ℕ) → j < d.stop → (d.stream j).success ≡ 0x7f
  pub benign : Benign l
  pub span : d.first + d.pending ≡ d.stop
  pub delivered : Delivered d.stream d.first d.stop m.cq
  pub going : m.client_done ≡ false
  pub room : Room d.slot (d.slot + (2 * d.pending + 1)) m.wq

-- The queues and the flag of a machine are those that the thread began with.
pub record SameQueues (m m₀ : Machine) : Type 0 where
  pub wq : m.wq ≡ m₀.wq
  pub cq : m.cq ≡ m₀.cq
  pub flag : m.client_done ≡ m₀.client_done

unfoldable pub is_created : Phase → Bool
is_created not_created = false
is_created (created m) = true
is_created (with_buffer buf m) = true
is_created (at_barrier buf m) = true
is_created (in_loop buf tmp_count nb_tx_tot m) = true
is_created (ended count m) = true
is_created failed = true

-- The thread has filled the table of addresses.
unfoldable pub registered : Phase → Bool
registered not_created = false
registered (created m) = false
registered (with_buffer buf m) = true
registered (at_barrier buf m) = true
registered (in_loop buf tmp_count nb_tx_tot m) = true
registered (ended count m) = true
registered failed = false

abbrev pub addresses : List ℕ
addresses = init_dest_eth_addr rte_max_ethports 0

module _ (g : Process) (loads : ℕ → Load) where
  -- The rest of a thread's loop ends, with all its requests answered.
  pub record InLoop (i : ℕ) (c : Context) (buf t nb : ℕ) (m : Machine) : Type 0 where
    pub rounds : ℕ
    pub left : Machine
    pub runs :
        serve_loop (g.hw i) g.fuel (g.locals i) (g.params i) c rounds buf t nb m
        ≡ done ((loads i).pending, left)
    pub finished :
        Finished
          (loads i).stream
          (loads i).first
          (loads i).stop
          (loads i).slot
          (loads i).pending
          (g.machine i).wq
          left

  -- What an ended thread has done: it counted its requests, answered them in order, and wrote no
  -- other slot of its work queue.
  pub record Serviced (i count : ℕ) (m : Machine) : Type 0 where
    pub counted : count ≡ (loads i).pending
    pub answered : Answered (loads i).stream (loads i).first (loads i).stop (loads i).slot m.wq
    pub untouched : Untouched (loads i).slot (2 * (loads i).pending) (g.machine i).wq m.wq

  unfoldable pub Holds : (i : ℕ) → Context → Phase → Type 0
  Holds i c not_created = Unit
  Holds i c (created m) = SameQueues m (g.machine i)
  Holds i c (with_buffer buf m) = SameQueues m (g.machine i)
  Holds i c (at_barrier buf m) = SameQueues m (g.machine i) × ((qp : Qp) × (qp_at c i ≡ done qp))
  Holds i c (in_loop buf t nb m) = InLoop i c buf t nb m
  Holds i c (ended count m) = Serviced i count m
  Holds i c failed = ⊥

  -- The steps that a thread still makes.
  unfoldable pub work : (i : ℕ) → Phase → ℕ
  work i not_created = (loads i).pending + 4
  work i (created m) = (loads i).pending + 4
  work i (with_buffer buf m) = (loads i).pending + 3
  work i (at_barrier buf m) = (loads i).pending + 2
  work i (in_loop buf t nb m) = suc ((loads i).pending - t)
  work i (ended count m) = 0
  work i failed = 0
