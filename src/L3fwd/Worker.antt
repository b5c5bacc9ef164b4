-- ===== src/L3fwd/Worker.antt =====
-- A worker thread from its registrations to its end (`run_worker` of l3fwd/worker.c).
use my_l3fwd.Prelude.{
  ℕ, zero, suc, ◌+◌, ◌*◌, ◌%◌, ◌^◌, ◌<◌, ◌≡◌, ◌∙◌, ap, arith, true, false, some, ltb, length, set,
  get_or, get_elem?-set_self,
}
use my_l3fwd.Nic.{Machine, CqEntry, register_buffer}
use my_l3fwd.Nic.Post.{Room}
use my_l3fwd.Nic.Pending.{Delivered}
use my_l3fwd.Rpc.{
  done, Context, Qp, qp_at, register_new_local_buffer, register_new_sonuma_qp, get_lbuf_size,
}
use my_l3fwd.L3fwd.{
  ThreadParams, Locals, Report, run_worker, dest_eth_addr, init_dest_eth_addr, rte_max_ethports,
  rte_ether_local_admin_addr,
}
use my_l3fwd.L3fwd.Serve.{Simulator}
use my_l3fwd.L3fwd.Loop.{Benign, serve_loop-Finished}
use my_l3fwd.L3fwd.Slots.{Answered, Untouched}

pub lt-ltb : {a b : ℕ} → a < b → ltb a b ≡ true
lt-ltb h = ground arith

-- The queue pair that a thread registered is the one it finds.
pub qp_at-set :
    (c : Context) (i : ℕ) (qp : Qp)
    → i < length c.qps
    → qp_at (record c { qps = set c.qps i (some qp) }) i ≡ done qp
unfolding qp_at
qp_at-set c i qp h = rw (get_elem?-set_self c.qps i (some qp) h, qp_at)

-- A thread whose number lies within the context's vectors finds all of its `k` requests in its
-- completion queue at the start, room for their posts and one more in its work queue, the flag
-- `client_done` unset, and benign contents in its uninitialised variables. At each moment the
-- hardware may complete any entries of the work queue, and do what it likes to the stores and the
-- magic instructions; it leaves the completion queue, and sets `client_done` at the first moment
-- at which all requests have been read, and not before. Then, given fuel for more than `k` rounds,
-- the thread ends: it reports `k` requests serviced, has answered exactly these in order, and has
-- touched no other slot of its work queue, in which entries may only have been completed.
pub run_worker-Answered :
    {stream : ℕ → CqEntry} {stop : ℕ} {hw : ℕ → Machine → Machine}
    → Simulator stream stop hw
    → ((j : ℕ) → j < stop → (stream j).success ≡ 0x7f)
    → (f : ℕ) {l : Locals} → Benign l
    → (p : ThreadParams) (c : Context) → p.id < length c.qps
    → p.id < length c.app_buffers
    → (k n q : ℕ) (m : Machine) → n + k ≡ stop
    → k < suc f
    → Delivered stream n stop m.cq
    → m.client_done ≡ false
    → Room q (q + (2 * k + 1)) m.wq
    → (r : Report) × (run_worker hw (suc f) l p c m ≡ done r)
      × (r.serviced ≡ k)
      × Answered stream n stop q r.machine.wq
      × Untouched q (2 * k) m.wq r.machine.wq
unfolding run_worker register_new_local_buffer register_new_sonuma_qp register_buffer
run_worker-Answered {hw} sim sends f {l} benign p c in_qps in_bufs k n q m span enough d going
      room =
    let (m', e, fin) =
      serve_loop-Finished sim sends f benign p c₂ (qp_at-set c₁ p.id own in_qps) k (suc f) l.lbuf 0
        0 n q ready span enough d (λ h. going) room in
    (
      record {
        serviced = 0 + k;
        multithread_check = p.id;
        eth_table = init_dest_eth_addr rte_max_ethports 0;
        machine = register_buffer 0 0xdead m';
      },
      rw (lt-ltb in_bufs, lt-ltb in_qps, e),
      omega arith,
      fin.answered,
      fin.untouched,
    )
  where
    own : Qp
    own = record { qp_id = p.id % 2 ^ 32 }

    c₁ : Context
    c₁ = record c { app_buffers = set c.app_buffers p.id (some l.lbuf) }

    c₂ : Context
    c₂ = record c₁ { qps = set c.qps p.id (some own) }

    ready : Machine
    ready = register_buffer l.client_done_var 0xd (
        register_buffer l.cq_var 1 (
          register_buffer l.wq_var 0
            (register_buffer l.lbuf_var 2 (register_buffer (get_lbuf_size c) 3 m))))

-- Entry `i` of the table of addresses is the address of port `i`, for every one of its entries.
init_dest_eth_addr-get :
    (rounds portid i : ℕ)
    → i < rounds
    → get_or (init_dest_eth_addr rounds portid) i 0 ≡ dest_eth_addr (portid + i)
unfolding init_dest_eth_addr
init_dest_eth_addr-get zero portid i h = absurd (omega arith)
init_dest_eth_addr-get (suc k) portid zero h = ap dest_eth_addr (omega arith)
init_dest_eth_addr-get (suc k) portid (suc i) h =
    init_dest_eth_addr-get k (portid + 1) i (omega arith) ∙ ap dest_eth_addr (omega arith)

-- The address of each port that the program allows, as six bytes in memory order: 02:00:00:00:00
-- and the port's number, and no bit above the sixth byte.
pub dest_eth_addr-bytes :
    (portid : ℕ)
    → portid < rte_max_ethports
    → get_or (init_dest_eth_addr rte_max_ethports 0) portid 0
      ≡ rte_ether_local_admin_addr + portid * 2 ^ 40
unfolding dest_eth_addr
dest_eth_addr-bytes portid h = init_dest_eth_addr-get rte_max_ethports 0 portid h ∙ omega arith
