-- ===== src/L3fwd.antt =====
-- The application of l3fwd/: the constants and structures of main.h, the worker thread of worker.c.
-- The start of the program is in L3fwd/Main.antt.
pub mod Serve
pub mod Worker
pub mod Slots
pub mod Loop
pub mod Main
pub mod Routes
pub mod Threads
pub mod Tests
use my_l3fwd.Prelude.{ℕ, zero, suc, ◌+◌, true, List, [], ◌∷◌, ◌==◌, if◌then◌else◌, u32, u64, ◌<<<◌}
use my_l3fwd.Nic.{Machine, register_buffer}
use my_l3fwd.Rpc.{
  Outcome, done, spins, ◌>>=◌, Context, get_lbuf_size, register_new_local_buffer,
  register_new_sonuma_qp, Junk, RpcWithHeader, receive_rpc_request_zsim_l3fwd, send_to_node_zsim,
  do_recv_zsim,
}

-- `thread_params`; the context, the barrier and the lock are shared by all the threads.
pub record ThreadParams : Type 0 where
  pub id : ℕ
  pub start_core : ℕ
  pub local_tid : ℕ
  pub base_port_index : ℕ
  pub num_server_ports : ℕ
  pub num_client_ports : ℕ
  pub update_percentage : ℕ
  pub postlist : ℕ
  pub node_cnt : ℕ
  pub sonuma_nid : ℕ
  pub qps_per_node : ℕ
  pub num_serv_threads : ℕ
  pub num_client_threads : ℕ
  pub num_keys : ℕ
  pub num_hash_buckets : ℕ
  pub log_capacity_bytes : ℕ
  pub run_debug_mode : ℕ

abbrev pub rte_max_ethports : ℕ
rte_max_ethports = 64

abbrev pub rte_ether_local_admin_addr : ℕ
rte_ether_local_admin_addr = 0x02

-- `dest_eth_addr[portid]`
unfoldable pub dest_eth_addr : (portid : ℕ) → ℕ
dest_eth_addr portid = u64 (rte_ether_local_admin_addr + u64 (portid <<< 40))

-- The loop that fills the table, with the ports still to do.
unfoldable pub init_dest_eth_addr : (rounds portid : ℕ) → List ℕ
init_dest_eth_addr zero portid = []
init_dest_eth_addr (suc k) portid = dest_eth_addr portid ∷ init_dest_eth_addr k (portid + 1)

abbrev pub timestamp : ℕ → Machine → Machine
timestamp count = register_buffer count 0x13

-- What the simulator and the stack give a worker: the addresses of its local variables and of its
-- buffer, and the contents of uninitialised variables in each round.
pub record Locals : Type 0 where
  pub lbuf_var : ℕ
  pub lbuf : ℕ
  pub wq_var : ℕ
  pub cq_var : ℕ
  pub client_done_var : ℕ
  pub raw_data : ℕ
  pub junk : ℕ → Junk

-- What a round of a worker's loop leads to: the loop ends, or a request has been answered.
pub data RoundResult : Type 0 where
  stopped : Machine → RoundResult
  served : Machine → RoundResult

module _ (hw : ℕ → Machine → Machine) (fuel : ℕ) (l : Locals) (p : ThreadParams) (c : Context) where
  -- The answer to one request: the reply is sent, then the receive slot is given back.
  unfoldable pub serve :
      (buf tmp_count nb_tx_tot : ℕ)
      → RpcWithHeader
      → (source_node_id : ℕ) → Machine
      → Outcome Machine
  serve buf tmp_count nb_tx_tot rpc source_node_id m =
      let started = timestamp tmp_count (timestamp tmp_count m) in
      do
        sent ←
            send_to_node_zsim hw fuel c buf 64 (u32 source_node_id) p.id l.raw_data true
              (u32 nb_tx_tot) started
        freed ← do_recv_zsim c p.id rpc.payload 64 (timestamp tmp_count sent)
        done (timestamp tmp_count freed)

  -- One round of the loop: a request is awaited and answered, or the clients have finished.
  unfoldable pub serve_round : (buf tmp_count nb_tx_tot : ℕ) → Machine → Outcome RoundResult
  serve_round buf tmp_count nb_tx_tot m = do
    (rpc, source_node_id, m') ← receive_rpc_request_zsim_l3fwd hw fuel c p.id (l.junk tmp_count) m
    let answer = do
      m'' ← serve buf (tmp_count + 1) nb_tx_tot rpc source_node_id m'
      done (served m'')
    if rpc.payload_len == 0xdead then done (stopped m') else answer

  -- The endless loop of a worker. The result is the number of requests serviced.
  unfoldable pub serve_loop : (rounds buf tmp_count nb_tx_tot : ℕ) → Machine → Outcome (ℕ × Machine)
  serve_loop zero buf tmp_count nb_tx_tot m = spins
  serve_loop (suc k) buf tmp_count nb_tx_tot m = do
    r ← serve_round buf tmp_count nb_tx_tot m
    elim r [
      | stopped m' ↦ done (tmp_count, m')
      | served m' ↦ serve_loop k buf (tmp_count + 1) (nb_tx_tot + 1) m'
    ]

-- What a worker leaves behind: its count of requests, the two globals that it writes, the machine.
pub record Report : Type 0 where
  pub serviced : ℕ
  pub multithread_check : ℕ
  pub eth_table : List ℕ
  pub machine : Machine

-- The registrations come before the loop, and the context that they change is the one it uses.
unfoldable pub run_worker :
    (hw : ℕ → Machine → Machine) (fuel : ℕ)
    → Locals
    → ThreadParams
    → Context
    → Machine
    → Outcome Report
run_worker hw fuel l p c m = do
  (buf, c₁, m₁) ← register_new_local_buffer l.lbuf_var l.lbuf (get_lbuf_size c) p.id c m
  (qp, c₂, m₂) ← register_new_sonuma_qp l.wq_var l.cq_var p.id c₁ m₁
  let ready = register_buffer l.client_done_var 0xd m₂
  (count, left) ← serve_loop hw fuel l p c₂ fuel buf 0 0 ready
  done (record {
    serviced = count;
    multithread_check = p.id;
    eth_table = init_dest_eth_addr rte_max_ethports 0;
    machine = register_buffer 0 0xdead left;
  })
