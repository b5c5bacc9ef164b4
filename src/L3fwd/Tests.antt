-- ===== src/L3fwd/Tests.antt =====
-- A simulator that hands over one request, a worker that serves it, and instances of the theorems
-- about the worker.
use my_l3fwd.Prelude.{
  ℕ, ◌+◌, ◌*◌, ◌%◌, ◌<◌, ◌≤◌, get_elem?, length, List, ◌≡◌, ◌↔◌, refl, true, false, arith, some, [],
  ◌∷◌, get_or, set, length-set, get_or-set_same, get_or-set_ne, ap, ◌∙◌, if◌then◌else◌,
}
use mathlib.Core.Path.{subst}
use native.Mathlib.Decide.{ℕ_discrete}
use my_l3fwd.Nic.{Machine, Wq, WqEntry, no_wqe}
use my_l3fwd.Nic.Setup.{CtxEntry}
use my_l3fwd.Nic.Check.{same_sense, tail_entry}
use my_l3fwd.Nic.Pending.{tail_of_Delivered, tail_sensed, tail_of_stop}
use my_l3fwd.Nic.Post.{Room}
use my_l3fwd.Nic.Tests.{request, one_pending, one_pending-Delivered, empty_wq, empty_wq-Room}
use my_l3fwd.Rpc.Slots.{lbuf_slot_iff}
use my_l3fwd.Rpc.{
  get_lbuf_size, get_underlying_address, lbuf_offset, done, throws, Context, Junk,
  create_rpc_numa_context,
}
use my_l3fwd.L3fwd.{ThreadParams, Locals, Report, run_worker}
use my_l3fwd.L3fwd.Routes.{entry, ipv6_l3fwd_em_route_array}
use my_l3fwd.L3fwd.Main.{
  Options, defaults, set_option, parse_options, thread_param, launch, start, main, start-launches,
  Grants, Granted, exits, launched,
}
use my_l3fwd.L3fwd.Serve.{Simulator}
use my_l3fwd.L3fwd.Slots.{Answered, Untouched, Completes}
use my_l3fwd.L3fwd.Loop.{Benign}
use my_l3fwd.L3fwd.Worker.{run_worker-Answered}

-- Completes the entry in slot 0 of the work queue, and looks at the next entry of the completion
-- queue: when it is not of this round the clients have finished.
abbrev pub one_request_only : ℕ → Machine → Machine
one_request_only t m =
    let first = get_or m.wq.q 0 no_wqe in
    let w : Wq = record m.wq { q = set m.wq.q 0 (record first { valid = false }) } in
    let over = if same_sense (tail_entry m.cq).sr m.cq.sr then m.client_done else true in
    record m { wq = w; client_done = over }

first_completed :
    (q : List WqEntry) (e : WqEntry) → e.valid ≡ false → (get_or (set q 0 e) 0 no_wqe).valid ≡ false
first_completed [] e h = refl
first_completed (x ∷ q) e h = h

completes_first :
    (w : Wq)
    → Completes w (record w { q = set w.q 0 (record (get_or w.q 0 no_wqe) { valid = false }) })
completes_first w = record {
  size = length-set w.q 0 (record (get_or w.q 0 no_wqe) { valid = false });
  head = refl;
  sr = refl;
  entries = λ i. (
    get_or-set_same (λ (e : WqEntry). record e { valid = false }) w.q 0 i
        (record (get_or w.q 0 no_wqe) { valid = false }) no_wqe refl,
    λ h. elim (ℕ_discrete 0 i) [
      | yes e ↦
          subst
            (λ x.
              (get_or (set w.q 0 (record (get_or w.q 0 no_wqe) { valid = false })) x no_wqe).valid
              ≡ false)
            e (first_completed w.q (record (get_or w.q 0 no_wqe) { valid = false }) refl)
      | no ne ↦
          ap (λ (e : WqEntry). e.valid)
            (get_or-set_ne w.q 0 i (record (get_or w.q 0 no_wqe) { valid = false }) no_wqe ne)
          ∙ h
    ],
  );
}

pub one_request_only-Simulator : Simulator (λ j. request) 1 one_request_only
one_request_only-Simulator = record {
  keeps = λ t n m d le. (refl, completes_first m.wq);
  waits = λ t n m d h. rw (tail_of_Delivered d h, tail_sensed d h);
  finishes = λ t m d. rw (tail_of_stop d refl);
}

abbrev quiet : Junk
quiet = record {
  poll = record { success = 0; op = 0; tid = 0; recv_buf_addr = 0 };
  rpc = record {
    rpc_len = 0;
    rpc_type = 0;
    rpc_id = 0;
    senders_qp = 0;
    senders_nid = 0;
    payload = 0;
    payload_len = 0;
  };
  source_node_id = 0;
  source_qp_to_reply = 0;
}

abbrev pub locals : Locals
locals = record {
  lbuf_var = 16;
  lbuf = 8192;
  wq_var = 24;
  cq_var = 32;
  client_done_var = 40;
  raw_data = 48;
  junk = λ t. quiet;
}

pub locals-Benign : Benign locals
locals-Benign = record { upper = λ t. refl; length_differs = λ t. refl }

abbrev pub thread : ThreadParams
thread = record {
  id = 1;
  start_core = 1;
  local_tid = 0;
  base_port_index = 0;
  num_server_ports = 1;
  num_client_ports = 1;
  update_percentage = 0;
  postlist = 1;
  node_cnt = 8;
  sonuma_nid = 0;
  qps_per_node = 2;
  num_serv_threads = 2;
  num_client_threads = 0;
  num_keys = 0;
  num_hash_buckets = 0;
  log_capacity_bytes = 0;
  run_debug_mode = 0;
}

abbrev pub no_entry : CtxEntry
no_entry = record {
  ctx_id = 0;
  ctx_base_addr = 0;
  send_buf_addr = 0;
  recv_buf_addr = 0;
  num_nodes = 0;
  msg_entry_size = 0;
  msgs_per_dest = 0;
  buf_management = [];
}

abbrev pub context : Context
context = create_rpc_numa_context true no_entry 8 0 1

pub three_posts : Room 0 3 empty_wq
three_posts = record {
  size = refl;
  at = (refl, refl);
  fits = omega arith;
  free = λ j p q. empty_wq-Room.free j p (omega arith);
}

run_worker-Answered_example :
    (r : Report) × (run_worker one_request_only 2 locals thread context one_pending ≡ done r)
    × (r.serviced ≡ 1)
    × Answered (λ j. request) 0 1 0 r.machine.wq
    × Untouched 0 (2 * 1) one_pending.wq r.machine.wq
unfolding create_rpc_numa_context
run_worker-Answered_example =
    run_worker-Answered one_request_only-Simulator (λ j h. refl) 1 locals-Benign thread context
      (omega arith) (omega arith) 1 0 0 one_pending refl (omega arith) one_pending-Delivered refl
      three_posts

abbrev pub all_granted : Grants
all_granted = record {
  control = true;
  arrays = true;
  barrier = true;
  lock = true;
  barrier_init = true;
  lock_init = true;
}

abbrev pub asked : Options
asked = record defaults { num_threads = 2; qps = 2; node_cnt = 8 }

-- Two threads on two queue pairs: the options -t 2 -q 2 -C 8, whose letters are 116, 113 and 67.
two_threads :
    main (λ n. n) (λ n. n) all_granted no_entry thread ((116, 2) ∷ (113, 2) ∷ (67, 8) ∷ [])
    ≡ done (
        launched
          (create_rpc_numa_context true no_entry 8 0 1)
          (thread_param thread asked 0 ∷ thread_param thread asked 1 ∷ []))
unfolding main parse_options set_option start launch
two_threads = refl

start-launches_example :
    (asked.qps < asked.num_threads → start all_granted no_entry thread asked ≡ throws)
    × (asked.num_threads ≤ asked.qps
        → true ≡ false
        → start all_granted no_entry thread asked ≡ done (exits 1))
    × (asked.num_threads ≤ asked.qps
        → Granted all_granted
        → (c : Context) × (ps : List ThreadParams) × (start all_granted no_entry thread asked
            ≡ done (launched c ps))
          × (length ps ≡ asked.num_threads)
          × ((j : ℕ)
              → j < asked.num_threads
              → (p : ThreadParams) × (get_elem? ps j ≡ some p)
                × (p.id ≡ j)
                × (p.id < length c.qps)
                × (p.id < length c.app_buffers)))
start-launches_example = start-launches all_granted no_entry thread asked (omega arith)

-- Message 64 lies outside.
lbuf_slot_iff_example :
    let c = create_rpc_numa_context true no_entry 8 0 1 in
    (get_lbuf_size c ≡ 256 * 512)
    × ((get_underlying_address 8192 (lbuf_offset c.ctx_struct 64) + 64 ≤ 8192 + get_lbuf_size c)
        ↔ (64 % 256 < 64))
lbuf_slot_iff_example = lbuf_slot_iff no_entry 8 0 1 8192 64 64 (omega arith) (omega arith)

-- The third route.
third_route : get_or ipv6_l3fwd_em_route_array 2 (entry 0) ≡ entry 2
third_route = refl
