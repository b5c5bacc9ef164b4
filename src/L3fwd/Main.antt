-- ===== src/L3fwd/Main.antt =====
-- The start of the program (`main` of l3fwd/main.c): the options, the shared context, and the
-- parameters of the threads. `getopt_long` is the list of the options that it returns; `atol` and
-- `atoi` are parameters that give bit patterns.
use my_l3fwd.Prelude.{
  ℕ, zero, suc, ◌+◌, ◌-◌, ◌*◌, ◌^◌, ◌≤◌, ◌<◌, ◌≡◌, ◌∙◌, ap, arith, Bool, true, false, not, ◌&&◌,
  refl, Option, none, some, List, [], ◌∷◌, ◌==◌, ltb, if◌then◌else◌, u32, length, get_elem?,
  length-replicate,
}
use my_l3fwd.Nic.Setup.{CtxEntry}
use my_l3fwd.Rpc.{Outcome, done, throws, ◌>>=◌, Qp, Context, create_rpc_numa_context}
use my_l3fwd.L3fwd.{ThreadParams}

-- The local variables that the options set.
pub record Options : Type 0 where
  pub run_debug_mode : ℕ
  pub num_threads : ℕ
  pub num_rem_threads : ℕ
  pub node_cnt : ℕ
  pub qps : ℕ
  pub postlist : ℕ
  pub update_percentage : ℕ
  pub machine_id : ℕ
  pub base_port_index : ℕ
  pub num_server_ports : ℕ
  pub num_client_ports : ℕ
  pub start_core : ℕ
  pub num_client_keys : ℕ
  pub num_hash_buckets : ℕ
  pub log_cap : ℕ

abbrev minus_one : ℕ
minus_one = 2 ^ 32 - 1

abbrev pub defaults : Options
defaults = record {
  run_debug_mode = 0;
  num_threads = 0;
  num_rem_threads = 0;
  node_cnt = 0;
  qps = 0;
  postlist = minus_one;
  update_percentage = minus_one;
  machine_id = 1;
  base_port_index = minus_one;
  num_server_ports = minus_one;
  num_client_ports = minus_one;
  start_core = 3;
  num_client_keys = 1024 * 1024;
  num_hash_buckets = 2 * 1024 * 1024;
  log_cap = 8 * 1024 * 1024;
}

-- The `switch` on the letter of an option, whose value is `number` as a `long` and `int_number` as
-- an `int`. Any other letter fails an assertion.
unfoldable pub set_option : (c number int_number : ℕ) → Options → Outcome Options
set_option c number int_number o =
    if c == 75
    then done (record o { num_client_keys = number })
    else if c == 115
    then done (record o { start_core = u32 number })
    else if c == 76
    then done (record o { log_cap = number })
    else if c == 66
    then done (record o { num_hash_buckets = number })
    else if c == 68
    then done (record o { run_debug_mode = int_number })
    else if c == 116
    then done (record o { num_threads = u32 number })
    else if c == 98
    then done (record o { base_port_index = int_number })
    else if c == 78
    then done (record o { num_server_ports = int_number })
    else if c == 110
    then done (record o { num_client_ports = int_number })
    else if c == 117
    then done (record o { update_percentage = int_number })
    else if c == 109
    then done (record o { machine_id = int_number })
    else if c == 112
    then done (record o { postlist = int_number })
    else if c == 67
    then done (record o { node_cnt = int_number })
    else if c == 79
    then done (record o { num_rem_threads = int_number })
    else if c == 113
    then done (record o { qps = int_number })
    else throws

module _ {S : Type 0} (atol atoi : S → ℕ) where
  unfoldable pub parse_options : List (ℕ × S) → Options → Outcome Options
  parse_options [] o = done o
  parse_options ((c, optarg) ∷ args) o = do
    o' ← set_option c (atol optarg) (atoi optarg) o
    parse_options args o'

-- `param_arr[i]`; the array is not cleared, so that two fields keep what `malloc` left.
unfoldable pub thread_param : (garbage : ThreadParams) → Options → (i : ℕ) → ThreadParams
thread_param garbage o i = record {
  id = i;
  start_core = o.start_core;
  local_tid = garbage.local_tid;
  base_port_index = o.base_port_index;
  num_server_ports = o.num_server_ports;
  num_client_ports = o.num_client_ports;
  update_percentage = garbage.update_percentage;
  postlist = o.postlist;
  node_cnt = o.node_cnt;
  sonuma_nid = o.machine_id;
  qps_per_node = o.qps;
  num_serv_threads = o.num_threads;
  num_client_threads = o.num_rem_threads;
  num_keys = o.num_client_keys;
  num_hash_buckets = o.num_hash_buckets;
  log_capacity_bytes = o.log_cap;
  run_debug_mode = o.run_debug_mode;
}

-- The loop that starts the threads, with those still to start.
unfoldable pub launch : (garbage : ThreadParams) → Options → (rounds i : ℕ) → List ThreadParams
launch garbage o zero i = []
launch garbage o (suc n) i = thread_param garbage o i ∷ launch garbage o n (i + 1)

-- What the start asks the system for: the control structure of the context, the arrays of the
-- threads, and the memory and the initialisation of the barrier and of the mutex.
pub record Grants : Type 0 where
  pub control : Bool
  pub arrays : Bool
  pub barrier : Bool
  pub lock : Bool
  pub barrier_init : Bool
  pub lock_init : Bool

-- `main` returns a code, or has started its threads.
pub data Started : Type 0 where
  exits : (code : ℕ) → Started
  launched : Context → List ThreadParams → Started

-- The four failures that are checked return 1; the arrays are not checked, and a null pointer is
-- written through as soon as there is a thread.
unfoldable pub start :
    Grants → (junk : CtxEntry) (garbage : ThreadParams) → Options → Outcome Started
start g junk garbage o =
    if ltb o.qps o.num_threads
    then throws
    else if not g.barrier
    then done (exits 1)
    else if not g.lock
    then done (exits 1)
    else if not g.barrier_init
    then done (exits 1)
    else if not g.lock_init
    then done (exits 1)
    else if not g.arrays && ltb 0 o.num_threads
    then throws
    else done (
        launched
          (create_rpc_numa_context g.control junk o.node_cnt 0 (u32 (o.num_threads + 2 ^ 32 - 1)))
          (launch garbage o o.num_threads 0))

unfoldable pub main :
    {S : Type 0} (atol atoi : S → ℕ)
    → Grants
    → (junk : CtxEntry) (garbage : ThreadParams) → List (ℕ × S)
    → Outcome Started
main atol atoi g junk garbage args = do
  o ← parse_options atol atoi args defaults
  start g junk garbage o

launch-get :
    (garbage : ThreadParams) (o : Options) (n i j : ℕ)
    → j < n
    → get_elem? (launch garbage o n i) j ≡ some (thread_param garbage o (i + j))
unfolding launch
launch-get garbage o zero i j h = absurd (omega arith)
launch-get garbage o (suc n) i zero h = ap (λ k. some (thread_param garbage o k)) (omega arith)
launch-get garbage o (suc n) i (suc j) h =
    launch-get garbage o n (i + 1) j (omega arith)
    ∙ ap (λ k. some (thread_param garbage o k)) (omega arith)

launch-length : (garbage : ThreadParams) (o : Options) (n i : ℕ) → length (launch garbage o n i) ≡ n
unfolding launch
launch-length garbage o zero i = refl
launch-length garbage o (suc n) i = ap (λ k. suc k) (launch-length garbage o n (i + 1))

-- Everything that the start asks for is granted.
abbrev pub Granted : Grants → Type 0
Granted g =
    (g.barrier ≡ true)
    × (g.lock ≡ true)
    × (g.barrier_init ≡ true)
    × (g.lock_init ≡ true)
    × (g.arrays ≡ true)

-- With no more threads than queue pairs, the program starts when everything is granted; thread
-- number `j` has that number as its id, and finds room for its queue pair and its buffer in the
-- context. With more, it stops at the assertion. With no more, and the barrier or the mutex refused
-- or not initialised, it returns 1.
pub start-launches :
    (g : Grants) (junk : CtxEntry) (garbage : ThreadParams) (o : Options)
    → o.num_threads < 2 ^ 32
    → (o.qps < o.num_threads → start g junk garbage o ≡ throws)
      × (o.num_threads ≤ o.qps
          → (g.barrier && (g.lock && (g.barrier_init && g.lock_init))) ≡ false
          → start g junk garbage o ≡ done (exits 1))
      × (o.num_threads ≤ o.qps
          → Granted g
          → (c : Context) × (ps : List ThreadParams) × (start g junk garbage o
              ≡ done (launched c ps))
            × (length ps ≡ o.num_threads)
            × ((j : ℕ)
                → j < o.num_threads
                → (p : ThreadParams) × (get_elem? ps j ≡ some p)
                  × (p.id ≡ j)
                  × (p.id < length c.qps)
                  × (p.id < length c.app_buffers)))
unfolding start create_rpc_numa_context thread_param
start-launches g junk garbage o small = (
  λ h. ground (arith, h),
  λ h refused. ground (arith, h, refused),
  λ h granted.
      let fits : ltb o.qps o.num_threads ≡ false = ground (arith, h) in
      (
        create_rpc_numa_context g.control junk o.node_cnt 0 (u32 (o.num_threads + 2 ^ 32 - 1)),
        launch garbage o o.num_threads 0,
        ground (arith, fits, granted),
        launch-length garbage o o.num_threads 0,
        λ j q. (
          thread_param garbage o (0 + j),
          launch-get garbage o o.num_threads 0 j q,
          omega arith,
          omega (
            arith,
            length-replicate {A = Option Qp}
                (u32 (u32 (o.num_threads + 2 ^ 32 - 1) + 2 ^ 32 - 0 + 1)) none,
          ),
          omega (
            arith,
            length-replicate {A = Option ℕ}
                (u32 (u32 (o.num_threads + 2 ^ 32 - 1) + 2 ^ 32 - 0 + 1)) none,
          ),
        ),
      ),
)
