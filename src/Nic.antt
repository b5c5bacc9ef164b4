-- ===== src/Nic.antt =====
-- The work queue and the completion queue that a worker shares with the simulated NIC:
-- libzsim/zsim_nic_defines.hpp (the structures and constants) and the posting routines of
-- libzsim/zsim_nic_defines.cpp. The polling routine is in Nic/Check.antt.
pub mod Check
pub mod Post
pub mod Rounds
pub mod Ends
pub mod Pending
pub mod Setup
pub mod Tests
use my_l3fwd.Prelude.{
  ℕ, ◌+◌, ◌-◌, Bool, true, false, not, List, ◌∷◌, ltb, if◌then◌else◌, get_or, set, u32, u64, ◌>>>◌,
}

abbrev pub max_num_wq : ℕ
max_num_wq = 128

abbrev pub cache_block_size : ℕ
cache_block_size = 64

abbrev pub cache_block_bits : ℕ
cache_block_bits = 6

abbrev pub rmc_sabre : ℕ
rmc_sabre = 4

abbrev pub rmc_recv : ℕ
rmc_recv = 5

-- `1 << 4`, and the same with bit 1 or bit 2.
abbrev pub rmc_send : ℕ
rmc_send = 16

abbrev pub rmc_incoming_send : ℕ
rmc_incoming_send = 18

abbrev pub rmc_incoming_resp : ℕ
rmc_incoming_resp = 20

abbrev pub rmc_inval : ℕ
rmc_inval = 42

abbrev pub notify_wq_write : ℕ
notify_wq_write = 0xa

pub record WqEntry : Type 0 where
  pub op : ℕ
  pub sr : Bool
  pub valid : Bool
  pub buf_addr : ℕ
  pub cid : ℕ
  pub nid : ℕ
  pub offset : ℕ
  pub length : ℕ

pub record CqEntry : Type 0 where
  pub sr : Bool
  pub valid : Bool
  pub success : ℕ
  pub tid : ℕ
  pub recv_buf_addr : ℕ

pub record Wq : Type 0 where
  pub q : List WqEntry
  pub head : ℕ
  pub sr : Bool

pub record Cq : Type 0 where
  pub q : List CqEntry
  pub tail : ℕ
  pub sr : Bool

-- `successStruct`, what a poll of the completion queue returns.
pub record Success : Type 0 where
  pub success : ℕ
  pub op : ℕ
  pub tid : ℕ
  pub recv_buf_addr : ℕ

-- What a read outside the 128 slots gives; the theorems keep every index inside.
abbrev pub no_wqe : WqEntry
no_wqe = record {
  op = 0;
  sr = false;
  valid = false;
  buf_addr = 0;
  cid = 0;
  nid = 0;
  offset = 0;
  length = 0;
}

abbrev pub no_cqe : CqEntry
no_cqe = record { sr = false; valid = false; success = 0; tid = 0; recv_buf_addr = 0 }

-- A store to application memory: a 32-bit word, or a copy of `bytes` bytes.
pub data Store : Type 0 where
  word : (addr val : ℕ) → Store
  copy : (addr from bytes : ℕ) → Store

-- What one worker and the simulated hardware share: the queue pair, the flag `client_done`, the
-- calls of `register_buffer` (value, field) and the stores, each the latest first. `clock` counts
-- the moments at which the hardware has acted.
pub record Machine : Type 0 where
  pub wq : Wq
  pub cq : Cq
  pub client_done : Bool
  pub magic : List (ℕ × ℕ)
  pub stores : List Store
  pub clock : ℕ

-- The call is one magic instruction that the simulator reads.
unfoldable pub register_buffer : ℕ → ℕ → Machine → Machine
register_buffer val field m = record m { magic = (val, field) ∷ m.magic }

-- The result of a post: 0, or -1 when the slot is still in use.
pub data Posted : Type 0 where
  ok busy : Posted

-- The entry is built field by field, stored at its slot, and announced to the simulator.
unfoldable pub create_wq_entry :
    (op : ℕ) (sr : Bool) (cid nid buf_addr offset length slot : ℕ) → Machine → Machine
unfolding register_buffer
create_wq_entry op sr cid nid buf_addr offset length slot m =
    let entry : WqEntry = record {
      op = op;
      sr = sr;
      valid = true;
      buf_addr = buf_addr;
      cid = cid;
      nid = nid;
      offset = offset;
      length = length;
    } in
    let wq' : Wq = record m.wq { q = set m.wq.q slot entry } in
    register_buffer 0 notify_wq_write (record m { wq = wq' })

-- The head moves on; at the end of the queue it goes back to 0 and the sense bit flips.
unfoldable pub advance : Wq → Wq
advance w =
    if ltb (u32 (w.head + 1)) max_num_wq
    then record w { head = u32 (w.head + 1) }
    else record w { head = 0; sr = not w.sr }

abbrev pub head_entry : Machine → WqEntry
head_entry m = get_or m.wq.q m.wq.head no_wqe

-- `length` is rounded up to cache lines.
unfoldable pub rmc_hw_send : (ctx_id data_address length nid : ℕ) → Machine → Posted × Machine
unfolding create_wq_entry advance
rmc_hw_send ctx_id data_address length nid m =
    if (head_entry m).valid
    then (busy, m)
    else let lines = u64 (length + (cache_block_size - 1)) >>> cache_block_bits in
      let m' = create_wq_entry rmc_send m.wq.sr (u32 ctx_id) nid data_address 0 lines m.wq.head m in
      (ok, record m' { wq = advance m'.wq })

unfoldable pub rmc_hw_recv : (ctx_id recv_buf length : ℕ) → Machine → Posted × Machine
unfolding create_wq_entry advance
rmc_hw_recv ctx_id recv_buf length m =
    if (head_entry m).valid
    then (busy, m)
    else let m' = create_wq_entry rmc_recv m.wq.sr ctx_id 0 recv_buf 0 length m.wq.head m in
      (ok, record m' { wq = advance m'.wq })
