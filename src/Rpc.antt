-- ===== src/Rpc.antt =====
-- The messaging layer of rpc_shm/rpc.h and rpc_shm/rpc.cpp in the ZSIM build: the shared context,
-- the registration of buffers and queue pairs, and the calls that a worker makes for a request.
pub mod Slots
pub mod Buffers
pub mod Layout
pub mod Polls
pub mod Header
pub mod Stats
pub mod Tests
use mathlib.Core.Option
use my_l3fwd.Prelude.{
  ℕ, zero, suc, ◌+◌, ◌-◌, ◌^◌, ◌*◌, ◌%◌, ◌/◌, Bool, not, ◌&&◌, Option, none, some, List, ◌∷◌, ◌==◌,
  ltb, if◌then◌else◌, get_elem?, set, length, replicate, u16, u32, u64,
}
use my_l3fwd.Nic.{
  rmc_incoming_send, cache_block_size, Success, Machine, word, copy, register_buffer, ok, busy,
  rmc_hw_send, rmc_hw_recv,
}
use my_l3fwd.Nic.Check.{tick, rmc_check_cq}
use my_l3fwd.Nic.Setup.{CtxEntry, kal_reg_send_recv_bufs}

-- A call returns, ends the program (an exception, a failed assertion, a null pointer), or still
-- polls when the fuel runs out.
pub data Outcome {ℓ} (A : Type ℓ) : Type ℓ where
  done : A → Outcome A
  throws : Outcome A
  spins : Outcome A

infixl 5 ◌>>=◌
abbrev pub ◌>>=◌ {ℓ κ} : {A : Type ℓ} {B : Type κ} → Outcome A → (A → Outcome B) → Outcome B
done a >>= f = f a
throws >>= f = throws
spins >>= f = spins

abbrev pub sr_ctx_id : ℕ
sr_ctx_id = 7

abbrev pub msgs_per_pair : ℕ
msgs_per_pair = 256

abbrev pub rpc_max_payload : ℕ
rpc_max_payload = 512

-- `soNUMAQP_T`; its two queues are those of the worker's `Machine`.
pub record Qp : Type 0 where
  pub qp_id : ℕ

-- `rpcNUMAContext`, with the fields of its messaging domain; `none` is a null pointer. An exposed
-- buffer is its base address.
pub record Context : Type 0 where
  pub qps : List (Option Qp)
  pub app_buffers : List (Option ℕ)
  pub ctx_struct : CtxEntry
  pub per_node_chunk : ℕ
  pub lbuf_size_bytes : ℕ

-- `int` sizes handed to `kal_reg_send_recv_bufs`, whose result is ignored; `malloc` says whether
-- the control structure was allocated, `junk` is the uninitialised context entry. With no thread
-- `qp_end` is `UINT_MAX`, and the count of queue pairs wraps to 0.
unfoldable pub create_rpc_numa_context :
    (malloc : Bool) (junk : CtxEntry) (total_nodes qp_start qp_end : ℕ) → Context
create_rpc_numa_context malloc junk total_nodes qp_start qp_end =
    let start : CtxEntry = record junk { ctx_id = sr_ctx_id } in
    let (_, bound) =
      kal_reg_send_recv_bufs malloc (some start) 0 msgs_per_pair rpc_max_payload total_nodes 0 in
    let entry = Option.get_or bound start in
    let num_qps = u32 (qp_end + 2 ^ 32 - qp_start + 1) in
    record {
      qps = replicate num_qps none;
      app_buffers = replicate num_qps none;
      ctx_struct = entry;
      per_node_chunk = u64 ((entry.msg_entry_size + cache_block_size) * entry.msgs_per_dest);
      lbuf_size_bytes = msgs_per_pair * rpc_max_payload;
    }

abbrev pub get_lbuf_size : Context → ℕ
get_lbuf_size c = c.lbuf_size_bytes

-- `vector::at` with an assignment.
abbrev pub put_at {ℓ} : {A : Type ℓ} → List A → ℕ → A → Outcome (List A)
put_at xs i a = if ltb i (length xs) then done (set xs i a) else throws

-- The simulator stores the buffer's address where `tptr` points; `base` is that address.
unfoldable pub register_new_local_buffer :
    (tptr base buf_size tidx : ℕ) → Context → Machine → Outcome (ℕ × Context × Machine)
register_new_local_buffer tptr base buf_size tidx c m =
    let m' = register_buffer tptr 2 (register_buffer buf_size 3 m) in
    do
      bufs ← put_at c.app_buffers tidx (some base)
      done (base, record c { app_buffers = bufs }, m')

-- `wq_var` and `cq_var` are the addresses of the two local variables that the simulator fills.
unfoldable pub register_new_sonuma_qp :
    (wq_var cq_var tidx : ℕ) → Context → Machine → Outcome (Qp × Context × Machine)
register_new_sonuma_qp wq_var cq_var tidx c m =
    let m' = register_buffer cq_var 1 (register_buffer wq_var 0 m) in
    let qp : Qp = record { qp_id = u32 tidx } in
    do qps ← put_at c.qps tidx (some qp); done (qp, record c { qps = qps }, m')

-- `qps.at(i)->`: out of range throws, and so does the null pointer of a thread that has not
-- registered.
unfoldable pub qp_at : Context → ℕ → Outcome Qp
qp_at c i = elim (get_elem? c.qps i) [
  | none ↦ throws
  | some none ↦ throws
  | some (some qp) ↦ done qp
]

-- The buffer is an array of 32-bit words, and the offset is added to its address as such.
unfoldable pub get_underlying_address : (underlying_buffer byte_offset : ℕ) → ℕ
get_underlying_address underlying_buffer byte_offset = underlying_buffer + 4 * byte_offset

-- The local buffer slot of message number `rpc_send_count`.
unfoldable pub lbuf_offset : CtxEntry → (rpc_send_count : ℕ) → ℕ
lbuf_offset e rpc_send_count = rpc_send_count % e.msgs_per_dest * e.msg_entry_size

module _ (hw : ℕ → Machine → Machine) where
  -- `do { … } while (send_ret)`; the hardware acts before each attempt.
  unfoldable pub send_loop :
      (fuel : ℕ) (ctx_id addr bytes dest_node : ℕ) → Machine → Outcome Machine
  send_loop zero ctx_id addr bytes dest_node m = spins
  send_loop (suc f) ctx_id addr bytes dest_node m =
      let (send_ret, m') = rmc_hw_send ctx_id addr bytes dest_node (tick hw m) in
      elim send_ret [ ok ↦ done m' | busy ↦ send_loop f ctx_id addr bytes dest_node m' ]

  unfoldable pub send_to_node_zsim :
      (fuel : ℕ)
      → Context
      → (message_buffer message_byte_size dest_node send_qp raw_payload_data : ℕ) (skipcpy : Bool)
      → (rpc_send_count : ℕ) → Machine
      → Outcome Machine
  send_to_node_zsim fuel c buf bytes dest_node send_qp raw skipcpy count m =
      let addr = get_underlying_address buf (lbuf_offset c.ctx_struct count) in
      do
        qp ← qp_at c send_qp
        let store = if skipcpy then word addr 0x1234 else copy addr raw bytes
        send_loop fuel c.ctx_struct.ctx_id addr bytes dest_node
            (record m { stores = store ∷ m.stores })

  -- Polls until an incoming send arrives or the simulator says that the clients have finished.
  unfoldable pub poll_loop : (fuel : ℕ) (junk : Success) → Machine → Outcome (Success × Machine)
  poll_loop zero junk m = spins
  poll_loop (suc f) junk m = elim (rmc_check_cq hw (suc f) junk m) [
    | none ↦ spins
    | some (r, m') ↦
        (let again = poll_loop f junk m' in
          if not (r.op == rmc_incoming_send) && not m'.client_done then again else done (r, m'))
  ]

-- `RPCWithHeader`
pub record RpcWithHeader : Type 0 where
  pub rpc_len : ℕ
  pub rpc_type : ℕ
  pub rpc_id : ℕ
  pub senders_qp : ℕ
  pub senders_nid : ℕ
  pub payload : ℕ
  pub payload_len : ℕ

-- The variables that hold whatever the stack held: the poll's result, the header that is returned,
-- and the two 64-bit variables of the worker.
pub record Junk : Type 0 where
  pub poll : Success
  pub rpc : RpcWithHeader
  pub source_node_id : ℕ
  pub source_qp_to_reply : ℕ

-- A store through a `uint16_t *` to a 64-bit variable changes its low half word only.
abbrev pub store16 : (old new : ℕ) → ℕ
store16 old new = old / 2 ^ 16 * 2 ^ 16 + u16 new

module _ (hw : ℕ → Machine → Machine) where
  -- The header returned, what `*source_node_id` holds afterwards, and the machine.
  unfoldable pub receive_rpc_request_zsim_l3fwd :
      (fuel : ℕ)
      → Context
      → (serv_qp_id : ℕ) → Junk
      → Machine
      → Outcome (RpcWithHeader × ℕ × Machine)
  receive_rpc_request_zsim_l3fwd fuel c serv_qp_id junk m = do
    qp ← qp_at c serv_qp_id
    (r, m') ← poll_loop hw fuel junk.poll m
    if m'.client_done
        then done (record junk.rpc { payload_len = 0xdead }, junk.source_node_id, m')
        else done (
          record junk.rpc { payload = r.recv_buf_addr; senders_nid = u16 r.tid },
          store16 junk.source_node_id r.tid,
          m',
        )

-- The assertion allows one more than `at` does; the result of the post is not looked at.
unfoldable pub do_recv_zsim :
    Context → (cl_tid rbuf_slot_ptr free_size_bytes : ℕ) → Machine → Outcome Machine
do_recv_zsim c cl_tid rbuf_slot_ptr free_size_bytes m =
    if ltb (length c.qps) cl_tid then throws else do
      qp ← qp_at c cl_tid
      done ((rmc_hw_recv c.ctx_struct.ctx_id rbuf_slot_ptr free_size_bytes m).1)
