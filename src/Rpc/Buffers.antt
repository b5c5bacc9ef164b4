-- ===== src/Rpc/Buffers.antt =====
-- The circular buffers of a context (`setupCircularBuffers`, `getCBufIdx` and the calls on one buffer
-- of rpc_shm/rpc.cpp).
use my_l3fwd.Prelude.{
  ℕ, zero, suc, ◌+◌, ◌-◌, ◌*◌, ◌^◌, Bool, true, false, Option, none, some, List, [], ◌∷◌, get_elem?,
  set, u32, u64,
}
use my_l3fwd.Cbuf.{
  CircularReceiveBuffer, new_buffer, get_head_address, inc_head_after_msg_processed,
  inc_senders_head_to_free_space, zero_entry_number, get_reserved_memory_bytes,
}
use my_l3fwd.Rpc.{Outcome, done, throws, ◌>>=◌, msgs_per_pair}

abbrev pub emulator_sw_page_size : ℕ
emulator_sw_page_size = 8192

-- The fields of `rpcNUMAContext` that the circular buffers use.
pub record BufferContext : Type 0 where
  pub circ_buffers : List CircularReceiveBuffer
  pub pgas : ℕ
  pub total_node_count : ℕ
  pub threads_per_client : ℕ

-- The buffers from the base pointer on.
unfoldable pub make_buffers :
    (rounds buffer_base_pointer : ℕ) (are_senders_copies : Bool) → List CircularReceiveBuffer
make_buffers zero base copies = []
make_buffers (suc k) base copies =
    let b = new_buffer base emulator_sw_page_size msgs_per_pair copies in
    b ∷ make_buffers k (base + get_reserved_memory_bytes b) copies

-- The first three arguments are not used.
unfoldable pub setup_circular_buffers :
    (nid_to_create_on entry_byte_size num_entries number_of_senders number_of_receivers : ℕ)
    (are_senders_copies : Bool)
    → BufferContext
    → BufferContext
setup_circular_buffers nid size entries senders receivers copies ctx = record ctx {
  circ_buffers = make_buffers (u64 (senders * receivers)) ctx.pgas copies;
}

-- `circ_buffers.at`
unfoldable pub buffer_at : BufferContext → ℕ → Outcome CircularReceiveBuffer
buffer_at ctx i = elim (get_elem? ctx.circ_buffers i) [ none ↦ throws | some b ↦ done b ]

-- The poll function is given the address of the local variable, and may change it.
unfoldable pub poll_result : Bool × ℕ → Option ℕ
poll_result (true, poll_loc) = some poll_loc
poll_result (false, poll_loc) = none

unfoldable pub poll_on_buffer_number :
    BufferContext → (buf_number : ℕ) (dec : ℕ → Bool × ℕ) → Outcome (Option ℕ)
poll_on_buffer_number ctx i dec = do
  rbuf ← buffer_at ctx i
  done (poll_result (dec (get_head_address rbuf)))

unfoldable pub zero_out_rbuf_head :
    BufferContext → (buffer_number : ℕ) (mem : ℕ → ℕ) → Outcome (ℕ → ℕ)
zero_out_rbuf_head ctx i mem = do ptr ← buffer_at ctx i; done (zero_entry_number ptr.head ptr mem)

unfoldable pub increment_buffer_head : BufferContext → (buf_number : ℕ) → Outcome BufferContext
increment_buffer_head ctx i = do
  b ← buffer_at ctx i
  done (record ctx { circ_buffers = set ctx.circ_buffers i (inc_head_after_msg_processed b) })

unfoldable pub get_buffer_head_index : BufferContext → (buffer_number : ℕ) → Outcome ℕ
get_buffer_head_index ctx i = do b ← buffer_at ctx i; done b.head

unfoldable pub flow_control_update_senders_head :
    (inc : ℕ) → CircularReceiveBuffer → Outcome CircularReceiveBuffer
flow_control_update_senders_head inc b = elim (inc_senders_head_to_free_space inc b) [
  | none ↦ throws
  | some b' ↦ done b'
]

abbrev pub get_num_clients : BufferContext → ℕ
get_num_clients ctx = u32 (ctx.total_node_count + 2 ^ 32 - 1)

-- The products of two `unsigned` numbers are 32 bits wide.
unfoldable pub get_cbuf_idx : BufferContext → (cl_nid cl_tid sr_thread : ℕ) → ℕ
get_cbuf_idx ctx cl_nid cl_tid sr_thread =
    let zero_shifted_cl_nid = u32 (cl_nid + 2 ^ 32 - 1) in
    let bufs_per_serv_thread = u32 (get_num_clients ctx * ctx.threads_per_client) in
    let serv_region_idx = u64 (sr_thread * bufs_per_serv_thread) in
    let client_buffer = u32 (u32 (zero_shifted_cl_nid * get_num_clients ctx) + cl_tid) in
    u64 (serv_region_idx + client_buffer)

unfoldable pub get_buffer_idx : BufferContext → (cl_nid cl_tid serv_tid : ℕ) → ℕ
get_buffer_idx ctx cl_nid cl_tid serv_tid = get_cbuf_idx ctx cl_nid cl_tid serv_tid
