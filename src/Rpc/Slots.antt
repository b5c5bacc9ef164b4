-- ===== src/Rpc/Slots.antt =====
-- The slots of a thread's local buffer, which `sendToNode_zsim` of rpc_shm/rpc.cpp addresses by
-- `getUnderlyingAddress` of rpc_shm/rpc.h.
use my_l3fwd.Prelude.{ℕ, ◌+◌, ◌*◌, ◌%◌, ◌≤◌, ◌<◌, ◌≡◌, ◌↔◌, arith, true, refl}
use my_l3fwd.Nic.Setup.{CtxEntry, kal_reg_send_recv_bufs}
use my_l3fwd.Rpc.{create_rpc_numa_context, get_lbuf_size, get_underlying_address, lbuf_offset}

-- In a context whose control structure was allocated, the slot that message number `count` of at
-- least one and at most 512 bytes gets lies within the local buffer exactly when `count % 256` is
-- below 64, although the buffer has room for 256 messages.
pub lbuf_slot_iff :
    (junk : CtxEntry) (total_nodes qp_start qp_end base count bytes : ℕ)
    → 0 < bytes
    → bytes ≤ 512
    → let c = create_rpc_numa_context true junk total_nodes qp_start qp_end in
      (get_lbuf_size c ≡ 256 * 512)
      × ((get_underlying_address base (lbuf_offset c.ctx_struct count) + bytes
            ≤ base + get_lbuf_size c)
          ↔ (count % 256 < 64))
unfolding create_rpc_numa_context kal_reg_send_recv_bufs get_underlying_address lbuf_offset
lbuf_slot_iff junk total_nodes qp_start qp_end base count bytes some_bytes small =
    (refl, (λ h. omega arith, λ h. omega arith))
