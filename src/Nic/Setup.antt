-- ===== src/Nic/Setup.antt =====
-- The registration routines at the end of libzsim/zsim_nic_defines.cpp.
use my_l3fwd.Prelude.{
  ℕ, ◌+◌, ◌-◌, ◌%◌, ◌^◌, Bool, Option, none, some, List, ◌==◌, if◌then◌else◌, replicate, u16,
}
use my_l3fwd.Nic.{cache_block_size}

-- EMULATOR_SW_PAGE_SIZE of the ZSIM build.
abbrev pub page_size : ℕ
page_size = 8192

-- `send_buf_management_t`
pub record SendCtrl : Type 0 where
  pub head : ℕ
  pub tail : ℕ
  pub lock : ℕ

-- `ctx_entry_t`; a pointer is an address, 0 for a null pointer.
pub record CtxEntry : Type 0 where
  pub ctx_id : ℕ
  pub ctx_base_addr : ℕ
  pub send_buf_addr : ℕ
  pub recv_buf_addr : ℕ
  pub num_nodes : ℕ
  pub msg_entry_size : ℕ
  pub msgs_per_dest : ℕ
  pub buf_management : List SendCtrl

-- The result 0 or -1.
pub data Kal : Type 0 where
  registered failed : Kal

-- `ctx_entry` is `none` for a null pointer; `malloc` says whether the control structures, one for
-- each node, were allocated. The buffers' base addresses are passed through.
unfoldable pub kal_reg_send_recv_bufs :
    (malloc : Bool)
    → Option CtxEntry
    → (send_buf_base send_buf_entries msg_entry_size num_nodes recv_buf_base : ℕ)
    → Kal × Option CtxEntry
kal_reg_send_recv_bufs malloc none send_base entries size nodes recv_base = (failed, none)
kal_reg_send_recv_bufs malloc (some e) send_base entries size nodes recv_base =
    let sized : CtxEntry = record e {
      msg_entry_size = size;
      num_nodes = u16 nodes;
      msgs_per_dest = entries;
    } in
    let ctrl : SendCtrl = record { head = 0; tail = u16 (entries + 2 ^ 64 - 1); lock = 0 } in
    if size % cache_block_size == 0
    then (if malloc
        then (
          registered,
          some (record sized {
            send_buf_addr = send_base;
            recv_buf_addr = recv_base;
            buf_management = replicate (u16 nodes) ctrl;
          }),
        )
        else (failed, some sized))
    else (failed, some e)

-- `alloc` is what `posix_memalign` leaves in `*ctx_ptr` when that was null; the result is 0 always.
unfoldable pub kal_reg_ctx : (alloc ctx_ptr : ℕ) → Kal × ℕ
kal_reg_ctx alloc ctx_ptr = (registered, if ctx_ptr == 0 then alloc else ctx_ptr)
