-- ===== src/Rpc/Header.antt =====
-- The header of a message (`createRPCStruct`, `packPayload` and `unpackBufferToRPCLayer` of
-- rpc_shm/rpc.cpp in the ZSIM build). The memory is the byte at each address, the least significant
-- byte of a number first.
pub mod Bytes
pub mod Roundtrip
use native.Mathlib.Nat.{mul_comm}
use my_l3fwd.Prelude.{
  ℕ, zero, suc, ◌+◌, ◌-◌, ◌*◌, ◌/◌, ◌%◌, ◌^◌, ◌≤◌, ◌<◌, ◌≡◌, ◌≢◌, ◌⊎◌, ◌↔◌, refl, sym, ◌∙◌, ap,
  arith, Bool, ◌&&◌, ◌==◌, ltb, leb, if◌then◌else◌, u8, u16, u32, u64, Bool-cases, inl, inr,
}
use my_l3fwd.Rpc.{RpcWithHeader}

abbrev pub Memory : Type 0
Memory = ℕ → ℕ

abbrev pub get_alignment_req : ℕ
get_alignment_req = 8

unfoldable pub calc_total_header_bytes : ℕ
calc_total_header_bytes =
    let hbytes = 4 + 2 * 1 + 2 + 2 + 2 in u32 (hbytes + hbytes % get_alignment_req)

unfoldable pub get_payload_bytes : RpcWithHeader → ℕ
get_payload_bytes r = u32 (r.rpc_len + 2 ^ 32 - calc_total_header_bytes)

-- The arguments have the widths of the C types.
unfoldable pub create_rpc_struct :
    (a_type an_rpc_id a_qp_id a_nid a_payload_len a_payload_pointer : ℕ) → RpcWithHeader
create_rpc_struct a_type an_rpc_id a_qp_id a_nid a_payload_len a_payload_pointer = record {
  rpc_len = u32 (calc_total_header_bytes + a_payload_len);
  rpc_type = a_type;
  rpc_id = an_rpc_id;
  senders_qp = a_qp_id;
  senders_nid = a_nid;
  payload = a_payload_pointer;
  payload_len = a_payload_len;
}

abbrev pub write_byte : (a v : ℕ) → Memory → Memory
write_byte a v mem x = if x == a then v else mem x

-- The `n` bytes of a number.
abbrev pub store_bytes : (n a v : ℕ) → Memory → Memory
store_bytes zero a v mem = mem
store_bytes (suc n) a v mem = store_bytes n (a + 1) (v / 256) (write_byte a (v % 256) mem)

abbrev pub load_bytes : (n a : ℕ) → Memory → ℕ
load_bytes zero a mem = 0
load_bytes (suc n) a mem = mem a + 256 * load_bytes n (a + 1) mem

-- `memcpy`, whose two areas do not overlap.
abbrev pub copy_bytes : (to from n : ℕ) → Memory → Memory
copy_bytes to from n mem x = if leb to x && ltb x (to + n) then mem (from + (x - to)) else mem x

-- The alignment: what the address is past a multiple of 8 is added to it.
unfoldable pub align : ℕ → ℕ
align buf = if buf % get_alignment_req == 0 then buf else u64 (buf + buf % get_alignment_req)

unfoldable pub pack_payload : RpcWithHeader → (buf : ℕ) → Memory → Memory
pack_payload rpc buf mem =
    let m₁ = store_bytes 4 buf rpc.rpc_len mem in
    let m₂ = store_bytes 1 (buf + 4) rpc.rpc_type m₁ in
    let m₃ = store_bytes 2 (buf + 6) rpc.rpc_id m₂ in
    let m₄ = store_bytes 2 (buf + 8) rpc.senders_qp m₃ in
    let m₅ = store_bytes 2 (buf + 10) rpc.senders_nid m₄ in
    copy_bytes (align (buf + 12)) rpc.payload rpc.payload_len m₅

-- The address that is aligned here is not used.
unfoldable pub unpack_buffer_to_rpc_layer : (buf : ℕ) → Memory → RpcWithHeader
unpack_buffer_to_rpc_layer buf mem =
    let rpc_len = load_bytes 4 buf mem in
    let rpc_type = load_bytes 1 (buf + 4) mem in
    let rpc_id = load_bytes 2 (buf + 6) mem in
    let senders_qp = load_bytes 2 (buf + 8) mem in
    let senders_nid = load_bytes 2 (buf + 10) mem in
    create_rpc_struct rpc_type rpc_id senders_qp senders_nid
      (u32 (rpc_len + 2 ^ 32 - calc_total_header_bytes)) (buf + calc_total_header_bytes)
