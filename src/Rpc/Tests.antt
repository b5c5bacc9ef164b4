-- ===== src/Rpc/Tests.antt =====
-- A context of three nodes with two threads for each client, and instances of the theorems about its
-- circular buffers.
use my_l3fwd.Rpc.Stats.{
  read_from_file, write_to_file, read_each, read, bytes_of, resize, Fits,
  read_from_file-write_to_file,
}
use my_l3fwd.Prelude.{
  take, drop, ◌++◌, ◌∷◌, inr, ℕ, ◌+◌, ◌*◌, ◌%◌, ◌^◌, ◌≡◌, ◌↔◌, refl, arith, false, [],
  if◌then◌else◌, ltb, ◌==◌,
}
use my_l3fwd.Rpc.{done, throws, ◌>>=◌}
use my_l3fwd.Rpc.Buffers.{
  BufferContext, setup_circular_buffers, poll_result, poll_on_buffer_number, get_cbuf_idx,
}
use my_l3fwd.Rpc.Header.{
  create_rpc_struct, pack_payload, unpack_buffer_to_rpc_layer, align, calc_total_header_bytes,
}
use my_l3fwd.Rpc.Header.Roundtrip.{payload_place_iff, unpack-pack, unpack-pack_payload}
use my_l3fwd.Rpc.Layout.{Separate, get_cbuf_idx_iff}
use my_l3fwd.Rpc.Polls.{increments, polls_entry}

abbrev two_clients : BufferContext
two_clients = record {
  circ_buffers = [];
  pgas = 0x10000;
  total_node_count = 3;
  threads_per_client = 2;
}

-- The example of the comment in the source.
client_example : get_cbuf_idx two_clients 2 1 1 ≡ 7
unfolding get_cbuf_idx
client_example = refl

abbrev threads : ℕ
threads = 2

get_cbuf_idx_iff_example : Separate two_clients 2 threads 4 ↔ (threads ≡ 2)
get_cbuf_idx_iff_example =
    get_cbuf_idx_iff two_clients 2 2 refl refl (omega arith) (omega arith) (omega arith) 4
      (omega arith) (omega arith) (omega arith) (omega arith)

polls_entry_example :
    (increments 257 3 (setup_circular_buffers 0 64 4 4 4 false two_clients) >>= λ c.
    poll_on_buffer_number c 3 (λ a. (a == 0x612000, a)))
    ≡ (if ltb 3 (4 * 4)
        then done (
            poll_result (
              0x10000 + 3 * 2 ^ 21 + 257 % 256 * 8192 == 0x612000,
              0x10000 + 3 * 2 ^ 21 + 257 % 256 * 8192,
            ))
        else throws)
polls_entry_example =
    polls_entry 0 64 4 4 4 false two_clients (omega arith) 257 3 (λ a. (a == 0x612000, a))

-- Each byte of the memory is the low byte of its address.
abbrev low_bytes : ℕ → ℕ
low_bytes a = a % 256

payload_place_iff_example :
    (align (0x1004 + 12) ≡ 0x1004 + calc_total_header_bytes) ↔ (0x1004 % 8 ≡ 0)
payload_place_iff_example = payload_place_iff 0x1004 (omega arith)

unpack-pack_example :
    unpack_buffer_to_rpc_layer 0x1000
      (pack_payload (create_rpc_struct 1 0x1234 3 4 40 0x2000) 0x1000 low_bytes)
    ≡ create_rpc_struct 1 0x1234 3 4 40 (0x1000 + 16)
unpack-pack_example =
    unpack-pack 1 0x1234 3 4 40 0x2000 (omega arith) (omega arith) (omega arith) (omega arith)
      (omega arith) 0x1000 (omega arith) low_bytes

unpack-pack_payload_example :
    let mem' = pack_payload (create_rpc_struct 1 0x1234 3 4 40 0x2000) 0x1000 low_bytes in
    mem' ((unpack_buffer_to_rpc_layer 0x1000 mem').payload + 7) ≡ low_bytes (0x2000 + 7)
unpack-pack_payload_example =
    unpack-pack_payload 1 0x1234 3 4 40 0x2000 (omega arith) (omega arith) (omega arith)
      (omega arith) (omega arith) 0x1000 (omega arith) low_bytes 7 (omega arith) refl
      (inr (omega arith))

-- Two statistics of eight bytes, read into a container of one, with three asked for.
two_statistics :
    read_from_file 8 3 (write_to_file 8 (7 ∷ 2 ^ 40 ∷ [])) (5 ∷ []) ≡ 7 ∷ 2 ^ 40 ∷ 0 ∷ []
unfolding read_from_file read_each read write_to_file bytes_of resize
two_statistics = refl

read_from_file-write_to_file_example :
    read_from_file 8 3 (write_to_file 8 (7 ∷ 2 ^ 40 ∷ [])) (5 ∷ [])
    ≡ take 3 (7 ∷ 2 ^ 40 ∷ []) ++ drop 2 (resize 3 (5 ∷ []))
unfolding Fits
read_from_file-write_to_file_example =
    read_from_file-write_to_file 8 3 (7 ∷ 2 ^ 40 ∷ []) (5 ∷ []) (omega arith)
      (omega arith, (omega arith, tt))
