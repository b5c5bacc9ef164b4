-- ===== src/Rpc/Header/Roundtrip.antt =====
-- What `unpackBufferToRPCLayer` reads after `packPayload` (rpc_shm/rpc.cpp).
use my_l3fwd.Prelude.{
  ℕ, ◌+◌, ◌-◌, ◌%◌, ◌^◌, ◌≤◌, ◌<◌, ◌≡◌, ◌⊎◌, ◌↔◌, ◌∙◌, ap, arith, ◌&&◌, true, leb, ltb, u32, inl,
  inr,
}
use my_l3fwd.Rpc.{RpcWithHeader}
use my_l3fwd.Rpc.Header.{
  Memory, store_bytes, load_bytes, copy_bytes, align, calc_total_header_bytes, create_rpc_struct,
  pack_payload, unpack_buffer_to_rpc_layer,
}
use my_l3fwd.Rpc.Header.Bytes.{store_bytes-other, load_bytes-same, load_bytes-store}

-- A number stands past the stores of others and past the copy of the payload.
after_store :
    (n a k b v : ℕ) (mem : Memory)
    → (a + n ≤ b) ⊎ (b + k ≤ a)
    → load_bytes n a (store_bytes k b v mem) ≡ load_bytes n a mem
after_store n a k b v mem apart = load_bytes-same n a mem (store_bytes k b v mem) (λ x le lt.
    store_bytes-other k b v mem x
      (elim apart [ inl p ↦ inl (omega arith) | inr p ↦ inr (omega arith) ]))

after_copy :
    (n a to from k : ℕ) (mem : Memory)
    → a + n ≤ to
    → load_bytes n a (copy_bytes to from k mem) ≡ load_bytes n a mem
after_copy n a to from k mem below =
    load_bytes-same n a mem (copy_bytes to from k mem) (λ x le lt. ground arith)

align-ge : (buf : ℕ) → buf + 8 < 2 ^ 64 → buf ≤ align buf
unfolding align
align-ge buf small = ground arith

-- For addresses without overflow, the payload is packed where unpacking looks for it, 16 bytes
-- after the start, exactly when the start is a multiple of 8.
pub payload_place_iff :
    (buf : ℕ)
    → buf + 20 < 2 ^ 64
    → (align (buf + 12) ≡ buf + calc_total_header_bytes) ↔ (buf % 8 ≡ 0)
unfolding align calc_total_header_bytes
payload_place_iff buf small = (λ e. ground arith, λ e. ground arith)

module _ (a_type an_id a_qp a_nid len payload : ℕ) (type_byte : a_type < 2 ^ 8)
    (id_word : an_id < 2 ^ 16) (qp_word : a_qp < 2 ^ 16) (nid_word : a_nid < 2 ^ 16)
    (len_word : 16 + len < 2 ^ 32) (buf : ℕ) (in_memory : buf + 20 < 2 ^ 64) (mem : Memory) where
  abbrev m₁ : Memory
  m₁ = store_bytes 4 buf (16 + len) mem

  abbrev m₂ : Memory
  m₂ = store_bytes 1 (buf + 4) a_type m₁

  abbrev m₃ : Memory
  m₃ = store_bytes 2 (buf + 6) an_id m₂

  abbrev m₄ : Memory
  m₄ = store_bytes 2 (buf + 8) a_qp m₃

  abbrev m₅ : Memory
  m₅ = store_bytes 2 (buf + 10) a_nid m₄

  abbrev packed : Memory
  packed = copy_bytes (align (buf + 12)) payload len m₅

  pack-packed :
      pack_payload (create_rpc_struct a_type an_id a_qp a_nid len payload) buf mem ≡ packed
  unfolding pack_payload create_rpc_struct calc_total_header_bytes
  pack-packed =
      ap
        (λ l. copy_bytes (align (buf + 12)) payload len (
          store_bytes 2 (buf + 10) a_nid (
            store_bytes 2 (buf + 8) a_qp (
              store_bytes 2 (buf + 6) an_id
                (store_bytes 1 (buf + 4) a_type (store_bytes 4 buf l mem))))))
        (omega arith)

  below : buf + 12 ≤ align (buf + 12)
  below = align-ge (buf + 12) (omega arith)

  at_len : load_bytes 4 buf packed ≡ 16 + len
  at_len =
      after_copy 4 buf (align (buf + 12)) payload len m₅ (omega (arith, below))
      ∙ after_store 4 buf 2 (buf + 10) a_nid m₄ (inl (omega arith))
      ∙ after_store 4 buf 2 (buf + 8) a_qp m₃ (inl (omega arith))
      ∙ after_store 4 buf 2 (buf + 6) an_id m₂ (inl (omega arith))
      ∙ after_store 4 buf 1 (buf + 4) a_type m₁ (inl (omega arith))
      ∙ load_bytes-store 4 buf (16 + len) mem (omega arith)

  at_type : load_bytes 1 (buf + 4) packed ≡ a_type
  at_type =
      after_copy 1 (buf + 4) (align (buf + 12)) payload len m₅ (omega (arith, below))
      ∙ after_store 1 (buf + 4) 2 (buf + 10) a_nid m₄ (inl (omega arith))
      ∙ after_store 1 (buf + 4) 2 (buf + 8) a_qp m₃ (inl (omega arith))
      ∙ after_store 1 (buf + 4) 2 (buf + 6) an_id m₂ (inl (omega arith))
      ∙ load_bytes-store 1 (buf + 4) a_type m₁ (omega arith)

  at_id : load_bytes 2 (buf + 6) packed ≡ an_id
  at_id =
      after_copy 2 (buf + 6) (align (buf + 12)) payload len m₅ (omega (arith, below))
      ∙ after_store 2 (buf + 6) 2 (buf + 10) a_nid m₄ (inl (omega arith))
      ∙ after_store 2 (buf + 6) 2 (buf + 8) a_qp m₃ (inl (omega arith))
      ∙ load_bytes-store 2 (buf + 6) an_id m₂ (omega arith)

  at_qp : load_bytes 2 (buf + 8) packed ≡ a_qp
  at_qp =
      after_copy 2 (buf + 8) (align (buf + 12)) payload len m₅ (omega (arith, below))
      ∙ after_store 2 (buf + 8) 2 (buf + 10) a_nid m₄ (inl (omega arith))
      ∙ load_bytes-store 2 (buf + 8) a_qp m₃ (omega arith)

  at_nid : load_bytes 2 (buf + 10) packed ≡ a_nid
  at_nid =
      after_copy 2 (buf + 10) (align (buf + 12)) payload len m₅ (omega (arith, below))
      ∙ load_bytes-store 2 (buf + 10) a_nid m₄ (omega arith)

  abbrev source : RpcWithHeader
  source = create_rpc_struct a_type an_id a_qp a_nid len payload

  -- For fields within their widths, a message of 16 bytes and its payload below 2 ^ 32 bytes, and
  -- addresses without overflow: unpacking what was packed gives the same header and length, with
  -- the payload 16 bytes after the start.
  pub unpack-pack :
      unpack_buffer_to_rpc_layer buf
        (pack_payload (create_rpc_struct a_type an_id a_qp a_nid len payload) buf mem)
      ≡ create_rpc_struct a_type an_id a_qp a_nid len (buf + 16)
  unfolding unpack_buffer_to_rpc_layer calc_total_header_bytes
  unpack-pack =
      let built = λ (t i q n l : ℕ).
        create_rpc_struct t i q n (u32 (l + 2 ^ 32 - calc_total_header_bytes)) (buf + 16) in
      let l = load_bytes 4 buf packed in
      let i = load_bytes 2 (buf + 6) packed in
      let q = load_bytes 2 (buf + 8) packed in
      let n = load_bytes 2 (buf + 10) packed in
      ap (unpack_buffer_to_rpc_layer buf) pack-packed
      ∙ ap (λ t. built t i q n l) at_type
      ∙ ap (λ i. built a_type i q n l) at_id
      ∙ ap (λ q. built a_type an_id q n l) at_qp
      ∙ ap (λ n. built a_type an_id a_qp n l) at_nid
      ∙ ap (λ l. built a_type an_id a_qp a_nid l) at_len
      ∙ ap (λ l. create_rpc_struct a_type an_id a_qp a_nid l (buf + 16)) (omega arith)

  -- The header is written elsewhere.
  m₅-other : (x : ℕ) → (x < buf) ⊎ (buf + 12 ≤ x) → m₅ x ≡ mem x
  m₅-other x (inl p) =
      store_bytes-other 2 (buf + 10) a_nid m₄ x (inl (omega arith))
      ∙ store_bytes-other 2 (buf + 8) a_qp m₃ x (inl (omega arith))
      ∙ store_bytes-other 2 (buf + 6) an_id m₂ x (inl (omega arith))
      ∙ store_bytes-other 1 (buf + 4) a_type m₁ x (inl (omega arith))
      ∙ store_bytes-other 4 buf (16 + len) mem x (inl p)
  m₅-other x (inr p) =
      store_bytes-other 2 (buf + 10) a_nid m₄ x (inr (omega arith))
      ∙ store_bytes-other 2 (buf + 8) a_qp m₃ x (inr (omega arith))
      ∙ store_bytes-other 2 (buf + 6) an_id m₂ x (inr (omega arith))
      ∙ store_bytes-other 1 (buf + 4) a_type m₁ x (inr (omega arith))
      ∙ store_bytes-other 4 buf (16 + len) mem x (inr (omega arith))

  copied :
      (i : ℕ) → i < len → copy_bytes (buf + 16) payload len m₅ (buf + 16 + i) ≡ m₅ (payload + i)
  copied i lt =
      let inside : (leb (buf + 16) (buf + 16 + i) && ltb (buf + 16 + i) (buf + 16 + len)) ≡ true =
        ground arith in
      rw inside (ap (λ j. m₅ (payload + j)) (omega arith))

  -- For such fields and addresses, if the start is a multiple of 8 and the payload does not overlap
  -- the message, each byte of the payload stands where unpacking says that the payload is.
  pub unpack-pack_payload :
      (i : ℕ)
      → i < len
      → buf % 8 ≡ 0
      → (payload + len ≤ buf) ⊎ (buf + 16 + len ≤ payload)
      → let mem' = pack_payload (create_rpc_struct a_type an_id a_qp a_nid len payload) buf mem in
        mem' ((unpack_buffer_to_rpc_layer buf mem').payload + i) ≡ mem (payload + i)
  unfolding create_rpc_struct calc_total_header_bytes
  unpack-pack_payload i lt aligned apart =
      let place : align (buf + 12) ≡ buf + 16 = (payload_place_iff buf in_memory).1 aligned in
      let pointer = ap (λ (r : RpcWithHeader). r.payload) unpack-pack in
      ap (λ a. pack_payload source buf mem (a + i)) pointer
      ∙ ap (λ m. m (buf + 16 + i)) pack-packed
      ∙ ap (λ to. copy_bytes to payload len m₅ (buf + 16 + i)) place
      ∙ copied i lt
      ∙ m₅-other (payload + i)
          (elim apart [ inl p ↦ inl (omega arith) | inr p ↦ inr (omega arith) ])
