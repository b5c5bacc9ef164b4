-- ===== src/Cbuf/Receiver.antt =====
-- The receiver's copy of a circular buffer (`incHeadAfterMsgProcessed` of rpc_shm/cbuf.cpp), and the
-- entries at which the two sides meet.
use mathlib.Core.Path.{subst}
use native.Mathlib.Nat.{mul-div_cancel, mul-lt-mul_of_pos_right, mod-lt, mod-eq_of_lt}
use my_l3fwd.Prelude.{
  ℕ, zero, suc, ◌+◌, ◌-◌, ◌*◌, ◌/◌, ◌^◌, ◌%◌, ◌<◌, ◌≤◌, ◌≡◌, ◌≢◌, refl, sym, ◌∙◌, ap, ap₂, arith,
  Bool, true, false, some, ◌==◌, leb, if◌then◌else◌, u64, Bool-cases, inl, inr,
}
use my_l3fwd.Cbuf.{
  CircularReceiveBuffer, new_buffer, advance_tail, flag_full, inc_head_after_msg_processed,
  inc_senders_head_to_free_space, get_head_address, get_tail_address,
}
use my_l3fwd.Cbuf.Modulus.{add_mod_cases, add_mod-ne}
use my_l3fwd.Cbuf.Runs.{sent, send-sent}
use my_l3fwd.Cbuf.Protocol.{Run, start, sends, frees, Run-Holds, same_result}

-- The receiver has processed `k` messages.
abbrev pub received : (k : ℕ) → CircularReceiveBuffer → CircularReceiveBuffer
received zero b = b
received (suc k) b = inc_head_after_msg_processed (received k b)

-- Entries at one address are one entry, when the entries have room in the address space.
same_index :
    (base size n x y : ℕ)
    → 0 < size
    → n * size ≤ 2 ^ 64
    → x < n
    → y < n
    → base + u64 (x * size) ≡ base + u64 (y * size)
    → x ≡ y
same_index base size n x y some_bytes fits lx ly e =
    let below_x = mul-lt-mul_of_pos_right lx some_bytes in
    let below_y = mul-lt-mul_of_pos_right ly some_bytes in
    let same_offset : x * size ≡ y * size = omega (arith, e, below_x, below_y, fits) in
    sym (mul-div_cancel x some_bytes) ∙ ap (λ z. z / size) same_offset ∙ mul-div_cancel y some_bytes

-- The address and the size of the entries.
pub record Placed (base size : ℕ) (b : CircularReceiveBuffer) : Type 0 where
  pub based : b.base_pointer ≡ base
  pub sized : b.entry_byte_size ≡ size

module _ (base size n : ℕ) (pos : 0 < n) (small : n < 2 ^ 64) where
  inc_head-Placed :
      (b : CircularReceiveBuffer)
      → Placed base size b
      → Placed base size (inc_head_after_msg_processed b)
  unfolding inc_head_after_msg_processed
  inc_head-Placed b p = elim (Bool-cases (leb b.num_entries (u64 (b.head + 1)))) [
    | inl wraps ↦ rw wraps record { based = p.based; sized = p.sized }
    | inr next ↦ rw next record { based = p.based; sized = p.sized }
  ]

  sent-Placed : (b : CircularReceiveBuffer) → Placed base size b → Placed base size (sent b)
  unfolding flag_full advance_tail
  sent-Placed b p = record { based = ground (arith, p.based); sized = ground (arith, p.sized) }

  free-Placed :
      (inc : ℕ) (b b' : CircularReceiveBuffer)
      → b.is_sender ≡ true
      → inc_senders_head_to_free_space inc b ≡ some b'
      → Placed base size b
      → Placed base size b'
  unfolding inc_senders_head_to_free_space
  free-Placed inc b b' owner e p =
      let sum = u64 (b.senders_head + inc) in
      let new_head = if leb b.num_entries sum then 0 else sum in
      let moved : CircularReceiveBuffer = record b { senders_head = new_head } in
      let cleared : CircularReceiveBuffer = record b { senders_head = new_head; is_full = false } in
      elim (Bool-cases (b.tail == new_head)) [
        | inl meets ↦
            let now : inc_senders_head_to_free_space inc b ≡ some moved = rw (owner, meets) refl in
            subst (Placed base size) (same_result now e) record { based = p.based; sized = p.sized }
        | inr apart ↦
            let now : inc_senders_head_to_free_space inc b ≡ some cleared =
              rw (apart, owner) refl in
            subst (Placed base size) (same_result now e) record { based = p.based; sized = p.sized }
      ]

  Run-Placed : {f d : ℕ} {b : CircularReceiveBuffer} → Run base size n f d b → Placed base size b
  Run-Placed start = record { based = refl; sized = refl }
  Run-Placed (sends {f} {d} {b} r room e) =
      subst (Placed base size)
        (same_result (send-sent b (Run-Holds base size n pos small r).sense) e)
        (sent-Placed b (Run-Placed r))
  Run-Placed (frees {f} {d} {b} {b'} inc r le lt fits e) =
      free-Placed inc b b' (Run-Holds base size n pos small r).sense.owner e (Run-Placed r)

  module _ (c : Bool) where
    abbrev fresh : CircularReceiveBuffer
    fresh = new_buffer base size n c

    received-Placed : (k : ℕ) → Placed base size (received k fresh)
    received-Placed zero = record { based = refl; sized = refl }
    received-Placed (suc k) = inc_head-Placed (received k fresh) (received-Placed k)

    inc_head-fields :
        (b : CircularReceiveBuffer)
        → ((inc_head_after_msg_processed b).head
            ≡ (if leb b.num_entries (u64 (b.head + 1)) then 0 else u64 (b.head + 1)))
          × ((inc_head_after_msg_processed b).num_entries ≡ b.num_entries)
    unfolding inc_head_after_msg_processed
    inc_head-fields b = (ground arith, ground arith)

    received-head :
        (k : ℕ) → ((received k fresh).head ≡ k % n) × ((received k fresh).num_entries ≡ n)
    received-head zero = (sym (mod-eq_of_lt pos), refl)
    received-head (suc k) =
        let (at, count) = received-head k in
        let (moves, same) = inc_head-fields (received k fresh) in
        let one_more : (k + 1) % n ≡ suc k % n = ap (λ x. x % n) (omega arith) in
        (
          elim (add_mod_cases n k 1 pos (omega arith)) [
            | inl (short, e) ↦ ground (arith, short, e, one_more, moves, at, count, small)
            | inr (long, e) ↦
                ground (arith, long, e, one_more, moves, at, count, small, mod-lt k pos)
          ],
          same ∙ count,
        )

    pub head_place : (k : ℕ) → get_head_address (received k fresh) ≡ base + u64 (k % n * size)
    unfolding get_head_address
    head_place k =
        ap₂ (λ x y. x + y) (received-Placed k).based
          (ap₂ (λ x y. u64 (x * y)) ((received-head k).0) (received-Placed k).sized)

  module _ (receivers : Bool) {f d : ℕ} {b : CircularReceiveBuffer}
      (r : Run base size n f d b) where
    tail_place : get_tail_address b ≡ base + u64 ((f + d) % n * size)
    unfolding get_tail_address
    tail_place =
        ap₂ (λ x y. x + y) (Run-Placed r).based
          (ap₂ (λ x y. u64 (x * y)) (Run-Holds base size n pos small r).tail_at
            (Run-Placed r).sized)

    -- After f + d messages, on a run of a new sender's copy of n entries, 0 < n < 2 ^ 64, in which a
    -- message is sent only with a free entry, and entries are given back no more than are in use,
    -- fewer than n at once, and not past the last one: the entry for the next message is the one
    -- that a receiver polls who has processed f + d messages.
    pub Run-meets :
        get_tail_address b ≡ get_head_address (received (f + d) (new_buffer base size n receivers))
    Run-meets = tail_place ∙ sym (head_place receivers (f + d))

    -- On a run of a new sender's copy of n entries, 0 < n < 2 ^ 64, in which a message is sent only
    -- with a free entry, and entries are given back no more than are in use, fewer than n at once,
    -- and not past the last one; with a free entry, and entries that are not empty and take no more
    -- than 2 ^ 64 bytes together: the entry for the next message is none of the d entries in use,
    -- which the receiver polls after f + i messages, i < d.
    pub Run-apart :
        (i : ℕ)
        → 0 < size
        → n * size ≤ 2 ^ 64
        → d < n
        → i < d
        → get_tail_address b
          ≢ get_head_address (received (f + i) (new_buffer base size n receivers))
    Run-apart i some_bytes fits room lt e =
        let same_entry : (f + d) % n ≡ (f + i) % n =
          same_index base size n _ _ some_bytes fits (mod-lt (f + d) pos) (mod-lt (f + i) pos)
            (sym tail_place ∙ e ∙ head_place receivers (f + i)) in
        add_mod-ne n (f + i) (d - i) pos (omega arith) (omega arith)
          (ap (λ x. x % n) (omega arith) ∙ same_entry)
