-- ===== src/Rpc/Polls.antt =====
-- Where a receiver polls (`setupCircularBuffers`, `pollOnBufferNumber` and `incrementBufferHead` of
-- rpc_shm/rpc.cpp).
use my_l3fwd.Prelude.{
  ℕ, zero, suc, ◌+◌, ◌*◌, ◌%◌, ◌^◌, ◌≤◌, ◌<◌, ◌≡◌, refl, ◌∙◌, ap, arith, Bool, ltb, if◌then◌else◌,
  none, some, get_elem?, set, get_elem?-lt, get_elem?-set_self, Bool-cases, inl, inr,
}
use native.Mathlib.Nat.{mod-eq_of_lt}
use my_l3fwd.Cbuf.{
  CircularReceiveBuffer, new_buffer, get_head_address, inc_head_after_msg_processed,
  get_reserved_memory_bytes,
}
use my_l3fwd.Cbuf.Receiver.{received, head_place}
use my_l3fwd.Rpc.{Outcome, done, throws, ◌>>=◌}
use my_l3fwd.Rpc.Buffers.{
  BufferContext, make_buffers, setup_circular_buffers, buffer_at, poll_result,
  poll_on_buffer_number, increment_buffer_head,
}

make_buffers-at :
    (k base : ℕ) (copies : Bool) (i : ℕ)
    → i < k
    → get_elem? (make_buffers k base copies) i
      ≡ some (new_buffer (base + i * 2 ^ 21) 8192 256 copies)
unfolding make_buffers get_reserved_memory_bytes
make_buffers-at zero base copies i lt = absurd (omega arith)
make_buffers-at (suc k) base copies zero lt =
    ap (λ b. some (new_buffer b 8192 256 copies)) (omega arith)
make_buffers-at (suc k) base copies (suc i) lt =
    make_buffers-at k (base + 2 ^ 21) copies i (omega arith)
    ∙ ap (λ b. some (new_buffer b 8192 256 copies)) (omega arith)

make_buffers-end :
    (k base : ℕ) (copies : Bool) (i : ℕ) → k ≤ i → get_elem? (make_buffers k base copies) i ≡ none
unfolding make_buffers
make_buffers-end zero base copies i le = refl
make_buffers-end (suc k) base copies zero le = absurd (omega arith)
make_buffers-end (suc k) base copies (suc i) le = make_buffers-end k _ copies i (omega arith)

-- `k` messages have been processed.
abbrev pub increments : (k i : ℕ) → BufferContext → Outcome BufferContext
increments zero i ctx = done ctx
increments (suc k) i ctx = increments k i ctx >>= λ c. increment_buffer_head c i

found :
    (c : BufferContext) (i : ℕ) {b : CircularReceiveBuffer}
    → get_elem? c.circ_buffers i ≡ some b
    → buffer_at c i ≡ done b
unfolding buffer_at
found c i at = rw (at, buffer_at) refl

missing : (c : BufferContext) (i : ℕ) → get_elem? c.circ_buffers i ≡ none → buffer_at c i ≡ throws
unfolding buffer_at
missing c i at = rw (at, buffer_at) refl

increment_buffer_head-at :
    (c : BufferContext) (i : ℕ) (b : CircularReceiveBuffer)
    → get_elem? c.circ_buffers i ≡ some b
    → increment_buffer_head c i
      ≡ done (record c { circ_buffers = set c.circ_buffers i (inc_head_after_msg_processed b) })
unfolding increment_buffer_head
increment_buffer_head-at c i b at =
    ap
      (λ o. o >>= λ b.
        done (record c { circ_buffers = set c.circ_buffers i (inc_head_after_msg_processed b) }))
      (found c i at)

increments-received :
    (k i : ℕ) (ctx : BufferContext) (b : CircularReceiveBuffer)
    → get_elem? ctx.circ_buffers i ≡ some b
    → (c : BufferContext) × (increments k i ctx ≡ done c)
      × (get_elem? c.circ_buffers i ≡ some (received k b))
increments-received zero i ctx b at = (ctx, refl, at)
increments-received (suc k) i ctx b at =
    let (c, e, now) = increments-received k i ctx b at in
    let next = received (suc k) b in
    (
      record c { circ_buffers = set c.circ_buffers i next },
      ap (λ o. o >>= λ c. increment_buffer_head c i) e
          ∙ increment_buffer_head-at c i (received k b) now,
      get_elem?-set_self c.circ_buffers i next (get_elem?-lt c.circ_buffers i now),
    )

increments-missing :
    (k i : ℕ) (ctx : BufferContext)
    → get_elem? ctx.circ_buffers i ≡ none
    → increments (suc k) i ctx ≡ throws
unfolding increment_buffer_head
increments-missing zero i ctx at =
    ap
      (λ o. o >>= λ b.
        done
          (record ctx { circ_buffers = set ctx.circ_buffers i (inc_head_after_msg_processed b) }))
      (missing ctx i at)
increments-missing (suc k) i ctx at =
    ap (λ o. o >>= λ c. increment_buffer_head c i) (increments-missing k i ctx at)

poll-at :
    (c : BufferContext) (i : ℕ) (dec : ℕ → Bool × ℕ) (b : CircularReceiveBuffer)
    → get_elem? c.circ_buffers i ≡ some b
    → poll_on_buffer_number c i dec ≡ done (poll_result (dec (get_head_address b)))
unfolding poll_on_buffer_number
poll-at c i dec b at =
    ap (λ o. o >>= λ b. done (poll_result (dec (get_head_address b)))) (found c i at)

poll-missing :
    (c : BufferContext) (i : ℕ) (dec : ℕ → Bool × ℕ)
    → get_elem? c.circ_buffers i ≡ none
    → poll_on_buffer_number c i dec ≡ throws
unfolding poll_on_buffer_number
poll-missing c i dec at =
    ap (λ o. o >>= λ b. done (poll_result (dec (get_head_address b)))) (missing c i at)

increments-poll_missing :
    (k i : ℕ) (dec : ℕ → Bool × ℕ) (ctx : BufferContext)
    → get_elem? ctx.circ_buffers i ≡ none
    → (increments k i ctx >>= λ c. poll_on_buffer_number c i dec) ≡ throws
increments-poll_missing zero i dec ctx at = poll-missing ctx i dec at
increments-poll_missing (suc k) i dec ctx at =
    ap (λ o. o >>= λ c. poll_on_buffer_number c i dec) (increments-missing k i ctx at)

module _ (nid size entries senders receivers : ℕ) (copies : Bool) (ctx : BufferContext)
    (count : senders * receivers < 2 ^ 64) where
  abbrev set_up : BufferContext
  set_up = setup_circular_buffers nid size entries senders receivers copies ctx

  buffers_set_up : set_up.circ_buffers ≡ make_buffers (senders * receivers) ctx.pgas copies
  unfolding setup_circular_buffers
  buffers_set_up = ap (λ k. make_buffers k ctx.pgas copies) (mod-eq_of_lt count)

  -- After the set-up of senders * receivers buffers, fewer than 2 ^ 64, and k messages processed
  -- at buffer i: if i is the number of a buffer, then the poll function is asked about the
  -- address of entry k % 256 of 8192 bytes of the i-th block of 2 ^ 21 bytes, and what it answers
  -- is the result; if not, the call throws. The size and the number of entries asked for do not
  -- matter.
  pub polls_entry :
      (k i : ℕ) (dec : ℕ → Bool × ℕ)
      → (increments k i (setup_circular_buffers nid size entries senders receivers copies ctx)
          >>= λ c. poll_on_buffer_number c i dec)
        ≡ (if ltb i (senders * receivers)
            then done (poll_result (dec (ctx.pgas + i * 2 ^ 21 + k % 256 * 8192)))
            else throws)
  polls_entry k i dec = elim (Bool-cases (ltb i (senders * receivers))) [
    | inl there ↦
        let base = ctx.pgas + i * 2 ^ 21 in
        let at =
          ap (λ bs. get_elem? bs i) buffers_set_up
          ∙ make_buffers-at (senders * receivers) ctx.pgas copies i (ground (arith, there)) in
        let (c, e, now) = increments-received k i set_up (new_buffer base 8192 256 copies) at in
        rw there (
          ap (λ o. o >>= λ c. poll_on_buffer_number c i dec) e
          ∙ poll-at c i dec _ now
          ∙ ap (λ a. done (poll_result (dec a)))
              (head_place base 8192 256 (omega arith) (omega arith) copies k ∙ omega arith))
    | inr beyond ↦
        let at =
          ap (λ bs. get_elem? bs i) buffers_set_up
          ∙ make_buffers-end (senders * receivers) ctx.pgas copies i (ground (arith, beyond)) in
        rw beyond (increments-poll_missing k i dec set_up at)
  ]
