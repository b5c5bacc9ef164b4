-- ===== src/Cbuf/Protocol.antt =====
-- Runs of a sender's copy of a circular buffer and of the receiver's copy: messages, and entries
-- given back (rpc_shm/cbuf.cpp).
use mathlib.Core.Path.{subst}
use native.Mathlib.Nat.{mod-eq_of_lt}
use my_l3fwd.Prelude.{
  ℕ, ◌+◌, ◌-◌, ◌^◌, ◌%◌, ◌≤◌, ◌<◌, ◌≡◌, refl, sym, ◌∙◌, ap, arith, true, Option, none, some, ◌==◌,
  if◌then◌else◌,
}
use my_l3fwd.Cbuf.{
  CircularReceiveBuffer, new_buffer, inc_senders_head_to_free_space, get_buffer_size,
  get_avail_slots,
}
use my_l3fwd.Cbuf.Runs.{send, send-sent, new_buffer-Sense}
use my_l3fwd.Cbuf.Room.{Holds, send-Holds, free-Holds}
use my_l3fwd.Cbuf.Avail.{get_buffer_size-Holds, get_avail_slots-Holds}

-- After the steps `f` entries have been freed and `d` are in use. A message needs a free entry; the
-- entries given back are in use, are not all of the buffer, and do not go past its last entry.
pub data Run (base size n : ℕ) : (f d : ℕ) → CircularReceiveBuffer → Type 0 where
  start : Run base size n 0 0 (new_buffer base size n true)
  sends :
      {f d : ℕ} {b b' : CircularReceiveBuffer}
      → Run base size n f d b
      → d < n
      → send b ≡ some b'
      → Run base size n f (d + 1) b'
  frees :
      {f d : ℕ} {b b' : CircularReceiveBuffer} (inc : ℕ)
      → Run base size n f d b
      → inc ≤ d
      → inc < n
      → f % n + inc ≤ n
      → inc_senders_head_to_free_space inc b ≡ some b'
      → Run base size n (f + inc) (d - inc) b'

-- Two results of one call.
pub same_result : {A : Type 0} {o : Option A} {x y : A} → o ≡ some x → o ≡ some y → x ≡ y
same_result {A} {o} {x} {y} p q = ap (λ o. elim o as (λ o. A) [ none ↦ x | some z ↦ z ]) (sym p ∙ q)

module _ (base size n : ℕ) (pos : 0 < n) (small : n < 2 ^ 64) where
  new_buffer-Holds : Holds n 0 0 (new_buffer base size n true)
  new_buffer-Holds = record {
    sense = new_buffer-Sense base size n pos small;
    count = refl;
    room = omega arith;
    head_at = sym (mod-eq_of_lt pos);
    tail_at = sym (mod-eq_of_lt pos);
    full_at = ground arith;
  }

  -- On every run of a new sender's copy of n entries, 0 < n < 2 ^ 64, in which a message is sent only
  -- with a free entry, and entries are given back no more than are in use, fewer than n at once, and
  -- not past the last one: the fields implement two counters, of the entries freed and of those in
  -- use. The sender's head is the first modulo n, the tail is their sum modulo n, the buffer is
  -- flagged full exactly when n entries are in use, and the sense bits tell the entries of this lap
  -- from those of the lap before.
  pub Run-Holds : {f d : ℕ} {b : CircularReceiveBuffer} → Run base size n f d b → Holds n f d b
  Run-Holds start = new_buffer-Holds
  Run-Holds (sends {f} {d} {b} r room e) =
      let p = Run-Holds r in
      subst (Holds n f (d + 1)) (same_result (send-sent b p.sense) e) (send-Holds n f d b room p)
  Run-Holds (frees {f} {d} {b} inc r le lt fits e) =
      let (c, ec, q) = free-Holds n f d inc b le lt fits (Run-Holds r) in
      subst (Holds n (f + inc) (d - inc)) (same_result ec e) q

  -- On every run of a new sender's copy of n entries, 0 < n < 2 ^ 64, in which a message is sent only
  -- with a free entry, and entries are given back no more than are in use, fewer than n at once, and
  -- not past the last one: the buffer size and the number of free slots that the code computes are
  -- right when some entries are in use but not all, d and n - d. With no entry in use the size is n,
  -- and the free slots are n. With all n in use the size is 0, and the free slots are n again.
  pub get_avail_slots-Run :
      {f d : ℕ} {b : CircularReceiveBuffer}
      → Run base size n f d b
      → (get_buffer_size b ≡ (if d == 0 then n else if d == n then 0 else d))
        × (get_avail_slots b ≡ (if d == n then n else n - d))
  get_avail_slots-Run r =
      let p = Run-Holds r in (get_buffer_size-Holds pos p, get_avail_slots-Holds pos p)
