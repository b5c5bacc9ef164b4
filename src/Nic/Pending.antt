-- ===== src/Nic/Pending.antt =====
-- The completion queue as the reader's end of a stream of entries, and what a poll does with it.
use native.Mathlib.Decide.{ℕ_discrete}
use my_l3fwd.Prelude.{
  ℕ, suc, ◌+◌, ◌≤◌, ◌<◌, ◌≡◌, refl, sym, ◌∙◌, ap, ◌≢◌, true, false, not, arith, some, length,
  get_or, length-set, get_or-set_self, get_or-set_ne,
}
use my_l3fwd.Nic.{
  rmc_incoming_send, CqEntry, Wq, Cq, Success, no_cqe, Machine, head_entry, register_buffer,
}
use my_l3fwd.Nic.Check.{
  same_sense, tail_entry, consume, returned, goes_on, classify, count_round, inner, outer, tick,
  rmc_check_cq, fresh,
}
use my_l3fwd.Nic.Rounds.{slot_of, sense, At, consume-At, q-consume, same_sense_refl, same_sense-not}

-- The hardware has written the entries of the stream from `n` up to `stop`, each with the sense of
-- its round; the slot behind them still has the other sense.
pub record Delivered (stream : ℕ → CqEntry) (n stop : ℕ) (c : Cq) : Type 0 where
  pub size : length c.q ≡ 128
  pub at : At n c.tail c.sr
  pub fits : stop ≤ n + 128
  pub written : (j : ℕ) → n ≤ j → j < stop → get_or c.q (slot_of j) no_cqe ≡ stream j
  pub sensed : (j : ℕ) → n ≤ j → j < stop → (stream j).sr ≡ sense j
  pub stale : (get_or c.q (slot_of stop) no_cqe).sr ≡ not (sense stop)

-- Reading an entry changes no other slot, and no sense bit.
consume-other : (c : Cq) (i : ℕ) → i ≢ c.tail → get_or (consume c).q i no_cqe ≡ get_or c.q i no_cqe
consume-other c i ne =
    rw q-consume (
      get_or-set_ne c.q c.tail i (record (tail_entry c) { valid = false }) no_cqe (λ e. ne (sym e)))

pub consume-sr :
    (c : Cq) (i : ℕ)
    → c.tail < length c.q
    → (get_or (consume c).q i no_cqe).sr ≡ (get_or c.q i no_cqe).sr
consume-sr c i h = elim (ℕ_discrete i c.tail) [
  | yes e ↦ rw (
    q-consume c,
    e,
    get_or-set_self c.q c.tail (record (tail_entry c) { valid = false }) no_cqe h,
  )
  | no ne ↦ ap (λ (x : CqEntry). x.sr) (consume-other c i ne)
]

module _ {stream : ℕ → CqEntry} {n stop : ℕ} {c : Cq} (d : Delivered stream n stop c) where
  pub tail_of_Delivered : n < stop → tail_entry c ≡ stream n
  tail_of_Delivered h = rw (d.at.0) (d.written n (omega arith) h)

  -- Reading the entry at the tail leaves the rest of the stream.
  pub consume-Delivered : n < stop → Delivered stream (n + 1) stop (consume c)
  consume-Delivered h = record {
    size = rw (q-consume, length-set) d.size;
    at = consume-At n c d.at;
    fits = omega (arith, d.fits);
    written = λ j p q.
        consume-other c (slot_of j) (omega (arith, d.at, d.fits)) ∙ d.written j (omega arith) q;
    sensed = λ j p q. d.sensed j (omega arith) q;
    stale = consume-sr c (slot_of stop) (omega (arith, d.at, d.size)) ∙ d.stale;
  }

  -- Behind the last entry the tail shows the other sense.
  pub tail_of_stop : n ≡ stop → same_sense (tail_entry c).sr c.sr ≡ false
  tail_of_stop e = same_sense-not _ _ (
      ap (λ i. (get_or c.q i no_cqe).sr) (omega (arith, d.at))
      ∙ d.stale
      ∙ ap not (ap sense (sym e) ∙ sym (d.at.1)))

  pub tail_sensed : n < stop → same_sense (stream n).sr c.sr ≡ true
  tail_sensed h = rw (d.sensed n (omega arith) h, d.at.1) (same_sense_refl (sense n))

-- What a poll returns for an incoming send.
abbrev pub incoming : CqEntry → Success
incoming e = record {
  success = 1;
  op = rmc_incoming_send;
  tid = e.tid;
  recv_buf_addr = e.recv_buf_addr;
}

classify-incoming :
    (w : Wq) (e : CqEntry) (again : ℕ) (junk : Success)
    → e.success ≡ 0x7f
    → classify w e again (fresh junk) ≡ returned (incoming e)
unfolding classify
classify-incoming w e again junk h = rw h refl

inner-incoming :
    (f : ℕ) (junk : Success) (m : Machine)
    → same_sense (tail_entry m.cq).sr m.cq.sr ≡ true
    → (tail_entry m.cq).success ≡ 0x7f
    → inner (suc f) true (fresh junk) m
      ≡ some (returned (incoming (tail_entry m.cq)), record m { cq = consume m.cq })
unfolding inner count_round
inner-incoming f junk m new h =
    rw (new, classify-incoming m.wq (tail_entry m.cq) (tail_entry m.cq).success junk h)

inner-nothing :
    (f : ℕ) (junk : Success) (m : Machine)
    → same_sense (tail_entry m.cq).sr m.cq.sr ≡ false
    → inner (suc f) true (fresh junk) m ≡ some (goes_on (fresh junk), m)
unfolding inner
inner-nothing f junk m old = rw old

module _ (hw : ℕ → Machine → Machine) where
  -- A poll that finds an incoming send.
  pub rmc_check_cq-incoming :
      {stream : ℕ → CqEntry} {n stop : ℕ} (m : Machine)
      → Delivered stream n stop (tick hw m).cq
      → n < stop
      → (stream n).success ≡ 0x7f
      → (f : ℕ) (junk : Success)
      → rmc_check_cq hw (suc f) junk m
        ≡ some (incoming (stream n), record (tick hw m) { cq = consume (tick hw m).cq })
  unfolding rmc_check_cq outer count_round
  rmc_check_cq-incoming {stream} {n} m d h e f junk = rw (← tail_of_Delivered d h) (
      rw (
        inner-incoming 128 junk (tick hw m) (rw (tail_of_Delivered d h) (tail_sensed d h))
            (rw (tail_of_Delivered d h) e),
        rmc_check_cq,
        outer,
      ))

  -- If, when the hardware has acted, entries `n` to `stop - 1` of a stream stand unread in the
  -- completion queue, each with the sense of its round, and entry `n` is an incoming send, then the
  -- first round of `rmc_check_cq` returns the sender and the address of entry `n`; entries `n + 1`
  -- to `stop - 1` then stand unread, at a tail and with a sense that are those of position `n + 1`,
  -- and the work queue and the flag are as the hardware left them.
  pub rmc_check_cq-next :
      {stream : ℕ → CqEntry} {n stop : ℕ} (m : Machine)
      → Delivered stream n stop (tick hw m).cq
      → n < stop
      → (stream n).success ≡ 0x7f
      → (f : ℕ) (junk : Success)
      → (r : Success) × (m' : Machine) × (rmc_check_cq hw (suc f) junk m ≡ some (r, m'))
        × ((r.success ≡ 1) × (r.op ≡ rmc_incoming_send))
        × ((r.tid ≡ (stream n).tid) × (r.recv_buf_addr ≡ (stream n).recv_buf_addr))
        × Delivered stream (n + 1) stop m'.cq
        × (m'.wq ≡ (tick hw m).wq)
        × (m'.client_done ≡ (tick hw m).client_done)
  rmc_check_cq-next {stream} {n} m d h e f junk = (
    incoming (stream n),
    record (tick hw m) { cq = consume (tick hw m).cq },
    rmc_check_cq-incoming m d h e f junk,
    (refl, refl),
    (refl, refl),
    consume-Delivered d h,
    refl,
    refl,
  )

  -- A poll that finds nothing, with the slot at the head of the work queue free.
  pub rmc_check_cq-nothing :
      {stream : ℕ → CqEntry} {n : ℕ} (m : Machine)
      → Delivered stream n n (tick hw m).cq
      → (head_entry (tick hw m)).valid ≡ false
      → (f : ℕ) (junk : Success)
      → rmc_check_cq hw (suc f) junk m ≡ some (fresh junk, register_buffer 1 0x11 (tick hw m))
  unfolding rmc_check_cq outer count_round
  rmc_check_cq-nothing m d free f junk =
      rw (inner-nothing 128 junk (tick hw m) (tail_of_stop d refl), rmc_check_cq, outer, free)
