-- ===== src/Nic/Post.antt =====
-- What the two posting routines do to the work queue.
use my_l3fwd.Prelude.{
  ℕ, ◌+◌, ◌≤◌, ◌<◌, ◌≡◌, refl, sym, ◌∙◌, ap, ◌≢◌, Bool, true, false, arith, length, get_or, set,
  length-set, get_or-set_self, get_or-set_ne, ◌∷◌, u32, u64, ◌>>>◌, ◌^◌, ◌*◌,
}
use my_l3fwd.Nic.{
  rmc_send, rmc_recv, WqEntry, Wq, no_wqe, Machine, head_entry, register_buffer, create_wq_entry,
  advance, ok, rmc_hw_send, rmc_hw_recv, notify_wq_write,
}
use my_l3fwd.Nic.Rounds.{slot_of, sense, At, advance-At, q-advance}

-- `n` posts have been made, and the slots of posts `n` to `stop - 1` are free.
pub record Room (n stop : ℕ) (w : Wq) : Type 0 where
  pub size : length w.q ≡ 128
  pub at : At n w.head w.sr
  pub fits : stop ≤ n + 128
  pub free : (j : ℕ) → n ≤ j → j < stop → (get_or w.q (slot_of j) no_wqe).valid ≡ false

-- The queue with an entry at its head, and the machine after the post.
abbrev pub put : WqEntry → Wq → Wq
put e w = advance (record w { q = set w.q w.head e })

abbrev pub post : WqEntry → Machine → Machine
post e m = record m { wq = put e m.wq; magic = (0, notify_wq_write) ∷ m.magic }

abbrev pub send_entry : (sr : Bool) (ctx_id data_address length nid : ℕ) → WqEntry
send_entry sr ctx_id data_address length nid = record {
  op = rmc_send;
  sr = sr;
  valid = true;
  buf_addr = data_address;
  cid = u32 ctx_id;
  nid = nid;
  offset = 0;
  length = u64 (length + 63) >>> 6;
}

abbrev pub recv_entry : (sr : Bool) (ctx_id recv_buf length : ℕ) → WqEntry
recv_entry sr ctx_id recv_buf length = record {
  op = rmc_recv;
  sr = sr;
  valid = true;
  buf_addr = recv_buf;
  cid = ctx_id;
  nid = 0;
  offset = 0;
  length = length;
}

pub rmc_hw_send-free :
    (ctx_id addr bytes nid : ℕ) (m : Machine)
    → (head_entry m).valid ≡ false
    → rmc_hw_send ctx_id addr bytes nid m ≡ (ok, post (send_entry m.wq.sr ctx_id addr bytes nid) m)
unfolding rmc_hw_send create_wq_entry register_buffer
rmc_hw_send-free ctx_id addr bytes nid m h = rw h

pub rmc_hw_recv-free :
    (ctx_id addr bytes : ℕ) (m : Machine)
    → (head_entry m).valid ≡ false
    → rmc_hw_recv ctx_id addr bytes m ≡ (ok, post (recv_entry m.wq.sr ctx_id addr bytes) m)
unfolding rmc_hw_recv create_wq_entry register_buffer
rmc_hw_recv-free ctx_id addr bytes m h = rw h

module _ {n stop : ℕ} {w : Wq} (r : Room n stop w) (e : WqEntry) where
  pub q-put : (put e w).q ≡ set w.q w.head e
  q-put = q-advance (record w { q = set w.q w.head e })

  -- A post takes the slot of its number and leaves the rest of the room.
  pub put-Room : n < stop → Room (n + 1) stop (put e w)
  put-Room h = record {
    size = rw (q-put, length-set) r.size;
    at = advance-At n (record w { q = set w.q w.head e }) r.at;
    fits = omega (arith, r.fits);
    free = λ j p q.
        ap (λ l. (get_or l (slot_of j) no_wqe).valid) q-put
        ∙ ap (λ (x : WqEntry). x.valid)
            (get_or-set_ne w.q w.head (slot_of j) e no_wqe (omega (arith, r.at, r.fits)))
        ∙ r.free j (omega arith) q;
  }

  -- The entry stands in the slot of its number.
  pub put_self : get_or (put e w).q (slot_of n) no_wqe ≡ e
  put_self =
      ap (λ l. get_or l (slot_of n) no_wqe) q-put
      ∙ ap (λ i. get_or (set w.q w.head e) i no_wqe) (sym (r.at.0))
      ∙ get_or-set_self w.q w.head e no_wqe (omega (arith, r.at, r.size))

  -- No other slot changes.
  pub put_other : (i : ℕ) → i ≢ slot_of n → get_or (put e w).q i no_wqe ≡ get_or w.q i no_wqe
  put_other i ne =
      ap (λ l. get_or l i no_wqe) q-put
      ∙ get_or-set_ne w.q w.head i e no_wqe (λ p. ne (sym p ∙ r.at.0))

pub head_of_Room :
    {n stop : ℕ} (m : Machine) → Room n stop m.wq → n < stop → (head_entry m).valid ≡ false
head_of_Room {n} m r h = rw (r.at.0) (r.free n (omega arith) h)

-- With room for it, post number `n` of a message is accepted: its slot `n % 128` gets a send entry
-- with the sense of its round and the length in cache lines, rounded up; every other slot, the
-- completion queue and the stores stay; the room shrinks by that slot.
pub rmc_hw_send_lem :
    {n stop : ℕ} (ctx_id addr bytes nid : ℕ) (m : Machine)
    → Room n stop m.wq
    → n < stop
    → bytes + 63 < 2 ^ 64
    → let (result, m') = rmc_hw_send ctx_id addr bytes nid m in
      let e = get_or m'.wq.q (slot_of n) no_wqe in
      (result ≡ ok)
      × Room (n + 1) stop m'.wq
      × ((e.op ≡ rmc_send)
          × (e.sr ≡ sense n)
          × (e.valid ≡ true)
          × (e.nid ≡ nid)
          × (e.buf_addr ≡ addr))
      × ((bytes ≤ e.length * 64) × (e.length * 64 < bytes + 64))
      × ((i : ℕ) → i ≢ slot_of n → get_or m'.wq.q i no_wqe ≡ get_or m.wq.q i no_wqe)
      × (m'.cq ≡ m.cq)
      × (m'.stores ≡ m.stores)
rmc_hw_send_lem {n} ctx_id addr bytes nid m r h small =
    rw (rmc_hw_send-free ctx_id addr bytes nid m (head_of_Room m r h)) (
      refl,
      put-Room r e h,
      rw (put_self r e) (refl, r.at.1, refl, refl, refl),
      rw (put_self r e) (omega arith, omega arith),
      put_other r e,
      refl,
      refl,
    )
  where
    e : WqEntry
    e = send_entry m.wq.sr ctx_id addr bytes nid
