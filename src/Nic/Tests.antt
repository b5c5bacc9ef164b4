-- ===== src/Nic/Tests.antt =====
-- Concrete queues, runs of the routines on them, and instances of the theorems about the queues.
use mathlib.Core.Path.{subst}
use my_l3fwd.Prelude.{
  ℕ, ◌+◌, ◌≤◌, ◌<◌, ◌≡◌, ◌≢◌, refl, ap, true, false, arith, some, [], ◌∷◌, get_or, get_or-replicate,
  replicate, ◌*◌,
}
use my_l3fwd.Nic.{
  rmc_incoming_send, WqEntry, CqEntry, Wq, Cq, Machine, Success, no_wqe, no_cqe, rmc_send,
  rmc_hw_send, ok,
}
use my_l3fwd.Nic.Check.{
  tick, consume, rmc_check_cq, fresh, inner, inner_fuel, outer, count_round, classify,
}
use my_l3fwd.Nic.Rounds.{slot_of, sense}
use my_l3fwd.Nic.Post.{Room, rmc_hw_send_lem}
use my_l3fwd.Nic.Pending.{Delivered, rmc_check_cq-next}
use my_l3fwd.Nic.Ends.{Total, inner-Total}

-- A request of node 5, in the first round of the queue.
abbrev pub request : CqEntry
request = record { sr = false; valid = true; success = 0x7f; tid = 5; recv_buf_addr = 4096 }

-- A slot that the hardware has not written in this round.
abbrev pub stale_entry : CqEntry
stale_entry = record no_cqe { sr = true }

abbrev one_request : Cq
one_request = record { q = request ∷ replicate 127 stale_entry; tail = 0; sr = false }

abbrev pub empty_wq : Wq
empty_wq = record { q = replicate 128 no_wqe; head = 0; sr = false }

abbrev pub one_pending : Machine
one_pending = record {
  wq = empty_wq;
  cq = one_request;
  client_done = false;
  magic = [];
  stores = [];
  clock = 0;
}

abbrev none_pending : Machine
none_pending = record one_pending { cq = record one_request { q = replicate 128 stale_entry } }

abbrev idle : ℕ → Machine → Machine
idle t m = m

at_zero : (P : ℕ → Type 0) → P 0 → (j : ℕ) → j < 1 → P j
at_zero P p j h = subst P (omega arith) p

pub one_pending-Delivered : Delivered (λ j. request) 0 1 one_request
one_pending-Delivered = record {
  size = refl;
  at = (refl, refl);
  fits = omega arith;
  written = λ j p q. at_zero (λ i. get_or one_request.q (slot_of i) no_cqe ≡ request) refl j q;
  sensed = λ j p q. at_zero (λ i. request.sr ≡ sense i) refl j q;
  stale = refl;
}

none_pending-Delivered : Delivered (λ j. request) 0 0 none_pending.cq
none_pending-Delivered = record {
  size = refl;
  at = (refl, refl);
  fits = omega arith;
  written = λ j p q. absurd (omega arith);
  sensed = λ j p q. absurd (omega arith);
  stale = refl;
}

pub empty_wq-Room : Room 0 128 empty_wq
empty_wq-Room = record {
  size = refl;
  at = (refl, refl);
  fits = omega arith;
  free = λ j p q.
      ap (λ (e : WqEntry). e.valid) (get_or-replicate 128 (slot_of j) no_wqe no_wqe (omega arith));
}

-- A run: the poll takes the request, and its slot is marked as read.
poll_takes :
    rmc_check_cq idle 1 (record { success = 0; op = 0; tid = 0; recv_buf_addr = 0 }) one_pending
    ≡ some (
      record { success = 1; op = 0x12; tid = 5; recv_buf_addr = 4096 },
      record one_pending {
        cq = record {
          q = record request { valid = false } ∷ replicate 127 stale_entry;
          tail = 1;
          sr = false;
        };
        clock = 1;
      },
    )
unfolding rmc_check_cq outer inner count_round tick classify consume
poll_takes = refl

abbrev no_success : Success
no_success = record { success = 0; op = 0; tid = 0; recv_buf_addr = 0 }

rmc_check_cq-next_example :
    (r : Success) × (m' : Machine) × (rmc_check_cq idle 1 no_success one_pending ≡ some (r, m'))
    × ((r.success ≡ 1) × (r.op ≡ rmc_incoming_send))
    × ((r.tid ≡ 5) × (r.recv_buf_addr ≡ 4096))
    × Delivered (λ j. request) 1 1 m'.cq
    × (m'.wq ≡ one_pending.wq)
    × (m'.client_done ≡ false)
unfolding tick
rmc_check_cq-next_example =
    rmc_check_cq-next idle {stream = λ j. request} {n = 0} {stop = 1} one_pending
      one_pending-Delivered (omega arith) refl 0 no_success

inner-Total_example : Total (inner inner_fuel true (fresh no_success) one_pending)
inner-Total_example = inner-Total true (fresh no_success) one_pending refl (omega arith)

-- A full queue: the head slot is still in use.
abbrev full : Machine
full = record one_pending {
  wq = record empty_wq { q = replicate 128 (record no_wqe { valid = true }) };
}

rmc_hw_send_lem_example :
    let (result, m') = rmc_hw_send 7 4096 65 5 one_pending in
    let e = get_or m'.wq.q (slot_of 0) no_wqe in
    (result ≡ ok)
    × Room (0 + 1) 128 m'.wq
    × ((e.op ≡ rmc_send) × (e.sr ≡ sense 0) × (e.valid ≡ true) × (e.nid ≡ 5) × (e.buf_addr ≡ 4096))
    × ((65 ≤ e.length * 64) × (e.length * 64 < 65 + 64))
    × ((i : ℕ) → i ≢ slot_of 0 → get_or m'.wq.q i no_wqe ≡ get_or one_pending.wq.q i no_wqe)
    × (m'.cq ≡ one_pending.cq)
    × (m'.stores ≡ one_pending.stores)
rmc_hw_send_lem_example =
    rmc_hw_send_lem {n = 0} {stop = 128} 7 4096 65 5 one_pending empty_wq-Room (omega arith)
      (omega arith)
