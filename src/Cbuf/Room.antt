-- ===== src/Cbuf/Room.antt =====
-- The state of a sender's copy of a circular buffer as two counters, of the entries freed and of those
-- in use (`incTail` and `incSendersHeadToFreeSpace` of rpc_shm/cbuf.cpp).
use my_l3fwd.Prelude.{
  ℕ, ◌+◌, ◌-◌, ◌%◌, ◌≤◌, ◌<◌, ◌≡◌, ◌≢◌, refl, sym, ◌∙◌, ap, arith, Bool, true, false, some, ◌==◌,
  leb, if◌then◌else◌, u64, Bool-cases, inl, inr,
}
use my_l3fwd.Cbuf.{CircularReceiveBuffer, advance_tail, flag_full, inc_senders_head_to_free_space}
use my_l3fwd.Cbuf.Modulus.{add_mod_cases, add_mod-ne, add_mod-full}
use my_l3fwd.Cbuf.Runs.{Sense, sent, sent-Sense}

-- Of `n` entries, `f` have been freed so far and `d` are in use.
pub record Holds (n f d : ℕ) (b : CircularReceiveBuffer) : Type 0 where
  pub sense : Sense b
  pub count : b.num_entries ≡ n
  pub room : d ≤ n
  pub head_at : b.senders_head ≡ f % n
  pub tail_at : b.tail ≡ (f + d) % n
  pub full_at : b.is_full ≡ (d == n)

sent-tail :
    (b : CircularReceiveBuffer)
    → (sent b).tail ≡ (if leb b.num_entries (u64 (b.tail + 1)) then 0 else u64 (b.tail + 1))
unfolding flag_full advance_tail
sent-tail b = ground arith

sent-num_entries : (b : CircularReceiveBuffer) → (sent b).num_entries ≡ b.num_entries
unfolding flag_full advance_tail
sent-num_entries b = ground arith

sent-senders_head : (b : CircularReceiveBuffer) → (sent b).senders_head ≡ b.senders_head
unfolding flag_full advance_tail
sent-senders_head b = ground arith

sent-is_full :
    (b : CircularReceiveBuffer)
    → (sent b).is_full ≡ (if (sent b).tail == b.senders_head then true else b.is_full)
unfolding flag_full advance_tail
sent-is_full b = ground arith

pub send-Holds :
    (n f d : ℕ) (b : CircularReceiveBuffer) → d < n → Holds n f d b → Holds n f (d + 1) (sent b)
send-Holds n f d b lt p =
    let q = sent-Sense b p.sense in
    let assoc : (f + d + 1) % n ≡ (f + (d + 1)) % n = ap (λ x. x % n) (omega arith) in
    let next : (sent b).tail ≡ (f + (d + 1)) % n =
      elim (add_mod_cases n (f + d) 1 (omega arith) (omega arith)) [
        | inl (short, e) ↦
            ground (arith, sent-tail b, short, e, assoc, p.count, p.tail_at, p.sense.fits)
        | inr (long, e) ↦
            ground (
              arith,
              sent-tail b,
              long,
              e,
              assoc,
              p.count,
              p.tail_at,
              p.sense.fits,
              p.sense.tail_in,
            )
      ] in
    record {
      sense = q;
      count = sent-num_entries b ∙ p.count;
      room = omega arith;
      head_at = sent-senders_head b ∙ p.head_at;
      tail_at = next;
      full_at = elim (Bool-cases (d + 1 == n)) [
        | inl full ↦
            let around : (f + (d + 1)) % n ≡ f % n =
              ap (λ x. (f + x) % n) (ground (arith, full)) ∙ add_mod-full n f (omega arith) in
            ground (arith, full, around, next, sent-is_full b, p.head_at)
        | inr room ↦
            let apart : (f + (d + 1)) % n ≢ f % n =
              add_mod-ne n f (d + 1) (omega arith) (omega arith) (ground (arith, room)) in
            ground (arith, room, apart, next, sent-is_full b, p.head_at, p.full_at)
      ];
    }

-- The flag when the head meets the tail: all entries are in use, as they were, or none is.
full-meets :
    (n f d inc : ℕ)
    → inc < n
    → inc ≤ d
    → d ≤ n
    → (f + (d - inc)) % n ≡ f % n
    → (d == n) ≡ (d - inc == n)
full-meets n f d inc lt le room meets = elim (Bool-cases (d - inc == 0)) [
  | inl none_left ↦ ground (arith, none_left)
  | inr some_left ↦ elim (Bool-cases (leb n (d - inc))) [
    | inr left ↦ absurd (
        add_mod-ne n f (d - inc) (omega arith) (ground (arith, some_left)) (ground (arith, left))
          meets)
    | inl full ↦ ground (arith, full, room)
  ]
]

full-apart : (n f d : ℕ) → 0 < n → (f + d) % n ≢ f % n → false ≡ (d == n)
full-apart n f d pos apart = elim (Bool-cases (d == n)) [
  | inl full ↦ absurd (apart (ap (λ x. (f + x) % n) (ground (arith, full)) ∙ add_mod-full n f pos))
  | inr room ↦ sym room
]

Sense-moved :
    (b : CircularReceiveBuffer) (full : Bool) (h : ℕ)
    → Sense b
    → Sense (record b { is_full = full; senders_head = h })
Sense-moved b full h p = record {
  owner = p.owner;
  fits = p.fits;
  tail_in = p.tail_in;
  entries = p.entries;
  before = p.before;
  after = p.after;
}

pub free-Holds :
    (n f d inc : ℕ) (b : CircularReceiveBuffer)
    → inc ≤ d
    → inc < n
    → f % n + inc ≤ n
    → Holds n f d b
    → (b' : CircularReceiveBuffer) × (inc_senders_head_to_free_space inc b ≡ some b')
      × Holds n (f + inc) (d - inc) b'
unfolding inc_senders_head_to_free_space
free-Holds n f d inc b le lt fits p =
    let sum = u64 (b.senders_head + inc) in
    let new_head = if leb b.num_entries sum then 0 else sum in
    let moves : new_head ≡ (f + inc) % n =
      elim (add_mod_cases n f inc (omega arith) (omega arith)) [
        | inl (short, e) ↦ ground (arith, short, e, p.head_at, p.count, p.sense.fits)
        | inr (long, e) ↦ ground (arith, long, e, p.head_at, p.count, p.sense.fits, fits)
      ] in
    let assoc : (f + d) % n ≡ (f + inc + (d - inc)) % n = ap (λ x. x % n) (omega arith) in
    elim (Bool-cases (b.tail == new_head)) [
      | inl meets ↦ (
        record b { senders_head = new_head },
        rw (p.sense.owner, meets) refl,
        record {
          sense = Sense-moved b b.is_full new_head p.sense;
          count = p.count;
          room = omega (arith, p.room);
          head_at = moves;
          tail_at = p.tail_at ∙ assoc;
          full_at =
              p.full_at
              ∙ full-meets n (f + inc) d inc lt le p.room
                  (sym assoc ∙ sym p.tail_at ∙ ground (arith, meets) ∙ moves);
        },
      )
      | inr apart ↦ (
        record b { senders_head = new_head; is_full = false },
        rw (apart, p.sense.owner) refl,
        record {
          sense = Sense-moved b false new_head p.sense;
          count = p.count;
          room = omega (arith, p.room);
          head_at = moves;
          tail_at = p.tail_at ∙ assoc;
          full_at =
              full-apart n (f + inc) (d - inc) (omega arith)
                (λ e. ground (arith, apart, p.tail_at, assoc, moves, e));
        },
      )
    ]
