-- ===== src/Cbuf/Runs.antt =====
-- The sense bits of a sender's copy: a message writes the bit of its entry and moves the tail
-- (`writeSRMetadata` and `incTail` of rpc_shm/cbuf.cpp, in the order of `remoteBufferWrite` of
-- rpc_shm/rpc.cpp).
use my_l3fwd.Prelude.{
  ℕ, zero, suc, ◌+◌, ◌^◌, ◌≤◌, ◌<◌, ◌≡◌, refl, sym, ◌∙◌, ap, arith, Bool, true, false, not, Option,
  none, some, List, [], ◌∷◌, ◌==◌, ltb, leb, get_elem?, get_or, set, length, length-set,
  get_or-set_self, get_or-set_ne, get_or-replicate, length-replicate, Bool-cases, inl, inr, u64,
}
use my_l3fwd.Cbuf.{
  CircularReceiveBuffer, new_buffer, advance_tail, flag_full, bits_agree, inc_tail,
  write_sr_metadata,
}

-- One message.
unfoldable pub send : CircularReceiveBuffer → Option CircularReceiveBuffer
send b = elim (write_sr_metadata b.tail b) [ none ↦ none | some c ↦ inc_tail c ]

-- Entries before the tail carry the sense of this lap, the others that of the lap before.
pub record Sense (b : CircularReceiveBuffer) : Type 0 where
  pub owner : b.is_sender ≡ true
  pub fits : b.num_entries < 2 ^ 64
  pub tail_in : b.tail < b.num_entries
  pub entries : length b.sr_vector ≡ b.num_entries
  pub before : (i : ℕ) → i < b.tail → get_or b.sr_vector i true ≡ b.buffer_sr
  pub after : (i : ℕ) → b.tail ≤ i → i < b.num_entries → get_or b.sr_vector i true ≡ not b.buffer_sr

pub new_buffer-Sense : (base size n : ℕ) → 0 < n → n < 2 ^ 64 → Sense (new_buffer base size n true)
new_buffer-Sense base size n pos small = record {
  owner = refl;
  fits = small;
  tail_in = pos;
  entries = length-replicate n true;
  before = λ i lt. absurd (omega arith);
  after = λ i le lt. get_or-replicate n i true true lt;
}

get_elem?_of_get_or :
    (xs : List Bool) (i : ℕ) → i < length xs → get_elem? xs i ≡ some (get_or xs i true)
get_elem?_of_get_or [] i lt = absurd (omega arith)
get_elem?_of_get_or (x ∷ xs) zero lt = refl
get_elem?_of_get_or (x ∷ xs) (suc i) lt = get_elem?_of_get_or xs i (omega arith)

bits_agree-opposite : (s : Bool) → bits_agree (not s) s ≡ false
unfolding bits_agree
bits_agree-opposite true = refl
bits_agree-opposite false = refl

not-not : (s : Bool) → not (not s) ≡ s
not-not true = refl
not-not false = refl

-- The buffer with the bit of the tail's entry written.
abbrev pub marked : CircularReceiveBuffer → CircularReceiveBuffer
marked b = record b { sr_vector = set b.sr_vector b.tail b.buffer_sr }

module _ (b : CircularReceiveBuffer) (p : Sense b) where
  marked-length : length (marked b).sr_vector ≡ b.num_entries
  marked-length = length-set b.sr_vector b.tail b.buffer_sr ∙ p.entries

  -- The new entry carries the sense as well.
  marked-before : (i : ℕ) → i ≤ b.tail → get_or (marked b).sr_vector i true ≡ b.buffer_sr
  marked-before i le = elim (Bool-cases (i == b.tail)) [
    | inl here ↦
        ap (λ j. get_or (marked b).sr_vector j true) (ground (arith, here))
        ∙ get_or-set_self b.sr_vector b.tail b.buffer_sr true (omega (arith, p.tail_in, p.entries))
    | inr other ↦
        get_or-set_ne b.sr_vector b.tail i b.buffer_sr true (λ e. ground (arith, e, other))
        ∙ p.before i (ground (arith, other, le))
  ]

  marked-after :
      (i : ℕ)
      → b.tail < i
      → i < b.num_entries
      → get_or (marked b).sr_vector i true ≡ not b.buffer_sr
  marked-after i lt bound =
      get_or-set_ne b.sr_vector b.tail i b.buffer_sr true (λ e. omega arith)
      ∙ p.after i (omega arith) bound

  advance_tail-Sense : Sense (advance_tail (marked b))
  unfolding advance_tail
  advance_tail-Sense = elim (Bool-cases (leb b.num_entries (u64 (b.tail + 1)))) [
    | inl wraps ↦ rw wraps record {
      owner = p.owner;
      fits = p.fits;
      tail_in = omega (arith, p.tail_in);
      entries = marked-length;
      before = λ i lt. absurd (omega arith);
      after = λ i le lt.
          marked-before i (ground (arith, wraps, p.tail_in, p.fits)) ∙ sym (not-not b.buffer_sr);
    }
    | inr next ↦ rw next record {
      owner = p.owner;
      fits = p.fits;
      tail_in = ground (arith, next);
      entries = marked-length;
      before = λ i lt. marked-before i (omega (arith, p.tail_in, p.fits));
      after = λ i le lt. marked-after i (omega (arith, p.tail_in, p.fits)) lt;
    }
  ]

flag_full-Sense : (b : CircularReceiveBuffer) → Sense b → Sense (flag_full b)
unfolding flag_full
flag_full-Sense b p = elim (Bool-cases (b.tail == b.senders_head)) [
  | inl meets ↦ rw meets record {
    owner = p.owner;
    fits = p.fits;
    tail_in = p.tail_in;
    entries = p.entries;
    before = p.before;
    after = p.after;
  }
  | inr apart ↦ rw apart p
]

-- What a message leaves.
abbrev pub sent : CircularReceiveBuffer → CircularReceiveBuffer
sent b = flag_full (advance_tail (marked b))

pub sent-Sense : (b : CircularReceiveBuffer) → Sense b → Sense (sent b)
sent-Sense b p = flag_full-Sense (advance_tail (marked b)) (advance_tail-Sense b p)

write_here : (b : CircularReceiveBuffer) → Sense b → write_sr_metadata b.tail b ≡ some (marked b)
unfolding write_sr_metadata
write_here b p =
    let in_range : ltb b.tail (length b.sr_vector) ≡ true = ground (arith, p.tail_in, p.entries) in
    rw in_range refl

inc_tail-checked :
    (c : CircularReceiveBuffer)
    → let moved = flag_full (advance_tail c) in
      c.is_sender ≡ true
      → get_elem? moved.sr_vector moved.tail ≡ some (not moved.buffer_sr)
      → inc_tail c ≡ some moved
unfolding inc_tail
inc_tail-checked c owner at =
    rw (at, bits_agree-opposite (flag_full (advance_tail c)).buffer_sr, owner) refl

-- The assertion on the sense holds.
pub send-sent : (b : CircularReceiveBuffer) → Sense b → send b ≡ some (sent b)
unfolding send
send-sent b p =
    let q = sent-Sense b p in
    let at =
      get_elem?_of_get_or (sent b).sr_vector (sent b).tail (omega (arith, q.tail_in, q.entries))
      ∙ ap some (q.after (sent b).tail (omega arith) q.tail_in) in
    rw (write_here b p, send) (inc_tail-checked (marked b) p.owner at)

-- One message after the other, whether there is room or not.
abbrev pub messages : ℕ → CircularReceiveBuffer → Option CircularReceiveBuffer
messages zero b = some b
messages (suc k) b = elim (send b) [ none ↦ none | some c ↦ messages k c ]

messages-Sense :
    (k : ℕ) (b : CircularReceiveBuffer)
    → Sense b
    → (b' : CircularReceiveBuffer) × (messages k b ≡ some b') × Sense b'
messages-Sense zero b p = (b, refl, p)
messages-Sense (suc k) b p =
    let (c, e, q) = messages-Sense k (sent b) (sent-Sense b p) in
    (c, rw (send-sent b p, messages) e, q)

-- The assertions of `incTail` never stop a sender, however many messages it sends: a message that
-- overwrites an entry in use is not noticed, and the sense bits are as in a buffer with room.
pub messages_return :
    (base size n k : ℕ)
    → 0 < n
    → n < 2 ^ 64
    → (b : CircularReceiveBuffer) × (messages k (new_buffer base size n true) ≡ some b) × Sense b
messages_return base size n k pos small =
    messages-Sense k (new_buffer base size n true) (new_buffer-Sense base size n pos small)
