-- ===== src/Nic/Rounds.antt =====
-- A queue of 128 slots with a sense bit counts without bound: position `n` is slot `n % 128`, and
-- the bit is the parity of the rounds made.
use my_l3fwd.Prelude.{
  ℕ, ◌+◌, ◌/◌, ◌%◌, ◌<◌, ◌≡◌, refl, ◌≢◌, Bool, true, false, not, arith, ◌==◌, set,
}
use my_l3fwd.Nic.{Wq, Cq, advance}
use my_l3fwd.Nic.Check.{same_sense, tail_entry, consume}

abbrev pub slot_of : ℕ → ℕ
slot_of n = n % 128

abbrev pub sense : ℕ → Bool
sense n = n / 128 % 2 == 1

pub sense_wrap : (n : ℕ) → sense (n + 128) ≡ not (sense n)
sense_wrap n = ground arith

-- Positions less than a round apart have different slots.
pub slot_ne : (n k : ℕ) → 0 < k → k < 128 → slot_of (n + k) ≢ slot_of n
slot_ne n k p q = omega arith

abbrev pub At : ℕ → ℕ → Bool → Type 0
At n i s = (i ≡ slot_of n) × (s ≡ sense n)

-- The head of the work queue counts the posts.
pub advance-At : (n : ℕ) (w : Wq) → At n w.head w.sr → At (n + 1) (advance w).head (advance w).sr
unfolding advance
advance-At n w a = ground arith

pub q-advance : (w : Wq) → (advance w).q ≡ w.q
unfolding advance
q-advance w = ground arith

-- The tail of the completion queue counts the entries read.
pub consume-At : (n : ℕ) (c : Cq) → At n c.tail c.sr → At (n + 1) (consume c).tail (consume c).sr
unfolding consume
consume-At n c a = ground arith

pub consume_within :
    (c : Cq) → c.tail + 1 < 128 → ((consume c).tail ≡ c.tail + 1) × ((consume c).sr ≡ c.sr)
unfolding consume
consume_within c h = ground arith

pub consume_wrap :
    (c : Cq) → c.tail + 1 ≡ 128 → ((consume c).tail ≡ 0) × ((consume c).sr ≡ not c.sr)
unfolding consume
consume_wrap c h = ground arith

pub q-consume : (c : Cq) → (consume c).q ≡ set c.q c.tail (record (tail_entry c) { valid = false })
unfolding consume
q-consume c = ground arith

pub same_sense_iff : (a b : Bool) → same_sense a b ≡ true → a ≡ b
same_sense_iff true b h = ground arith
same_sense_iff false b h = ground arith

pub same_sense_refl : (a : Bool) → same_sense a a ≡ true
same_sense_refl true = refl
same_sense_refl false = refl

pub same_sense-not : (a b : Bool) → a ≡ not b → same_sense a b ≡ false
same_sense-not a true h = ground arith
same_sense-not a false h = ground arith
