-- ===== src/Nic/Ends.antt =====
-- The inner loop of `rmc_check_cq` ends: the sense bits stop it after one round of the queue.
use native.Mathlib.Decide.{ℕ_discrete}
use my_l3fwd.Prelude.{
  ℕ, zero, suc, ◌+◌, ◌-◌, ◌≤◌, ◌<◌, ◌≡◌, ◌≢◌, refl, sym, ◌∙◌, ap, Bool, true, false, not, arith,
  ◌==◌, Option, some, length, get_or, length-set, inl, inr, Bool-cases,
}
use my_l3fwd.Nic.{Success, no_cqe, Machine}
use my_l3fwd.Nic.Check.{
  same_sense, tail_entry, consume, Round, returned, goes_on, classify, count_round, inner,
  inner_fuel,
}
use my_l3fwd.Nic.Rounds.{q-consume, same_sense-not, same_sense_iff, consume_within, consume_wrap}
use my_l3fwd.Nic.Pending.{consume-sr}

true-ne-false : true ≢ false
true-ne-false = ground arith

not-not : (b : Bool) → not (not b) ≡ b
not-not true = refl
not-not false = refl

abbrev pub Total {ℓ} : {A : Type ℓ} → Option A → Type ℓ
Total {A} o = (x : A) × (o ≡ some x)

-- The machine after a round that goes on.
abbrev step_of : Bool → Machine → Machine
step_of first m = record (count_round first 0x11 m) { cq = consume m.cq }

after :
    (c : Round) (m : Machine) (rest : Success → Option (Round × Machine))
    → ((r : Success) → Total (rest r))
    → Total {A = Round × Machine} (elim c as (λ _. Option (Round × Machine)) [
      | returned r ↦ some (returned r, m)
      | goes_on r ↦ rest r
    ])
after (returned r) m rest t = ((returned r, m), refl)
after (goes_on r) m rest t = t r

inner-suc :
    (f : ℕ) (first : Bool) (ret : Success) (m : Machine)
    → (same_sense (tail_entry m.cq).sr m.cq.sr ≡ true
        → (r : Success) → Total (inner f false r (step_of first m)))
    → Total (inner (suc f) first ret m)
unfolding inner
inner-suc f first ret m t = elim (Bool-cases (same_sense (tail_entry m.cq).sr m.cq.sr)) [
  | inl new ↦ elim (Bool-cases (ret.success == 0)) [
    | inl failed ↦ ((goes_on ret, m), rw (new, failed))
    | inr more ↦
        rw (new, more)
          (after (classify m.wq (tail_entry m.cq) (tail_entry m.cq).success ret) (step_of first m)
            (λ r. inner f false r (step_of first m)) (t new))
  ]
  | inr old ↦ ((goes_on ret, m), rw old)
]

-- Slot `t` shows the other sense: the loop stops there at the latest.
until_slot :
    (f t : ℕ) (first : Bool) (ret : Success) (m : Machine)
    → length m.cq.q ≡ 128
    → t < 128
    → m.cq.tail ≤ t
    → t - m.cq.tail < f
    → (get_or m.cq.q t no_cqe).sr ≡ not m.cq.sr
    → Total (inner f first ret m)
until_slot zero t first ret m size lt le fuel other = absurd (omega arith)
until_slot (suc f) t first ret m size lt le fuel other = inner-suc f first ret m (λ new r.
    elim (ℕ_discrete m.cq.tail t) [
      | yes e ↦ absurd (
          true-ne-false
            (sym new ∙ same_sense-not _ m.cq.sr (ap (λ i. (get_or m.cq.q i no_cqe).sr) e ∙ other)))
      | no ne ↦
          let at = consume_within m.cq (omega arith) in
          until_slot f t false r (step_of first m) (rw (q-consume m.cq, length-set) size) lt
            (omega (arith, at)) (omega (arith, at))
            (consume-sr m.cq t (omega arith) ∙ other ∙ ap not (sym (at.1)))
    ])

-- Slot `t`, at or before the tail, shows the sense of this round: the loop stops there in the next.
round_the_end :
    (f t : ℕ) (first : Bool) (ret : Success) (m : Machine)
    → length m.cq.q ≡ 128
    → m.cq.tail < 128
    → t ≤ m.cq.tail
    → 128 - m.cq.tail + t < f
    → (get_or m.cq.q t no_cqe).sr ≡ m.cq.sr
    → Total (inner f first ret m)
round_the_end zero t first ret m size lt le fuel same = absurd (omega arith)
round_the_end (suc f) t first ret m size lt le fuel same = inner-suc f first ret m (λ new r.
    elim (ℕ_discrete (m.cq.tail + 1) 128) [
      | yes e ↦
          let at = consume_wrap m.cq e in
          until_slot f t false r (step_of first m) (rw (q-consume m.cq, length-set) size)
            (omega arith) (omega (arith, at)) (omega (arith, at))
            (consume-sr m.cq t (omega arith) ∙ same ∙ sym (not-not m.cq.sr) ∙ ap not (sym (at.1)))
      | no ne ↦
          let at = consume_within m.cq (omega arith) in
          round_the_end f t false r (step_of first m) (rw (q-consume m.cq, length-set) size)
            (omega (arith, at)) (omega (arith, at)) (omega (arith, at))
            (consume-sr m.cq t (omega arith) ∙ same ∙ sym (at.1))
    ])

-- Whatever the 128 entries and the work queue hold, the inner loop of `rmc_check_cq` ends within
-- the 129 rounds of its fuel.
pub inner-Total :
    (first : Bool) (ret : Success) (m : Machine)
    → length m.cq.q ≡ 128
    → m.cq.tail < 128
    → Total (inner inner_fuel first ret m)
inner-Total first ret m size lt = elim (Bool-cases (same_sense (tail_entry m.cq).sr m.cq.sr)) [
  | inl new ↦
      round_the_end 129 m.cq.tail first ret m size lt (omega arith) (omega arith)
        (same_sense_iff _ m.cq.sr new)
  | inr old ↦ inner-suc 128 first ret m (λ new r. absurd (true-ne-false (sym new ∙ old)))
]
