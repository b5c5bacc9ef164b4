-- ===== src/L3fwd/Threads/Rounds.antt =====
-- The rounds of a worker's loop (l3fwd/worker.c) one by one, against the loop as a whole.
use my_l3fwd.Prelude.{ℕ, zero, suc, ◌+◌, ◌≤◌, ◌≡◌, refl, arith}
use my_l3fwd.Nic.{Machine}
use my_l3fwd.Rpc.{Outcome, done, throws, spins, ◌>>=◌, Context}
use my_l3fwd.L3fwd.{ThreadParams, Locals, RoundResult, stopped, served, serve_round, serve_loop}

module _ (hw : ℕ → Machine → Machine) (fuel : ℕ) (l : Locals) (p : ThreadParams) (c : Context)
    (buf : ℕ) where
  -- What a loop of `rounds` more rounds after this one, which ends, does in this round.
  pub data Next (rounds t nb count : ℕ) (m left : Machine) : Type 0 where
    stops :
        serve_round hw fuel l p c buf t nb m ≡ done (stopped left)
        → t ≡ count
        → Next rounds t nb count m left
    goes_on :
        (m' : Machine)
        → serve_round hw fuel l p c buf t nb m ≡ done (served m')
        → serve_loop hw fuel l p c rounds buf (t + 1) (nb + 1) m' ≡ done (count, left)
        → Next rounds t nb count m left

  abbrev continue : (rounds t nb : ℕ) → RoundResult → Outcome (ℕ × Machine)
  continue rounds t nb (stopped m') = done (t, m')
  continue rounds t nb (served m') = serve_loop hw fuel l p c rounds buf (t + 1) (nb + 1) m'

  Next-of :
      (rounds t nb : ℕ) {count : ℕ} (m : Machine) {left : Machine} (o : Outcome RoundResult)
      → serve_round hw fuel l p c buf t nb m ≡ o
      → (o >>= continue rounds t nb) ≡ done (count, left)
      → Next rounds t nb count m left
  Next-of rounds t nb m (done (stopped m')) e h = stops (cc) (cc)
  Next-of rounds t nb m (done (served m')) e h = goes_on m' e h
  Next-of rounds t nb m throws e h = absurd (cc)
  Next-of rounds t nb m spins e h = absurd (cc)

  pub serve_loop-Next :
      (rounds t nb : ℕ) {count : ℕ} (m : Machine) {left : Machine}
      → serve_loop hw fuel l p c (suc rounds) buf t nb m ≡ done (count, left)
      → Next rounds t nb count m left
  unfolding serve_loop
  serve_loop-Next rounds t nb m h =
      Next-of rounds t nb m (serve_round hw fuel l p c buf t nb m) refl h

  -- The loop never lowers its count.
  pub serve_loop-le :
      (rounds t nb : ℕ) {count : ℕ} (m : Machine) {left : Machine}
      → serve_loop hw fuel l p c rounds buf t nb m ≡ done (count, left)
      → t ≤ count
  unfolding serve_loop
  serve_loop-le zero t nb m h = absurd (cc)
  serve_loop-le (suc rounds) t nb m h = elim (serve_loop-Next rounds t nb m h) [
    | stops e same ↦ omega (arith, same)
    | goes_on m' e rest ↦
        let le = serve_loop-le rounds (t + 1) (nb + 1) m' rest in omega (arith, le)
  ]
