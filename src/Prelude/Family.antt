-- ===== src/Prelude/Family.antt =====
-- Families of values by number: one member replaced, and sums.
use Prim.Native.Nat.{ℕ, zero, suc, ◌+◌, ◌<◌}
use mathlib.Core.Path.{◌≡◌, refl, sym, subst}
use mathlib.Core.Logic.{◌≢◌, inl, inr}
use my_l3fwd.Prelude.Tests.{◌==◌, if◌then◌else◌, ==_iff, ==_refl, Bool-cases}
use native.Mathlib.Decide.{ℕ_discrete}
use native.Mathlib.Omega.{arith}

unfoldable pub update {ℓ} : {A : Type ℓ} → (ℕ → A) → (i : ℕ) → A → ℕ → A
update f i a j = if i == j then a else f j

pub update_self {ℓ} : {A : Type ℓ} (f : ℕ → A) (i : ℕ) (a : A) → update f i a i ≡ a
unfolding update
update_self f i a = rw (==_refl i)

pub update_other {ℓ} : {A : Type ℓ} (f : ℕ → A) (i j : ℕ) (a : A) → i ≢ j → update f i a j ≡ f j
unfolding update
update_other f i j a apart = elim (Bool-cases (i == j)) [
  | inl e ↦ absurd (apart ((==_iff i j).0 e))
  | inr e ↦ rw e
]

-- A property that holds of the new member and held of the others.
pub update_each {ℓ κ} :
    {A : Type ℓ} (P : ℕ → A → Type κ) (f : ℕ → A) (i : ℕ) (a : A) (j : ℕ)
    → P i a
    → (i ≢ j → P j (f j))
    → P j (update f i a j)
update_each P f i a j here there = elim (ℕ_discrete i j) [
  | yes e ↦ subst (λ x. P x (update f i a x)) e (subst (P i) (sym (update_self f i a)) here)
  | no ne ↦ subst (P j) (sym (update_other f i j a ne)) (there ne)
]

unfoldable pub sum : (n : ℕ) → (ℕ → ℕ) → ℕ
sum zero f = 0
sum (suc n) f = sum n f + f n

-- Equal members have equal sums.
pub sum_same : (n : ℕ) (f g : ℕ → ℕ) → ((j : ℕ) → j < n → f j ≡ g j) → sum n f ≡ sum n g
unfolding sum
sum_same zero f g same = refl
sum_same (suc n) f g same =
    omega (arith, sum_same n f g (λ j h. same j (omega arith)), same n (omega arith))

-- One member is larger by one.
pub sum_step :
    (n i : ℕ) (f g : ℕ → ℕ)
    → i < n
    → f i ≡ suc (g i)
    → ((j : ℕ) → j < n → i ≢ j → f j ≡ g j)
    → sum n f ≡ suc (sum n g)
unfolding sum
sum_step zero i f g lt here others = absurd (omega arith)
sum_step (suc n) i f g lt here others = elim (ℕ_discrete i n) [
  | yes e ↦
      let last : f n ≡ suc (g n) = subst (λ x. f x ≡ suc (g x)) e here in
      let rest = sum_same n f g (λ j h. others j (omega arith) (omega (arith, e))) in
      omega (arith, last, rest)
  | no ne ↦
      let rest = sum_step n i f g (omega arith) here (λ j h apart. others j (omega arith) apart) in
      omega (arith, rest, others n (omega arith) ne)
]

pub sum_zeros : (n : ℕ) (f : ℕ → ℕ) → ((j : ℕ) → j < n → f j ≡ 0) → sum n f ≡ 0
unfolding sum
sum_zeros zero f zeros = refl
sum_zeros (suc n) f zeros =
    omega (arith, sum_zeros n f (λ j h. zeros j (omega arith)), zeros n (omega arith))
