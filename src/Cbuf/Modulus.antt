-- ===== src/Cbuf/Modulus.antt =====
-- Remainders of counters that grow by at most the modulus.
use native.Mathlib.Nat.{mod-lt, mod-eq_of_lt, mod-add-mod, mod-eq-sub-mod}
use my_l3fwd.Prelude.{
  ℕ, ◌+◌, ◌-◌, ◌%◌, ◌≤◌, ◌<◌, ◌≡◌, ◌⊎◌, inl, inr, sym, ◌∙◌, arith, leb, Bool-cases,
}

-- The position of a counter moves by what is added, or once around.
pub add_mod_cases :
    (n f d : ℕ)
    → 0 < n
    → d ≤ n
    → ((f % n + d < n) × ((f + d) % n ≡ f % n + d))
      ⊎ ((n ≤ f % n + d) × ((f + d) % n + n ≡ f % n + d))
add_mod_cases n f d pos le =
    let lt = mod-lt f pos in
    let step = mod-add-mod f n d in
    elim (Bool-cases (leb n (f % n + d))) [
      | inr short ↦
          let small : f % n + d < n = ground (arith, short) in
          inl (small, sym step ∙ mod-eq_of_lt small)
      | inl long ↦
          let big : n ≤ f % n + d = ground (arith, long) in
          let less : f % n + d - n < n = omega arith in
          let eq : (f + d) % n ≡ f % n + d - n =
            sym step ∙ mod-eq-sub-mod big ∙ mod-eq_of_lt less in
          inr (big, omega (arith, eq))
    ]

-- The entries between two counters are distinct.
pub add_mod-ne : (n f d : ℕ) → 0 < n → 0 < d → d < n → (f + d) % n ≡ f % n → ⊥
add_mod-ne n f d pos some_entry lt e = elim (add_mod_cases n f d pos (omega arith)) [
  | inl p ↦ omega (arith, p.1)
  | inr p ↦ omega (arith, p.1)
]

pub add_mod-full : (n f : ℕ) → 0 < n → (f + n) % n ≡ f % n
add_mod-full n f pos =
    let lt = mod-lt f pos in
    elim (add_mod_cases n f n pos (omega arith)) [
      | inl p ↦ absurd (omega (arith, p.0))
      | inr p ↦ omega (arith, p.1)
    ]
