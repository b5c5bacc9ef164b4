-- ===== src/Cbuf/Avail.antt =====
-- The free entries that a sender counts (`isEmpty`, `getBufferSize` and `getAvailSlots` of
-- rpc_shm/cbuf.cpp).
use native.Mathlib.Nat.{mod-lt}
use my_l3fwd.Prelude.{
  ℕ, ◌+◌, ◌-◌, ◌%◌, ◌≤◌, ◌<◌, ◌≡◌, ◌⊎◌, ◌∙◌, ap, arith, ◌==◌, if◌then◌else◌, Bool-cases, inl, inr,
}
use my_l3fwd.Cbuf.{CircularReceiveBuffer, is_empty, get_buffer_size, get_avail_slots}
use my_l3fwd.Cbuf.Modulus.{add_mod_cases, add_mod-ne, add_mod-full}
use my_l3fwd.Cbuf.Room.{Holds}

-- No entry is in use, some are, or all.
some_or_all : (n d : ℕ) → d ≤ n → (d ≡ 0) ⊎ (((0 < d) × (d < n)) ⊎ (d ≡ n))
some_or_all n d le = elim (Bool-cases (d == 0)) [
  | inl none_left ↦ inl (ground (arith, none_left))
  | inr used ↦ elim (Bool-cases (d == n)) [
    | inl full ↦ inr (inr (ground (arith, full)))
    | inr room ↦ inr (inl (ground (arith, used), ground (arith, room)))
  ]
]

module _ {n f d : ℕ} {b : CircularReceiveBuffer} (pos : 0 < n) (p : Holds n f d b) where
  is_empty-Holds : is_empty b ≡ (d == 0)
  unfolding is_empty
  is_empty-Holds = elim (some_or_all n d p.room) [
    | inl zero_used ↦
        let meets : (f + d) % n ≡ f % n = ap (λ x. x % n) (omega arith) in
        ground (arith, zero_used, meets, p.full_at, p.head_at, p.tail_at)
    | inr (inl (used, room)) ↦
        let apart = add_mod-ne n f d pos used room in
        ground (arith, apart, used, p.full_at, p.head_at, p.tail_at)
    | inr (inr full) ↦ ground (arith, full, p.full_at)
  ]

  pub get_buffer_size-Holds : get_buffer_size b ≡ (if d == 0 then n else if d == n then 0 else d)
  unfolding get_buffer_size
  get_buffer_size-Holds = elim (some_or_all n d p.room) [
    | inl zero_used ↦ ground (arith, is_empty-Holds, zero_used, p.count)
    | inr (inl (used, room)) ↦
        let lt = mod-lt f pos in
        elim (add_mod_cases n f d pos p.room) [
          | inl (short, e) ↦
              ground
                (arith, is_empty-Holds, used, room, e, p.head_at, p.tail_at, p.sense.fits, p.count)
          | inr (long, e) ↦ ground (
            arith, is_empty-Holds, used, room, e, lt, p.head_at, p.tail_at, p.sense.fits, p.count,
          )
        ]
    | inr (inr full) ↦
        let around : (f + d) % n ≡ f % n = ap (λ x. (f + x) % n) full ∙ add_mod-full n f pos in
        ground (arith, is_empty-Holds, full, around, p.head_at, p.tail_at)
  ]

  pub get_avail_slots-Holds : get_avail_slots b ≡ (if d == n then n else n - d)
  unfolding get_avail_slots
  get_avail_slots-Holds = elim (some_or_all n d p.room) [
    | inl zero_used ↦ ground (arith, is_empty-Holds, zero_used, p.count)
    | inr (inl (used, room)) ↦
        ground (arith, is_empty-Holds, get_buffer_size-Holds, used, room, p.count, p.sense.fits)
    | inr (inr full) ↦
        ground (arith, is_empty-Holds, get_buffer_size-Holds, full, p.count, p.sense.fits)
  ]
