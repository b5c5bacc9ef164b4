-- ===== src/Rpc/Header/Bytes.antt =====
-- Numbers as bytes in memory.
use my_l3fwd.Prelude.{
  ℕ, zero, suc, ◌+◌, ◌*◌, ◌/◌, ◌%◌, ◌^◌, ◌≤◌, ◌<◌, ◌≡◌, ◌⊎◌, refl, ◌∙◌, ap₂, arith, inl, inr,
}
use my_l3fwd.Rpc.Header.{Memory, write_byte, store_bytes, load_bytes}

-- A store does not reach the addresses outside it.
pub store_bytes-other :
    (n a v : ℕ) (mem : Memory) (x : ℕ) → (x < a) ⊎ (a + n ≤ x) → store_bytes n a v mem x ≡ mem x
store_bytes-other zero a v mem x out = refl
store_bytes-other (suc n) a v mem x out =
    let here : write_byte a (v % 256) mem x ≡ mem x = elim out [
      | inl p ↦ ground arith
      | inr p ↦ ground arith
    ] in
    let past : (x < a + 1) ⊎ (a + 1 + n ≤ x) = elim out [
      | inl p ↦ inl (omega arith)
      | inr p ↦ inr (omega arith)
    ] in
    store_bytes-other n (a + 1) (v / 256) (write_byte a (v % 256) mem) x past ∙ here

pub load_bytes-same :
    (n a : ℕ) (mem mem' : Memory)
    → ((x : ℕ) → a ≤ x → x < a + n → mem' x ≡ mem x)
    → load_bytes n a mem' ≡ load_bytes n a mem
load_bytes-same zero a mem mem' same = refl
load_bytes-same (suc n) a mem mem' same =
    ap₂ (λ x y. x + 256 * y) (same a (omega arith) (omega arith))
      (load_bytes-same n (a + 1) mem mem' (λ x le lt. same x (omega arith) (omega arith)))

pub load_bytes-store :
    (n a v : ℕ) (mem : Memory) → v < 256 ^ n → load_bytes n a (store_bytes n a v mem) ≡ v
load_bytes-store zero a v mem lt = omega arith
load_bytes-store (suc n) a v mem lt =
    let first : store_bytes n (a + 1) (v / 256) (write_byte a (v % 256) mem) a ≡ v % 256 =
      store_bytes-other n (a + 1) (v / 256) (write_byte a (v % 256) mem) a (inl (omega arith))
      ∙ ground arith in
    let rest = load_bytes-store n (a + 1) (v / 256) (write_byte a (v % 256) mem) (omega arith) in
    ap₂ (λ x y. x + 256 * y) first rest ∙ omega arith
