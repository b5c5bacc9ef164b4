-- ===== src/Rpc/Layout.antt =====
-- The number of a circular buffer (`getCBufIdx` of rpc_shm/rpc.cpp).
use native.Mathlib.Nat.{
  mul_assoc, mul_comm, suc-mul, add-mul, mul-add-div_right, mul-add-mod_self_right, mod-eq_of_lt,
  div-eq_of_lt, mul-le-mul, mul-le-mul_right, mul-le-mul_left,
}
use my_l3fwd.Prelude.{
  ℕ, suc, ◌+◌, ◌-◌, ◌*◌, ◌/◌, ◌%◌, ◌^◌, ◌≤◌, ◌<◌, ◌≡◌, ◌↔◌, sym, ◌∙◌, ap, ap₂, arith, ltb, ◌==◌,
  Bool-cases, inl, inr, u32, u64,
}
use my_l3fwd.Rpc.Buffers.{BufferContext, get_num_clients, get_cbuf_idx}

-- Both digits of a number in base `c`.
digits : (c x y x' y' : ℕ) → y < c → y' < c → x * c + y ≡ x' * c + y' → (x ≡ x') × (y ≡ y')
digits c x y x' y' lt lt' e =
    let pos : 0 < c = omega arith in
    let high : (x * c + y) / c ≡ x =
      mul-add-div_right pos x y ∙ ap (λ z. x + z) (div-eq_of_lt lt) ∙ omega arith in
    let high' : (x' * c + y') / c ≡ x' =
      mul-add-div_right pos x' y' ∙ ap (λ z. x' + z) (div-eq_of_lt lt') ∙ omega arith in
    let low : (x * c + y) % c ≡ y = mul-add-mod_self_right x c y ∙ mod-eq_of_lt lt in
    let low' : (x' * c + y') % c ≡ y' = mul-add-mod_self_right x' c y' ∙ mod-eq_of_lt lt' in
    (sym high ∙ ap (λ z. z / c) e ∙ high', sym low ∙ ap (λ z. z % c) e ∙ low')

-- Client `m + 1` with its thread `i` at server thread `s`: different ones have different buffers,
-- and all the buffers are there.
abbrev pub Separate : BufferContext → (clients threads servers : ℕ) → Type 0
Separate ctx c t k =
    (m i s m' i' s' : ℕ)
    → m < c
    → i < t
    → s < k
    → m' < c
    → i' < t
    → s' < k
    → (get_cbuf_idx ctx (m + 1) i s < k * (c * t))
      × (get_cbuf_idx ctx (m + 1) i s ≡ get_cbuf_idx ctx (m' + 1) i' s'
          → (m ≡ m') × (i ≡ i') × (s ≡ s'))

two_digits : {c t : ℕ} (s m i : ℕ) → t ≡ c → s * (c * t) + (m * c + i) ≡ (s * c + m) * c + i
two_digits {c} s m i same =
    ap (λ w. s * (c * w) + (m * c + i)) same ∙ omega (arith, mul_assoc s c c, add-mul (s * c) m c)

module _ (ctx : BufferContext) (c t : ℕ) (nodes : ctx.total_node_count ≡ c + 1)
    (threads : ctx.threads_per_client ≡ t) (small_c : c + 1 < 2 ^ 32) (small : c * t < 2 ^ 32)
    (small_client : c * c + t < 2 ^ 32) where
  -- The number without a cut.
  idx_plain :
      (m i s : ℕ)
      → m < c
      → i ≤ t
      → s < 2 ^ 32
      → get_cbuf_idx ctx (m + 1) i s ≡ s * (c * t) + (m * c + i)
  unfolding get_cbuf_idx
  idx_plain m i s lt_m le_i lt_s =
      let clients : get_num_clients ctx ≡ c = omega (arith, nodes) in
      let square : m * c ≤ c * c = mul-le-mul_right c (omega arith) in
      let bufs : u32 (get_num_clients ctx * ctx.threads_per_client) ≡ c * t =
        ap u32 (ap₂ (λ x y. x * y) clients threads) ∙ mod-eq_of_lt small in
      let bound : s * (c * t) ≤ (2 ^ 32 - 1) * (2 ^ 32 - 1) =
        mul-le-mul {n₂ = 2 ^ 32 - 1} {m₂ = 2 ^ 32 - 1} (omega arith) (omega arith) in
      let region : u64 (s * u32 (get_num_clients ctx * ctx.threads_per_client)) ≡ s * (c * t) =
        ap (λ x. u64 (s * x)) bufs ∙ mod-eq_of_lt (omega arith) in
      let shifted : u32 (m + 1 + 2 ^ 32 - 1) ≡ m = omega arith in
      let row : u32 (u32 (m + 1 + 2 ^ 32 - 1) * get_num_clients ctx) ≡ m * c =
        ap u32 (ap₂ (λ x y. x * y) shifted clients) ∙ mod-eq_of_lt (omega arith) in
      let client : u32 (u32 (u32 (m + 1 + 2 ^ 32 - 1) * get_num_clients ctx) + i) ≡ m * c + i =
        ap (λ x. u32 (x + i)) row ∙ mod-eq_of_lt (omega arith) in
      ap₂ (λ x y. u64 (x + y)) region client ∙ mod-eq_of_lt (omega arith)

  module _ (k : ℕ) (small_k : k < 2 ^ 32) where
    Separate-of_eq : t ≡ c → Separate ctx c t k
    Separate-of_eq same m i s m' i' s' lt_m lt_i lt_s lt_m' lt_i' lt_s' =
        let at = idx_plain m i s lt_m (omega arith) (omega arith) in
        let at' = idx_plain m' i' s' lt_m' (omega arith) (omega arith) in
        let row : suc m * c ≤ c * c = mul-le-mul_right c (omega arith) in
        let region : suc s * (c * t) ≤ k * (c * t) = mul-le-mul_right (c * t) (omega arith) in
        let square : c * t ≡ c * c = ap (λ w. c * w) same in
        (
          omega (arith, at, row, region, square, suc-mul m c, suc-mul s (c * t)),
          λ e.
              let (high, low) =
                digits c (s * c + m) i (s' * c + m') i' (omega arith) (omega arith)
                  (sym (two_digits s m i same) ∙ sym at ∙ e ∙ at' ∙ two_digits s' m' i' same) in
              let (server, client) = digits c s m s' m' lt_m lt_m' high in (client, low, server),
        )

    -- With fewer threads the last client's buffer is missing; with more, two clients share one.
    eq-of_Separate : 1 < c → 0 < t → 0 < k → Separate ctx c t k → t ≡ c
    eq-of_Separate two_clients some_thread some_server sep = elim (Bool-cases (ltb t c)) [
      | inl fewer ↦
          let at = idx_plain (c - 1) 0 (k - 1) (omega arith) (omega arith) (omega arith) in
          let (in_range, _) =
            sep (c - 1) 0 (k - 1) 0 0 0 (omega arith) some_thread (omega arith) (omega arith)
              some_thread some_server in
          let row : c * t ≤ c * (c - 1) = mul-le-mul_left c (ground (arith, fewer)) in
          let last : k * (c * t) ≡ (k - 1) * (c * t) + c * t =
            ap (λ x. x * (c * t)) (omega arith) ∙ suc-mul (k - 1) (c * t) in
          absurd (omega (arith, at, in_range, row, last, mul_comm (c - 1) c))
      | inr enough ↦ elim (Bool-cases (t == c)) [
        | inl same ↦ ground (arith, same)
        | inr differ ↦
            let more : c < t = ground (arith, enough, differ) in
            let shared : get_cbuf_idx ctx (0 + 1) c 0 ≡ get_cbuf_idx ctx (1 + 1) 0 0 =
              idx_plain 0 c 0 (omega arith) (omega arith) (omega arith)
              ∙ omega arith
              ∙ sym (idx_plain 1 0 0 two_clients (omega arith) (omega arith)) in
            let (_, distinct) =
              sep 0 c 0 1 0 0 (omega arith) more some_server two_clients some_thread some_server in
            absurd (omega (arith, (distinct shared).0))
      ]
    ]

    -- In a context of c clients, 1 < c, with t threads each, 0 < t, and k threads at the server,
    -- 0 < k, where no 32-bit computation overflows: the numbers of the buffers are within the k *
    -- c * t buffers and differ for different clients, threads and server threads, exactly when t
    -- = c.
    pub get_cbuf_idx_iff : 1 < c → 0 < t → 0 < k → Separate ctx c t k ↔ (t ≡ c)
    get_cbuf_idx_iff two_clients some_thread some_server =
        (eq-of_Separate two_clients some_thread some_server, Separate-of_eq)
