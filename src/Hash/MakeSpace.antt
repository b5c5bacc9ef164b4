-- ===== src/Hash/MakeSpace.antt =====
-- The search for a path of moves (`rte_hash_cuckoo_make_space_mw` of rte_lib/rte_cuckoo_hash.c): its
-- lock calls and its entries.
use mathlib.Core.Path.{subst}
use native.Mathlib.Nat.{one-le-pow}
use my_l3fwd.Prelude.{
  false, ==_ne, ℕ, zero, suc, ◌+◌, ◌-◌, ◌*◌, ◌^◌, ◌≤◌, ◌<◌, ◌≡◌, refl, ◌∙◌, ap, arith, Option, none,
  some, List, [], ◌∷◌, ◌++◌, ◌==◌, ltb, if◌then◌else◌, get_or, Bool-cases, Option-cases, inl, inr,
}
use my_l3fwd.Hash.{
  minus_one, minus_enospc, empty_slot, main, Bucket, Config, Table, bucket, hash_rw_writer_lock,
  get_alt_bucket_index,
}
use my_l3fwd.Hash.Insert.{stored, present, Inserted, failed, unless_present}
use my_l3fwd.Hash.Space.{
  QueueNode, first, after, bkt, cur_bkt_idx, move_and_fill, rte_hash_cuckoo_move_insert_mw, retry,
  expand, bfs, bfs_fuel, rte_hash_cuckoo_make_space_mw,
}
use my_l3fwd.Hash.Entries.{Entry, Keeps, Sized}
use my_l3fwd.Hash.Moves.{root_idx, not_stored}
use my_l3fwd.Hash.Fill.{Good, From, AllGood, AllGood-append, after-Good, move_and_fill-Filled}
use my_l3fwd.Hash.Made.{
  InRange, Filled, Made, Filled-of_Same, Filled-present, Made-failed, Made-after, critical-Made,
}
use my_l3fwd.Hash.Gives.{Gives, Gives-bind, Gives-if, Gives-map, Gives-out}
use my_l3fwd.Hash.Safe.{
  bucket-Same, Released, Kept-refl, Released-trans, Released-of_Kept, critical, Chained,
  Chained-same, lock-Chained,
}
use my_l3fwd.Hash.Calls.{unless_present-Gives}

module _ {R : Type 0} (h : Config) where
  module _ (fuel : ℕ) where
    move_insert_mw-Made :
        (a alt : ℕ) (app_data : ℕ) (key : List ℕ) (leaf : QueueNode) (slot sig new_idx : ℕ)
        (t : Table R)
        → Good h leaf
        → From a leaf
        → slot < 8
        → Chained fuel t
        → Gives (Made h key a alt sig new_idx minus_one t) (
            rte_hash_cuckoo_move_insert_mw h fuel
              (main a)
              (main alt)
              app_data
              key
              leaf
              slot
              sig
              new_idx
              t)
    unfolding rte_hash_cuckoo_move_insert_mw
    move_insert_mw-Made a alt app_data key leaf slot sig new_idx t good from lt c =
        let locked = hash_rw_writer_lock h t in
        let fill = move_and_fill h leaf slot sig new_idx in
        let search = unless_present fuel (main a) (main alt) app_data key sig fill locked in
        elim (Bool-cases (get_or (bucket locked (bkt leaf)).key_idx slot 0 == empty_slot)) [
          | inl free ↦ rw free (
              critical-Made h key a alt sig new_idx t search (
                unless_present-Gives h fuel (Filled h key a alt sig new_idx locked) (main a)
                  (main alt) app_data key sig fill locked
                  (λ u s. Filled-of_Same h key a alt sig new_idx (fill u) s (
                    move_and_fill-Filled h key a alt leaf slot sig new_idx u good from lt (
                      ap (λ (b : Bucket). get_or b.key_idx slot 0) (bucket-Same s (bkt leaf))
                      ∙ ground (arith, free))))
                  (λ v u s f. Filled-present h key a alt sig new_idx v s f)
                  (lock-Chained fuel h t c alt)))
          | inr taken ↦
              rw taken
                (critical h (Kept-refl h locked), λ k z e. absurd (not_stored minus_one e), refl)
        ]

    module _ (a alt : ℕ) (app_data : ℕ) (key : List ℕ) (sig new_idx : ℕ) where
      -- A node gives a result, or well-formed nodes for the queue.
      abbrev Expanded : Table R → Option Inserted × List QueueNode × Table R → Type 0
      Expanded t (none, nodes, u) = Released h t u × AllGood h a nodes
      Expanded t (some r, nodes, u) = Made h key a alt sig new_idx minus_enospc t (r, u)

      Expanded-after :
          {t u : Table R} (tail : QueueNode) (i σ : ℕ)
          → Good h tail
          → From a tail
          → i < 8
          → Released h t u
          → (x : Option Inserted × List QueueNode × Table R) → Expanded u x
          → let alt = get_alt_bucket_index h (cur_bkt_idx tail) σ in
            Expanded t (x.0, after (main alt) alt tail i ∷ x.1, x.2)
      unfolding root_idx
      Expanded-after tail i σ good from lt p (none, nodes, v) q =
          (Released-trans p (q.0), ((after-Good h σ tail i good lt, from), q.1))
      Expanded-after tail i σ good from lt p (some r, nodes, v) q =
          Made-after h key _ _ sig new_idx minus_enospc (r, v) p q

      -- An answer that ends the search is not the failure of a single attempt.
      over-Made :
          {t : Table R} (x : Inserted × Table R)
          → retry (x.0) ≡ false
          → Made h key a alt sig new_idx minus_one t x
          → Made h key a alt sig new_idx minus_enospc t x
      unfolding retry
      over-Made (stored, u) over p = p
      over-Made (present v, u) over p = p
      over-Made (failed e, u) over p = absurd (==_ne over (p.2))

      expand-Expanded :
          (n i : ℕ) (tail : QueueNode) (t : Table R)
          → Good h tail
          → From a tail
          → i + n ≤ 8
          → Chained fuel t
          → Gives
              (Expanded t)
              (expand h fuel (main a) (main alt) app_data key sig new_idx n i tail t)
      unfolding expand
      expand-Expanded zero i tail t good from le c = (Released-of_Kept (Kept-refl h t), tt)
      expand-Expanded (suc n) i tail t good from le c =
          let insert =
            rte_hash_cuckoo_move_insert_mw h fuel (main a) (main alt) app_data key tail i sig
              new_idx t in
          let free = get_or (bucket t (bkt tail)).key_idx i 0 == empty_slot in
          let attempt = if free then insert else some (failed minus_one, t) in
          let (x, ex, p) = Gives-out (Made h key a alt sig new_idx minus_one t) attempt (
            Gives-if (Made h key a alt sig new_idx minus_one t) free insert
              (some (failed minus_one, t))
              (move_insert_mw-Made a alt app_data key tail i sig new_idx t good from (omega arith)
                c)
              (Made-failed h key a alt sig new_idx minus_one t)) in
          elim (Bool-cases (retry (x.0))) [
            | inl again ↦
                let (y, ey, q) = Gives-out (Expanded (x.1)) _ (
                  expand-Expanded n (i + 1) tail (x.1) good from (omega arith)
                    (Chained-same fuel (p.0) c)) in
                rw (ex, again, ey) (Expanded-after tail i _ good from (omega arith) (p.0) y q)
            | inr over ↦ rw (ex, over) (over-Made x over p)
          ]

      bfs-Made :
          (rounds head : ℕ) (queue : List QueueNode) (t : Table R)
          → head < 1000
          → 1000 ≤ head + 8 * rounds
          → AllGood h a queue
          → Chained fuel t
          → Gives
              (Made h key a alt sig new_idx minus_enospc t)
              (bfs h fuel (main a) (main alt) app_data key sig new_idx rounds head queue t)
      unfolding bfs
      bfs-Made rounds head [] t lt enough good c = Made-failed h key a alt sig new_idx _ t
      bfs-Made zero head (tail ∷ queue) t lt enough good c = absurd (omega arith)
      bfs-Made (suc n) head (tail ∷ queue) t lt enough good c =
          let nodes = expand h fuel (main a) (main alt) app_data key sig new_idx 8 0 tail t in
          let go = λ (x : Option Inserted × List QueueNode × Table R).
            elim x.0 as (λ o. Option (Inserted × Table R)) [
              | none ↦
                  bfs h fuel (main a) (main alt) app_data key sig new_idx n (head + 8)
                    (queue ++ x.1) (x.2)
              | some result ↦ some (result, x.2)
            ] in
          elim (Bool-cases (ltb head 992)) [
            | inl room ↦ rw room (
                Gives-bind (Made h key a alt sig new_idx minus_enospc t) nodes go
                  (expand-Expanded 8 0 tail t ((good.0).0) ((good.0).1) (omega arith) c)
                  (λ x p. elim (Option-cases (x.0)) [
                    | inl more ↦
                        let q = subst (λ o. Expanded t (o, x.1, x.2)) more p in
                        rw more (
                          Gives-map (Made h key a alt sig new_idx minus_enospc t) _
                            (bfs-Made n (head + 8) (queue ++ x.1) (x.2) (ground (arith, room))
                              (omega arith) (AllGood-append h a queue (x.1) (good.1) (q.1))
                              (Chained-same fuel (q.0) c))
                            (λ y m. Made-after h key a alt sig new_idx minus_enospc y (q.0) m))
                    | inr (result, over) ↦ rw over (subst (λ o. Expanded t (o, x.1, x.2)) over p)
                  ]))
            | inr full ↦ rw full (Made-failed h key a alt sig new_idx _ t)
          ]

      pub make_space_mw-Made :
          (t : Table R)
          → InRange h a
          → Chained fuel t
          → Gives (Made h key a alt sig new_idx minus_enospc t) (
              rte_hash_cuckoo_make_space_mw h fuel (main a) (main alt) app_data key sig new_idx a t)
      unfolding rte_hash_cuckoo_make_space_mw root_idx
      make_space_mw-Made t in_range c =
          bfs-Made bfs_fuel 1 (first (main a) a ∷ []) t (omega arith) (omega arith)
            (((λ k small mask. (refl, in_range k small mask)), refl), tt) c

      -- If all chains of buckets fit the fuel, the table has 2 ^ k buckets of 8 entries, and the
      -- call that makes space in bucket `a` says that it has stored the key: then the new entry,
      -- with its signature and its key index, stands in that bucket, the table still has that
      -- size, and each entry that was in use stands in one of the two buckets of its key.
      pub make_space_mw-Put :
          (k : ℕ) (t t' : Table R)
          → Chained fuel t
          → Sized k h t.buckets
          → a < 2 ^ k
          → rte_hash_cuckoo_make_space_mw h fuel (main a) (main alt) app_data key sig new_idx a t
            ≡ some (stored, t')
          → (s : ℕ) × Entry t'.buckets a s sig new_idx
            × Sized k h t'.buckets
            × Keeps h t.buckets t'.buckets
      make_space_mw-Put k t t' c z lt e =
          let in_range : (j : ℕ) → j ≤ 32 → h.bucket_bitmask ≡ 2 ^ j - 1 → a < 2 ^ j =
            λ j small mask. omega (
              arith,
              mask,
              z.mask,
              lt,
              one-le-pow j 2 (omega arith),
              one-le-pow k 2 (omega arith),
            ) in
          let (p, put, _) =
            subst (Gives (Made h key a alt sig new_idx minus_enospc t)) e
              (make_space_mw-Made t in_range c) in
          let (z', keep) = p.entries k z in let (s, entry) = put k z refl in (s, entry, z', keep)
