-- ===== src/Hash/Fill.antt =====
-- The lock calls and the entries of the moves along one path (`rte_hash_cuckoo_move_insert_mw` of
-- rte_lib/rte_cuckoo_hash.c), and where they put the new entry.
use mathlib.Core.Path.{subst}
use my_l3fwd.Prelude.{
  ℕ, ◌-◌, ◌^◌, ◌≤◌, ◌<◌, ◌≡◌, refl, arith, List, [], ◌∷◌, ◌++◌, get_or, Bool-cases, Option-cases,
  inl, inr,
}
use my_l3fwd.Hash.{
  minus_one, empty_slot, main, Config, Table, bucket, no_bucket, get_alt_bucket_index,
}
use my_l3fwd.Hash.Space.{
  QueueNode, first, after, bkt, cur_bkt_idx, is_main, count_change, move_back, move_and_fill,
}
use my_l3fwd.Hash.Index.{alt-lt}
use my_l3fwd.Hash.Entries.{Keeps, Sized}
use my_l3fwd.Hash.Entries.Put.{used-Apart}
use my_l3fwd.Hash.Moves.{WellFormed, bkt_of_node, move_and_fill-Keeps, root_idx, Put}
use my_l3fwd.Hash.Made.{Filled, Told}
use my_l3fwd.Hash.Safe.{
  Framed, Framed-trans, Framed-of_Same, Same, Same-refl, Kept-of_Framed, store_entry-Framed,
}

-- The node is well formed in whatever table the mask is that of.
abbrev pub Good : Config → QueueNode → Type 0
Good h node = (k : ℕ) → k ≤ 32 → h.bucket_bitmask ≡ 2 ^ k - 1 → WellFormed k node

-- It is on a path from bucket `a`.
abbrev pub From : (a : ℕ) → QueueNode → Type 0
From a node = root_idx node ≡ a

abbrev pub AllGood : Config → (a : ℕ) → List QueueNode → Type 0
AllGood h a [] = Unit
AllGood h a (node ∷ nodes) = (Good h node × From a node) × AllGood h a nodes

pub AllGood-append :
    (h : Config) (a : ℕ) (xs ys : List QueueNode)
    → AllGood h a xs
    → AllGood h a ys
    → AllGood h a (xs ++ ys)
AllGood-append h a [] ys p q = q
AllGood-append h a (x ∷ xs) ys p q = (p.0, AllGood-append h a xs ys (p.1) q)

pub after-Good :
    (h : Config) (sig : ℕ) (prev : QueueNode) (slot : ℕ)
    → Good h prev
    → slot < 8
    → let alt = get_alt_bucket_index h (cur_bkt_idx prev) sig in
      Good h (after (main alt) alt prev slot)
after-Good h sig prev slot good lt k small mask =
    (refl, alt-lt h k small mask (cur_bkt_idx prev) sig, lt, good k small mask)

module _ {R : Type 0} (h : Config) where
  count_change-Same : (t : Table R) → Same t (count_change h t)
  unfolding count_change
  count_change-Same t = elim (Bool-cases h.readwrite_concur_lf_support) [
    | inl e ↦
        rw e
          record { same_buckets = refl; same_ext = refl; same_locks = refl; same_keys = λ i. refl }
    | inr e ↦ rw e (Same-refl t)
  ]

  counted : (t : Table R) → Framed t (count_change h t)
  counted t = Framed-of_Same (count_change-Same t)

  move_back-Framed :
      (node : QueueNode) (slot : ℕ) (t : Table R) → Framed t (move_back h node slot t).1
  unfolding move_back
  move_back-Framed (first b i) slot t = Framed-of_Same (Same-refl t)
  move_back-Framed (after b i prev prev_slot) slot t =
      let from = bucket t (bkt prev) in
      let sig = get_or from.sig_current prev_slot 0 in
      elim (Bool-cases (is_main (get_alt_bucket_index h (cur_bkt_idx prev) sig) b)) [
        | inl valid ↦ rw valid (
            Framed-trans (counted t) (
              Framed-trans
                (store_entry-Framed b slot sig (get_or from.key_idx prev_slot 0) (count_change h t))
                (move_back-Framed prev prev_slot _)))
        | inr gone ↦ rw gone (store_entry-Framed b slot _ empty_slot t)
      ]

  move_and_fill-Framed :
      (leaf : QueueNode) (slot sig new_idx : ℕ) (t : Table R)
      → Framed t (move_and_fill h leaf slot sig new_idx t).1
  unfolding move_and_fill
  move_and_fill-Framed leaf slot sig new_idx t =
      let k = move_back-Framed leaf slot t in
      elim (Option-cases (move_back h leaf slot t).0) [
        | inl gone ↦ rw (gone, move_and_fill) k
        | inr ((b, s), e) ↦
            rw (e, move_and_fill)
              (Framed-trans k (
                Framed-trans (counted (move_back h leaf slot t).1)
                  (store_entry-Framed b s sig new_idx _)))
      ]

  -- The moves start at a free entry.
  move_and_fill-all :
      (leaf : QueueNode) (slot sig new_idx k : ℕ) (t : Table R)
      → Good h leaf
      → slot < 8
      → get_or (bucket t (bkt leaf)).key_idx slot 0 ≡ 0
      → Sized k h t.buckets
      → Sized k h (move_and_fill h leaf slot sig new_idx t).1.buckets
        × Keeps h t.buckets (move_and_fill h leaf slot sig new_idx t).1.buckets
        × Put (root_idx leaf) sig new_idx (move_and_fill h leaf slot sig new_idx t)
  unfolding bucket
  move_and_fill-all leaf slot sig new_idx k t good lt free z =
      let w = good k z.small z.mask in
      let free' : get_or (get_or t.buckets (cur_bkt_idx leaf) no_bucket).key_idx slot 0 ≡ 0 =
        subst (λ a. get_or (bucket t a).key_idx slot 0 ≡ 0) (bkt_of_node k leaf w) free in
      move_and_fill-Keeps k h t.buckets (λ i p. omega (arith, z.count)) leaf slot sig new_idx t z w
        lt
        (λ i s σ x used e.
          (i, s, e, inl refl, used-Apart (cur_bkt_idx leaf) slot i s σ x t.buckets free' used e))

  move_and_fill-Told :
      (key : List ℕ) (a alt : ℕ) (leaf : QueueNode) (slot sig new_idx : ℕ) (t : Table R)
      → Told h key a alt sig new_idx minus_one (move_and_fill h leaf slot sig new_idx t)
  unfolding move_and_fill
  move_and_fill-Told key a alt leaf slot sig new_idx t =
      elim (Option-cases (move_back h leaf slot t).0) [
        | inl gone ↦ rw (gone, move_and_fill) refl
        | inr (place, e) ↦ rw (e, move_and_fill) tt
      ]

  pub move_and_fill-Filled :
      (key : List ℕ) (a alt : ℕ) (leaf : QueueNode) (slot sig new_idx : ℕ) (t : Table R)
      → Good h leaf
      → From a leaf
      → slot < 8
      → get_or (bucket t (bkt leaf)).key_idx slot 0 ≡ 0
      → Filled h key a alt sig new_idx t (move_and_fill h leaf slot sig new_idx t)
  move_and_fill-Filled key a alt leaf slot sig new_idx t good from lt free =
      let all = λ (k : ℕ) (z : Sized k h t.buckets).
        move_and_fill-all leaf slot sig new_idx k t good lt free z in
      (
        Kept-of_Framed (move_and_fill-Framed leaf slot sig new_idx t)
            (λ k z. let (z', keep, _) = all k z in (z', keep)),
        λ k z.
            let (_, _, put) = all k z in
            subst (λ c. Put c sig new_idx (move_and_fill h leaf slot sig new_idx t)) from put,
        move_and_fill-Told key a alt leaf slot sig new_idx t,
      )
