-- ===== src/Hash/Moves.antt =====
-- The entries before and after the moves along a path of nodes (`rte_hash_cuckoo_move_insert_mw` of
-- rte_lib/rte_cuckoo_hash.c).
use mathlib.Core.Path.{subst}
use native.Mathlib.Decide.{ℕ_discrete}
use my_l3fwd.Prelude.{
  ℕ, ◌^◌, ◌<◌, ◌≡◌, ◌⊎◌, sym, ◌∙◌, ap, arith, true, Option, none, some, List, length, get_or, inl,
  inr, Bool-cases, Option-cases,
}
use my_l3fwd.Hash.{
  minus_one, BucketPtr, main, extra, Bucket, Config, Table, bucket, no_bucket, empty_slot,
  store_entry, put_bucket, get_alt_bucket_index,
}
use my_l3fwd.Hash.Insert.{Inserted, stored, present, failed}
use my_l3fwd.Hash.Space.{
  QueueNode, first, after, bkt, cur_bkt_idx, is_main, count_change, move_back, move_and_fill,
}
use my_l3fwd.Hash.Entries.{Entry, Sized, OfPair-trans, Apart, Keeps, KeepsBut}
use my_l3fwd.Hash.Entries.Put.{put_entry, put_entry-Sized, put_entry-other, put_entry-here}

Apart-sym : (i s c hole : ℕ) → Apart i s c hole → Apart c hole i s
Apart-sym i s c hole (inl p) = inl (λ e. p (sym e))
Apart-sym i s c hole (inr p) = inr (λ e. p (sym e))

-- Two places are the same or apart.
same_or_Apart : (i s c hole : ℕ) → ((i ≡ c) × (s ≡ hole)) ⊎ Apart i s c hole
same_or_Apart i s c hole = elim (ℕ_discrete i c) [
  | no ne ↦ inr (inl ne)
  | yes p ↦ elim (ℕ_discrete s hole) [ yes q ↦ inl (p, q) | no ne ↦ inr (inr ne) ]
]

module _ (k : ℕ) (h : Config) (bs₀ bs : List Bucket) (z : Sized k h bs) where
  -- An entry moves to a place of its other bucket; the place that it leaves is then the free one.
  move_entry :
      (c hole j s₀ sig idx : ℕ)
      → c < 2 ^ k
      → hole < 8
      → get_or (get_or bs j no_bucket).sig_current s₀ 0 ≡ sig
      → get_or (get_or bs j no_bucket).key_idx s₀ 0 ≡ idx
      → get_alt_bucket_index h j sig ≡ c
      → (bounded : (i : ℕ) → i < length bs₀ → i < 2 ^ k) → KeepsBut h c hole bs₀ bs
      → KeepsBut h j s₀ bs₀ (put_entry c hole sig idx bs)
  move_entry c hole j s₀ sig idx lt in_bucket at_sig at_idx to bounded keep i s σ x used e =
      let (i', s', e', near, apart) = keep i s σ x used e in
      elim (same_or_Apart i' s' j s₀) [
        | inr other ↦ (i', s', put_entry-other c hole sig idx i' s' σ x bs apart e', near, other)
        | inl (p, q) ↦
            let here = put_entry-here k h c hole sig idx bs z (omega (arith, z.count)) in_bucket in
            let sig_eq : sig ≡ σ =
              sym at_sig
              ∙ ap (λ y. get_or (get_or bs y no_bucket).sig_current s₀ 0) (sym p)
              ∙ ap (λ y. get_or (get_or bs i' no_bucket).sig_current y 0) (sym q)
              ∙ e'.has_sig in
            let idx_eq : idx ≡ x =
              sym at_idx
              ∙ ap (λ y. get_or (get_or bs y no_bucket).key_idx s₀ 0) (sym p)
              ∙ ap (λ y. get_or (get_or bs i' no_bucket).key_idx y 0) (sym q)
              ∙ e'.has_idx in
            let other_bucket : c ≡ get_alt_bucket_index h i' σ =
              sym to
              ∙ ap (λ y. get_alt_bucket_index h y sig) (sym p)
              ∙ ap (get_alt_bucket_index h i') sig_eq in
            (
              c,
              hole,
              subst (λ y. Entry (put_entry c hole sig idx bs) c hole σ y) idx_eq
                  (subst (λ y. Entry (put_entry c hole sig idx bs) c hole y idx) sig_eq here),
              OfPair-trans h k z.small z.mask i σ i' c (bounded i e.bucket_in) near
                  (inr other_bucket),
              subst (λ y. Apart c hole y s₀) p
                  (subst (λ y. Apart c hole i' y) q (Apart-sym i' s' c hole apart)),
            )
      ]

  -- The free place is overwritten.
  fill_hole :
      (c hole sig idx : ℕ) → KeepsBut h c hole bs₀ bs → Keeps h bs₀ (put_entry c hole sig idx bs)
  fill_hole c hole sig idx keep i s σ x used e =
      let (i', s', e', near, apart) = keep i s σ x used e in
      (i', s', put_entry-other c hole sig idx i' s' σ x bs apart e', near)

-- The nodes of the search: pointers and indices agree, and are in range.
abbrev pub WellFormed : (k : ℕ) → QueueNode → Type 0
WellFormed k (first b i) = (b ≡ main i) × (i < 2 ^ k)
WellFormed k (after b i prev s) = (b ≡ main i) × (i < 2 ^ k) × (s < 8) × WellFormed k prev

-- The index of the bucket that the path starts in.
unfoldable pub root_idx : QueueNode → ℕ
root_idx (first b i) = i
root_idx (after b i prev s) = root_idx prev

-- The new entry stands in the bucket, if the call says so.
abbrev pub Put : {R : Type 0} → (c sig idx : ℕ) → Inserted × Table R → Type 0
Put c sig idx x = x.0 ≡ stored → (s : ℕ) × Entry (x.1).buckets c s sig idx

pub not_stored : (e : ℕ) → failed e ≡ stored → ⊥
not_stored e p = ground (arith, p)

pub present-not_stored : (v : ℕ) → present v ≡ stored → ⊥
present-not_stored v p = ground (arith, p)

buckets-count_change :
    {R : Type 0} (h : Config) (t : Table R) → (count_change h t).buckets ≡ t.buckets
unfolding count_change
buckets-count_change h t = ground arith

is_main-eq : (x i : ℕ) → is_main x (main i) ≡ true → x ≡ i
unfolding is_main
is_main-eq x i e = ground (arith, e)

pub bkt_of_node :
    (k : ℕ) (node : QueueNode) → WellFormed k node → bkt node ≡ main (cur_bkt_idx node)
unfolding bkt cur_bkt_idx
bkt_of_node k (first b i) w = w.0
bkt_of_node k (after b i prev s) w = w.0

buckets-store :
    {R : Type 0} (h : Config) (c hole sig idx : ℕ) (t : Table R)
    → (store_entry (main c) hole sig idx (count_change h t)).buckets
      ≡ put_entry c hole sig idx t.buckets
unfolding store_entry put_bucket bucket
buckets-store h c hole sig idx t = ap (put_entry c hole sig idx) (buckets-count_change h t)

module _ {R : Type 0} (k : ℕ) (h : Config) (bs₀ : List Bucket)
    (bounded : (i : ℕ) → i < length bs₀ → i < 2 ^ k) where
  -- What the way back leaves: a free place that holds no entry of the table before, or no such
  -- place and every entry in the table.
  abbrev Moved : (root : ℕ) → Option (BucketPtr × ℕ) → Table R → Type 0
  Moved root none t = Sized k h t.buckets × Keeps h bs₀ t.buckets
  Moved root (some (b, s)) t =
      (b ≡ main root)
      × (root < 2 ^ k)
      × (s < 8)
      × Sized k h t.buckets
      × KeepsBut h root s bs₀ t.buckets

  move_back-Moved :
      (node : QueueNode) (slot : ℕ) (t : Table R)
      → Sized k h t.buckets
      → WellFormed k node
      → slot < 8
      → KeepsBut h (cur_bkt_idx node) slot bs₀ t.buckets
      → Moved (root_idx node) (move_back h node slot t).0 (move_back h node slot t).1
  unfolding move_back cur_bkt_idx root_idx store_entry put_bucket bucket
  move_back-Moved (first b i) slot t z w lt keep = (w.0, w.1, lt, z, keep)
  move_back-Moved (after (extra i') i prev prev_slot) slot t z w lt keep =
      absurd (ground (arith, w.0))
  move_back-Moved (after (main i') i prev prev_slot) slot t z w lt keep =
      let j = cur_bkt_idx prev in
      let at_j = bkt_of_node k prev (w.3) in
      let sig = get_or (bucket t (bkt prev)).sig_current prev_slot 0 in
      let idx = get_or (bucket t (bkt prev)).key_idx prev_slot 0 in
      let to : i' ≡ i = ground (arith, w.0) in
      elim (Bool-cases (is_main (get_alt_bucket_index h j sig) (main i'))) [
        | inl valid ↦
            let keep' : KeepsBut h i' slot bs₀ t.buckets =
              subst (λ c. KeepsBut h c slot bs₀ t.buckets) (sym to) keep in
            let next =
              move_entry k h bs₀ t.buckets z i' slot j prev_slot sig idx (omega (arith, w.1)) lt
                (ap (λ a. get_or (bucket t a).sig_current prev_slot 0) (sym at_j))
                (ap (λ a. get_or (bucket t a).key_idx prev_slot 0) (sym at_j))
                (is_main-eq (get_alt_bucket_index h j sig) i' valid) bounded keep' in
            let eq = sym (buckets-store h i' slot sig idx t) in
            rw valid (
              move_back-Moved prev prev_slot (store_entry (main i') slot sig idx (count_change h t))
                (subst (Sized k h) eq (put_entry-Sized k h i' slot sig idx t.buckets z)) (w.3) (w.2)
                (subst (KeepsBut h j prev_slot bs₀) eq next))
        | inr gone ↦
            let old = get_or (bucket t (main i')).sig_current slot 0 in
            rw gone (
              put_entry-Sized k h i' slot old empty_slot t.buckets z,
              fill_hole k h bs₀ t.buckets z i' slot old empty_slot
                  (subst (λ c. KeepsBut h c slot bs₀ t.buckets) (sym to) keep),
            )
      ]

  pub move_and_fill-Keeps :
      (leaf : QueueNode) (slot sig new_idx : ℕ) (t : Table R)
      → Sized k h t.buckets
      → WellFormed k leaf
      → slot < 8
      → KeepsBut h (cur_bkt_idx leaf) slot bs₀ t.buckets
      → Sized k h (move_and_fill h leaf slot sig new_idx t).1.buckets
        × Keeps h bs₀ (move_and_fill h leaf slot sig new_idx t).1.buckets
        × Put (root_idx leaf) sig new_idx (move_and_fill h leaf slot sig new_idx t)
  unfolding move_and_fill
  move_and_fill-Keeps leaf slot sig new_idx t z w lt keep =
      let moved = move_back-Moved leaf slot t z w lt keep in
      let t' = (move_back h leaf slot t).1 in
      elim (Option-cases (move_back h leaf slot t).0) [
        | inl gone ↦
            let (z', keep') = subst (λ o. Moved (root_idx leaf) o t') gone moved in
            rw (gone, move_and_fill) (z', keep', λ e. absurd (not_stored minus_one e))
        | inr ((b, s), e) ↦
            let c = root_idx leaf in
            let (at, lt', in_bucket, z', keep') = subst (λ o. Moved c o t') e moved in
            let eq = sym (buckets-store h c s sig new_idx t') in
            rw (e, move_and_fill)
              (rw at (
                subst (Sized k h) eq (put_entry-Sized k h c s sig new_idx t'.buckets z'),
                subst (Keeps h bs₀) eq (fill_hole k h bs₀ t'.buckets z' c s sig new_idx keep'),
                λ e. (
                  s,
                  subst (λ bs. Entry bs c s sig new_idx) eq
                      (put_entry-here k h c s sig new_idx t'.buckets z'
                        (omega (arith, lt', z'.count)) in_bucket),
                ),
              ))
      ]
