-- ===== src/Hash/Entries/Put.antt =====
-- What a store in a main bucket, and a new link of one, do to the entries.
use native.Mathlib.Decide.{ℕ_discrete}
use my_l3fwd.Prelude.{
  ℕ, ◌<◌, ◌≡◌, ◌≢◌, refl, sym, ◌∙◌, ap, arith, Option, List, length, length-set, get_or, set,
  get_or-set_self, get_or-set_ne, get_or-set_same, inl, inr,
}
use my_l3fwd.Hash.{BucketPtr, Bucket, Config, no_bucket}
use my_l3fwd.Hash.Entries.{Entry, Sized, Apart, Entries}

-- The list after a store.
abbrev new_bucket : (c hole sig idx : ℕ) → List Bucket → Bucket
new_bucket c hole sig idx bs =
    let b = get_or bs c no_bucket in
    record b { sig_current = set b.sig_current hole sig; key_idx = set b.key_idx hole idx }

abbrev pub put_entry : (c hole sig idx : ℕ) → List Bucket → List Bucket
put_entry c hole sig idx bs = set bs c (new_bucket c hole sig idx bs)

pub put_entry-Sized :
    (k : ℕ) (h : Config) (c hole sig idx : ℕ) (bs : List Bucket)
    → Sized k h bs
    → Sized k h (put_entry c hole sig idx bs)
put_entry-Sized k h c hole sig idx bs z = record {
  small = z.small;
  mask = z.mask;
  count = rw length-set z.count;
  sigs = λ i q.
      get_or-set_same (λ (b : Bucket). length b.sig_current) bs c i _ no_bucket
        (length-set _ hole sig)
      ∙ z.sigs i (omega (arith, length-set bs c (new_bucket c hole sig idx bs)));
  idxs = λ i q.
      get_or-set_same (λ (b : Bucket). length b.key_idx) bs c i _ no_bucket (length-set _ hole idx)
      ∙ z.idxs i (omega (arith, length-set bs c (new_bucket c hole sig idx bs)));
}

-- Another place is as before.
pub put_entry-other :
    (c hole sig₀ idx₀ i s sig idx : ℕ) (bs : List Bucket)
    → Apart i s c hole
    → Entry bs i s sig idx
    → Entry (put_entry c hole sig₀ idx₀ bs) i s sig idx
put_entry-other c hole sig₀ idx₀ i s sig idx bs apart e = elim (ℕ_discrete i c) [
  | no ne ↦
      let at = get_or-set_ne bs c i (new_bucket c hole sig₀ idx₀ bs) no_bucket (λ p. ne (sym p)) in
      record {
        bucket_in = rw length-set e.bucket_in;
        slot_in = e.slot_in;
        has_sig = ap (λ (b : Bucket). get_or b.sig_current s 0) at ∙ e.has_sig;
        has_idx = ap (λ (b : Bucket). get_or b.key_idx s 0) at ∙ e.has_idx;
      }
  | yes p ↦
      let lt : c < length bs = omega (arith, e.bucket_in) in
      let at : get_or (put_entry c hole sig₀ idx₀ bs) i no_bucket ≡ new_bucket c hole sig₀ idx₀ bs =
        rw p (get_or-set_self bs c (new_bucket c hole sig₀ idx₀ bs) no_bucket lt) in
      let ne : hole ≢ s = elim apart [ inl q ↦ absurd (q p) | inr q ↦ λ r. q (sym r) ] in
      record {
        bucket_in = rw length-set e.bucket_in;
        slot_in = e.slot_in;
        has_sig =
            ap (λ (b : Bucket). get_or b.sig_current s 0) at
            ∙ get_or-set_ne (get_or bs c no_bucket).sig_current hole s sig₀ 0 ne
            ∙ ap (λ x. get_or (get_or bs x no_bucket).sig_current s 0) (sym p)
            ∙ e.has_sig;
        has_idx =
            ap (λ (b : Bucket). get_or b.key_idx s 0) at
            ∙ get_or-set_ne (get_or bs c no_bucket).key_idx hole s idx₀ 0 ne
            ∙ ap (λ x. get_or (get_or bs x no_bucket).key_idx s 0) (sym p)
            ∙ e.has_idx;
      }
]

pub put_entry-here :
    (k : ℕ) (h : Config) (c hole sig idx : ℕ) (bs : List Bucket)
    → Sized k h bs
    → c < length bs
    → hole < 8
    → Entry (put_entry c hole sig idx bs) c hole sig idx
put_entry-here k h c hole sig idx bs z lt in_bucket =
    let at = get_or-set_self bs c (new_bucket c hole sig idx bs) no_bucket lt in
    record {
      bucket_in = rw length-set lt;
      slot_in = in_bucket;
      has_sig =
          ap (λ (b : Bucket). get_or b.sig_current hole 0) at
          ∙ get_or-set_self (get_or bs c no_bucket).sig_current hole sig 0
              (omega (arith, z.sigs c lt));
      has_idx =
          ap (λ (b : Bucket). get_or b.key_idx hole 0) at
          ∙ get_or-set_self (get_or bs c no_bucket).key_idx hole idx 0 (omega (arith, z.idxs c lt));
    }

-- An entry in use is apart from one that is not.
pub used-Apart :
    (c hole i s sig idx : ℕ) (bs : List Bucket)
    → get_or (get_or bs c no_bucket).key_idx hole 0 ≡ 0
    → idx ≢ 0
    → Entry bs i s sig idx
    → Apart i s c hole
used-Apart c hole i s sig idx bs free used e = elim (ℕ_discrete i c) [
  | no ne ↦ inl ne
  | yes p ↦ inr (λ q. used (
      sym e.has_idx
      ∙ ap (λ y. get_or (get_or bs y no_bucket).key_idx s 0) p
      ∙ ap (λ y. get_or (get_or bs c no_bucket).key_idx y 0) q
      ∙ free))
]

-- A store over an entry that is not in use loses nothing.
pub put_entry-free :
    (h : Config) (c hole sig idx : ℕ) (bs : List Bucket)
    → get_or (get_or bs c no_bucket).key_idx hole 0 ≡ 0
    → Entries h bs (put_entry c hole sig idx bs)
put_entry-free h c hole sig idx bs free k z = (
  put_entry-Sized k h c hole sig idx bs z,
  λ i s σ x used e. (
    i,
    s,
    put_entry-other c hole sig idx i s σ x bs (used-Apart c hole i s σ x bs free used e) e,
    inl refl,
  ),
)

-- A change of the link of a bucket changes no entry.
abbrev pub put_next : (c : ℕ) → Option BucketPtr → List Bucket → List Bucket
put_next c o bs = set bs c (record (get_or bs c no_bucket) { next = o })

pub put_next-Entries :
    (h : Config) (c : ℕ) (o : Option BucketPtr) (bs : List Bucket) → Entries h bs (put_next c o bs)
put_next-Entries h c o bs k z = (
  record {
    small = z.small;
    mask = z.mask;
    count = rw length-set z.count;
    sigs = λ i q. ap length (sigs_same i) ∙ z.sigs i (omega (arith, same_length));
    idxs = λ i q. ap length (idxs_same i) ∙ z.idxs i (omega (arith, same_length));
  },
  λ i s sig idx used e. (
    i,
    s,
    record {
      bucket_in = omega (arith, same_length, e.bucket_in);
      slot_in = e.slot_in;
      has_sig = ap (λ l. get_or l s 0) (sigs_same i) ∙ e.has_sig;
      has_idx = ap (λ l. get_or l s 0) (idxs_same i) ∙ e.has_idx;
    },
    inl refl,
  ),
)
  where
    relinked : Bucket
    relinked = record (get_or bs c no_bucket) { next = o }

    same_length : length (put_next c o bs) ≡ length bs
    same_length = length-set bs c relinked

    sigs_same :
        (i : ℕ)
        → (get_or (put_next c o bs) i no_bucket).sig_current ≡ (get_or bs i no_bucket).sig_current
    sigs_same i = get_or-set_same (λ (b : Bucket). b.sig_current) bs c i relinked no_bucket refl

    idxs_same :
        (i : ℕ) → (get_or (put_next c o bs) i no_bucket).key_idx ≡ (get_or bs i no_bucket).key_idx
    idxs_same i = get_or-set_same (λ (b : Bucket). b.key_idx) bs c i relinked no_bucket refl
