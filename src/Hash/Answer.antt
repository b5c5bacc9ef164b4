-- ===== src/Hash/Answer.antt =====
-- The answer of the insertion of a key into the table of rte_lib/rte_cuckoo_hash.c, and what it has
-- done to the table.
use my_l3fwd.Prelude.{ℕ, ◌≡◌, ◌⊎◌, refl, ◌∙◌, ap, true, false, List, ==_refl, get_or, inl, inr}
use my_l3fwd.Hash.{
  minus_enospc, position, main, Config, Table, bucket, no_key, rte_hash_cmp_eq, entry_matches,
}
use my_l3fwd.Hash.Insert.{stored}
use my_l3fwd.Hash.Entries.{Entry, Entries, Entries-trans, Sized}
use my_l3fwd.Hash.Found.{Found, MatchIn, here}
use my_l3fwd.Hash.Locks.{Paired, Paired-trans}
use my_l3fwd.Hash.Made.{Made}
use my_l3fwd.Hash.Safe.{Released, Released-trans}

module _ {R : Type 0} where
  -- The lock calls are related and no entry is lost; the chains may be longer.
  abbrev pub Locks : Config → Table R → ℕ × Table R → Type 0
  Locks h t x = Paired t.lock_calls (x.1).lock_calls × Entries h t.buckets (x.1).buckets

  pub Locks-of_Released :
      {h : Config} {t : Table R} (x : ℕ × Table R) → Released h t (x.1) → Locks h t x
  Locks-of_Released x p = (p.locks, p.entries)

  pub Locks-trans :
      {h : Config} {t u : Table R} (x : ℕ × Table R) → Released h t u → Locks h u x → Locks h t x
  Locks-trans {h} x p q = (Paired-trans p.locks (q.0), Entries-trans h p.entries (q.1))

  -- A slot holds the key.
  abbrev pub HasKey : (slot_id : ℕ) (key : List ℕ) → Table R → Type 0
  HasKey slot_id key t = rte_hash_cmp_eq key (get_or t.key_store slot_id no_key).key ≡ true

  -- The entry of a key that is in its slot matches.
  pub Entry-MatchIn :
      (key : List ℕ) (sig slot_id i s : ℕ) (t : Table R)
      → HasKey slot_id key t
      → Entry t.buckets i s sig slot_id
      → MatchIn key sig t (bucket t (main i)) (position slot_id)
  unfolding entry_matches bucket
  Entry-MatchIn key sig slot_id i s t has e =
      (s, e.slot_in, rw (e.has_sig, e.has_idx, has, ==_refl sig) refl, ap position e.has_idx)

  -- The answer is -ENOSPC, or the key has the position that is answered.
  abbrev pub Tells : (key : List ℕ) (prim sec sig : ℕ) → ℕ × Table R → Type 0
  Tells key prim sec sig x = (x.0 ≡ minus_enospc) ⊎ Found key sig (x.1) (main prim) (main sec) (x.0)

module _ {R : Type 0} (h : Config) (key : List ℕ) (prim sec sig slot_id : ℕ) where
  -- A table without extendable buckets keeps its chains and its keys, and the answer is true.
  abbrev pub Answer : Table R → ℕ × Table R → Type 0
  Answer t x =
      h.ext_table_support ≡ false
      → Released h t (x.1)
        × ((k : ℕ) → Sized k h t.buckets → HasKey slot_id key t → Tells key prim sec sig x)

  abbrev pub Added : Table R → ℕ × Table R → Type 0
  Added t x = Locks h t x × Answer t x

  pub Added-after : {t u : Table R} (x : ℕ × Table R) → Released h t u → Added u x → Added t x
  Added-after {t} {u} x p (locks, answer) = (
    Locks-trans x p locks,
    λ no_ext.
        let (q, tells) = answer no_ext in
        (
          Released-trans p q,
          λ k z has.
              tells k ((p.entries k z).0) (ap (λ l. rte_hash_cmp_eq key l) (p.keys slot_id) ∙ has),
        ),
  )

  pub Added-told :
      {t : Table R} (x : ℕ × Table R) → Released h t (x.1) → Tells key prim sec sig x → Added t x
  Added-told x p tells = (Locks-of_Released x p, λ no_ext. (p, λ k z has. tells))

  -- The key is stored, in one bucket or the other.
  pub Added-stored :
      (a alt err : ℕ) {t : Table R} (u : Table R)
      → ((v : ℕ) → Found key sig u (main a) (main alt) v → Found key sig u (main prim) (main sec) v)
      → Made h key a alt sig slot_id err t (stored, u)
      → Added t (position slot_id, u)
  Added-stored a alt err {t} u turn (p, put, _) = (
    Locks-of_Released (position slot_id, u) p,
    λ no_ext. (
      p,
      λ k z has.
          let (s, e) = put k z refl in
          inr (
            turn _ (
              inl (
                main a,
                here,
                Entry-MatchIn key sig slot_id a s u
                    (ap (λ l. rte_hash_cmp_eq key l) (p.keys slot_id) ∙ has) e,
              ))),
    ),
  )
