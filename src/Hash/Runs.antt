-- ===== src/Hash/Runs.antt =====
-- Runs of insertions into the table of rte_lib/rte_cuckoo_hash.c, with the list of the keys and slots
-- that they have stored.
use mathlib.Core.List.{Memᴰ}
use my_l3fwd.Prelude.{ℕ, suc, ◌^◌, ◌<◌, ◌≡◌, ◌≢◌, false, some, List, [], ◌∷◌}
use my_l3fwd.Hash.{minus_enospc, Config, RingOps, Table, rte_hash_cmp_eq, alloc_slot}
use my_l3fwd.Hash.Add.{add_key_with_hash}
use my_l3fwd.Hash.Entries.{Sized}
use my_l3fwd.Hash.Release.{Room}
use my_l3fwd.Hash.Hits.{Chainless}
use my_l3fwd.Hash.Holds.{OnlyIn, Holds}

-- A key that has been added, with its hash and its slot.
pub record Logged : Type 0 where
  pub key : List ℕ
  pub hash : ℕ
  pub slot_id : ℕ

module _ {R : Type 0} (ring : RingOps R) (h : Config) (fuel : ℕ) where
  -- A new key: the slot that the ring gives is one of the key store that no key of the list has, no
  -- other slot has a key that matches, and no key of the list matches.
  pub record Fits (log : List Logged) (key : List ℕ) (t : Table R) : Type 0 where
    pub room : Room ring h key t
    pub used : 0 < (alloc_slot ring t).0
    pub small : (alloc_slot ring t).0 < 2 ^ 32
    pub only : OnlyIn (alloc_slot ring t).0 key t
    pub others :
        (e : Logged)
        → Memᴰ e log
        → (e.slot_id ≢ (alloc_slot ring t).0) × (rte_hash_cmp_eq e.key key ≡ false)

  -- The insertions of a run: of a new key, which is stored or for which there is no room, and of a
  -- key of the list.
  pub data Run (t₀ : Table R) : List Logged → Table R → Type 0 where
    start : Run t₀ [] t₀
    added :
        {log : List Logged} {t t' : Table R} {ret : ℕ}
        → Run t₀ log t
        → (key : List ℕ) (hash app_data : ℕ) → Fits log key t
        → add_key_with_hash ring h (suc fuel) key hash app_data t ≡ some (ret, t')
        → ret ≢ minus_enospc
        → Run t₀ (record { key = key; hash = hash; slot_id = (alloc_slot ring t).0 } ∷ log) t'
    no_room :
        {log : List Logged} {t t' : Table R}
        → Run t₀ log t
        → (key : List ℕ) (hash app_data : ℕ) → Fits log key t
        → add_key_with_hash ring h (suc fuel) key hash app_data t ≡ some (minus_enospc, t')
        → Run t₀ log t'
    again :
        {log : List Logged} {t t' : Table R} {ret : ℕ}
        → Run t₀ log t
        → (e : Logged) (app_data : ℕ) → Memᴰ e log
        → add_key_with_hash ring h (suc fuel) e.key e.hash app_data t ≡ some (ret, t')
        → Run t₀ log t'

  -- The table has the key in its slot, and in no other.
  pub record InTable (e : Logged) (t : Table R) : Type 0 where
    pub used : 0 < e.slot_id
    pub small : e.slot_id < 2 ^ 32
    pub only : OnlyIn e.slot_id e.key t
    pub holds : Holds h e.key e.hash e.slot_id t

  pub record Represents (k : ℕ) (log : List Logged) (t : Table R) : Type 0 where
    pub alone : Chainless t
    pub sized : Sized k h t.buckets
    pub all : (e : Logged) → Memᴰ e log → InTable e t
