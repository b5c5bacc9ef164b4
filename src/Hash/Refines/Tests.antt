-- ===== src/Hash/Refines/Tests.antt =====
-- A run of two insertions, the second of which moves the entry of the first key.
use mathlib.Core.List.{Memᴰ}
use my_l3fwd.Prelude.{ℕ, none, List, [], ◌∷◌, replicate}
use my_l3fwd.Hash.{Table, write_lock, write_unlock}
use my_l3fwd.Hash.Tests.{some_key}
use my_l3fwd.Hash.Stored.Tests.{no_bytes, key_added, other_key}
use my_l3fwd.Hash.Runs.{Logged}

abbrev some_entry : Logged
some_entry = record { key = some_key; hash = 0x50005; slot_id = 1 }

abbrev other_entry : Logged
other_entry = record { key = other_key; hash = 0x70001; slot_id = 2 }

-- The entry of the first key has moved to bucket 0.
abbrev both_added : Table (List ℕ)
both_added = record key_added {
  key_store =
      no_bytes
      ∷ record { pdata = 77; key = some_key }
      ∷ record { pdata = 79; key = other_key }
      ∷ no_bytes
      ∷ [];
  buckets =
      record { sig_current = 3 ∷ 5 ∷ replicate 6 0; key_idx = 4 ∷ 1 ∷ replicate 6 0; next = none }
      ∷ record { sig_current = 7 ∷ replicate 7 3; key_idx = 2 ∷ replicate 7 1; next = none }
      ∷ [];
  free_slots = 3 ∷ [];
  lock_calls =
      write_unlock ∷ write_lock ∷ write_unlock ∷ write_lock ∷ write_unlock ∷ write_lock
      ∷ key_added.lock_calls;
}
