-- ===== src/Hash/Refines.antt =====
-- A run of insertions into the table of rte_lib/rte_cuckoo_hash.c against an association list of keys
-- and slots.
pub mod Tests
use mathlib.Core.List.{Memᴰ}
use my_l3fwd.Prelude.{◌^◌, ◌<◌, refl, List, [], ◌∷◌, inl, inr}
use my_l3fwd.Hash.Gives.{Gives}
use my_l3fwd.Hash.Release.{Room}
use my_l3fwd.Hash.Holds.{OnlyIn, Holds}
