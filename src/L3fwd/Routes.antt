-- ===== src/L3fwd/Routes.antt =====
-- The routes of l3fwd/em_l3f.c: their keys, as the hash table sees them, and their hash function.
use my_l3fwd.Prelude.{ℕ, ◌/◌, ◌%◌, List, [], ◌∷◌, ◌++◌}

pub record Ipv6FiveTuple : Type 0 where
  pub ip_dst : List ℕ
  pub ip_src : List ℕ
  pub port_dst : ℕ
  pub port_src : ℕ
  pub proto : ℕ

pub record Ipv6Route : Type 0 where
  pub key : Ipv6FiveTuple
  pub if_out : ℕ

-- `IPPROTO_UDP` of the system's headers.
abbrev pub ipproto_udp : ℕ
ipproto_udp = 17

-- The entries of the array differ in one byte of each address and in the interface.
abbrev pub entry : ℕ → Ipv6Route
entry i = record {
  key = record {
    ip_dst = 32 ∷ 1 ∷ 2 ∷ 0 ∷ 0 ∷ 0 ∷ 0 ∷ i ∷ 0 ∷ 0 ∷ 0 ∷ 0 ∷ 0 ∷ 0 ∷ 0 ∷ 0 ∷ [];
    ip_src = 32 ∷ 1 ∷ 2 ∷ 0 ∷ 0 ∷ 0 ∷ 0 ∷ i ∷ 0 ∷ 0 ∷ 0 ∷ 0 ∷ 0 ∷ 0 ∷ 0 ∷ 1 ∷ [];
    port_dst = 9;
    port_src = 9;
    proto = ipproto_udp;
  };
  if_out = i;
}

abbrev pub ipv6_l3fwd_em_route_array : List Ipv6Route
ipv6_l3fwd_em_route_array =
    entry 0
    ∷ entry 1
    ∷ entry 2
    ∷ entry 3
    ∷ entry 4
    ∷ entry 5
    ∷ entry 6
    ∷ entry 7
    ∷ entry 8
    ∷ entry 9
    ∷ entry 10
    ∷ entry 11
    ∷ entry 12
    ∷ entry 13
    ∷ entry 14
    ∷ entry 15
    ∷ []

-- The bytes of the packed structure.
unfoldable pub key_bytes : Ipv6FiveTuple → List ℕ
key_bytes k =
    k.ip_dst
    ++ k.ip_src
    ++ (k.port_dst % 256 ∷ k.port_dst / 256 ∷ k.port_src % 256 ∷ k.port_src / 256 ∷ k.proto ∷ [])

-- It looks at neither argument.
unfoldable pub ipv6_hash_crc : (key : List ℕ) (init_val : ℕ) → ℕ
ipv6_hash_crc key init_val = 0
