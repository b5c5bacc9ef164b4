-- ===== src/Cbuf.antt =====
-- The circular receive buffer of rpc_shm/cbuf.h and rpc_shm/cbuf.cpp, in which a sender keeps its
-- copy of the receiver's head. `none` is a program that ends, by an assertion or an exception.
pub mod Modulus
pub mod Runs
pub mod Room
pub mod Avail
pub mod Protocol
pub mod Receiver
pub mod Tests
use my_l3fwd.Prelude.{
  ℕ, ◌+◌, ◌-◌, ◌^◌, ◌*◌, ◌<◌, Bool, true, false, not, ◌&&◌, Option, none, some, List, ◌==◌, ltb,
  leb, if◌then◌else◌, get_elem?, set, length, replicate, u64,
}

-- The base pointer is an address.
pub record CircularReceiveBuffer : Type 0 where
  pub is_full : Bool
  pub base_pointer : ℕ
  pub entry_byte_size : ℕ
  pub num_entries : ℕ
  pub head : ℕ
  pub tail : ℕ
  pub buffer_sr : Bool
  pub sr_vector : List Bool
  pub senders_head : ℕ
  pub is_sender : Bool

abbrev pub new_buffer :
    (a_base a_size a_num_entries : ℕ) (sender_copy : Bool) → CircularReceiveBuffer
new_buffer a_base a_size a_num_entries sender_copy = record {
  is_full = false;
  base_pointer = a_base;
  entry_byte_size = a_size;
  num_entries = a_num_entries;
  head = 0;
  tail = 0;
  buffer_sr = false;
  sr_vector = replicate a_num_entries true;
  senders_head = 0;
  is_sender = sender_copy;
}

unfoldable pub get_head_address : CircularReceiveBuffer → ℕ
get_head_address b = b.base_pointer + u64 (b.head * b.entry_byte_size)

unfoldable pub get_tail_address : CircularReceiveBuffer → ℕ
get_tail_address b = b.base_pointer + u64 (b.tail * b.entry_byte_size)

unfoldable pub get_head_offset : CircularReceiveBuffer → ℕ
get_head_offset b = u64 (b.head * b.entry_byte_size)

unfoldable pub get_tail_offset : CircularReceiveBuffer → ℕ
get_tail_offset b = u64 (b.tail * b.entry_byte_size)

-- The tail and the sense, before the flag and the check.
unfoldable pub advance_tail : CircularReceiveBuffer → CircularReceiveBuffer
advance_tail b =
    if leb b.num_entries (u64 (b.tail + 1))
    then record b { tail = 0; buffer_sr = not b.buffer_sr }
    else record b { tail = u64 (b.tail + 1) }

unfoldable pub bits_agree : Bool → Bool → Bool
bits_agree true b = b
bits_agree false b = not b

unfoldable pub flag_full : CircularReceiveBuffer → CircularReceiveBuffer
flag_full b = if b.tail == b.senders_head then record b { is_full = true } else b

-- `sr_vector.at(tail)` throws out of range.
unfoldable pub inc_tail : CircularReceiveBuffer → Option CircularReceiveBuffer
inc_tail b =
    let moved = flag_full (advance_tail b) in
    let checked =
      elim (get_elem? moved.sr_vector moved.tail) as (λ o. Option CircularReceiveBuffer) [
        | none ↦ none
        | some sense ↦ if bits_agree sense moved.buffer_sr then none else some moved
      ] in
    if b.is_sender then checked else none

unfoldable pub inc_head_after_msg_processed : CircularReceiveBuffer → CircularReceiveBuffer
inc_head_after_msg_processed b =
    if leb b.num_entries (u64 (b.head + 1))
    then record b { head = 0 }
    else record b { head = u64 (b.head + 1) }

-- `inc` is an `unsigned`.
unfoldable pub inc_senders_head_to_free_space :
    (inc : ℕ) → CircularReceiveBuffer → Option CircularReceiveBuffer
inc_senders_head_to_free_space inc b =
    let sum = u64 (b.senders_head + inc) in
    let new_head = if leb b.num_entries sum then 0 else sum in
    let moved = record b { senders_head = new_head } in
    if b.is_sender
    then some (if b.tail == new_head then moved else record moved { is_full = false })
    else none

unfoldable pub write_sr_metadata :
    (entry : ℕ) → CircularReceiveBuffer → Option CircularReceiveBuffer
write_sr_metadata entry b =
    if ltb entry (length b.sr_vector)
    then some (record b { sr_vector = set b.sr_vector entry b.buffer_sr })
    else none

-- The memory as the byte at each address.
abbrev pub memset : (start value size : ℕ) → (ℕ → ℕ) → ℕ → ℕ
memset start value size mem a = if leb start a && ltb a (start + size) then value else mem a

unfoldable pub zero_entry_number : (index : ℕ) → CircularReceiveBuffer → (ℕ → ℕ) → ℕ → ℕ
zero_entry_number index b =
    memset (b.base_pointer + u64 (index * b.entry_byte_size)) 0 b.entry_byte_size

unfoldable pub get_reserved_memory_bytes : CircularReceiveBuffer → ℕ
get_reserved_memory_bytes b = u64 (b.num_entries * b.entry_byte_size)

unfoldable pub is_empty : CircularReceiveBuffer → Bool
is_empty b = not b.is_full && (b.senders_head == b.tail)

-- The difference of two `size_t`.
abbrev pub minus64 : ℕ → ℕ → ℕ
minus64 x y = u64 (x + 2 ^ 64 - y)

unfoldable pub get_buffer_size : CircularReceiveBuffer → ℕ
get_buffer_size b =
    let in_use =
      if leb b.senders_head b.tail
      then minus64 b.tail b.senders_head
      else u64 (minus64 b.num_entries b.senders_head + b.tail) in
    if is_empty b then b.num_entries else in_use

unfoldable pub get_avail_slots : CircularReceiveBuffer → ℕ
get_avail_slots b = if is_empty b then b.num_entries else minus64 b.num_entries (get_buffer_size b)
