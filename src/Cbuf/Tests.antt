-- ===== src/Cbuf/Tests.antt =====
-- A buffer of four entries of 64 bytes, runs of it, and instances of the theorems about it.
use my_l3fwd.Prelude.{◌-◌, ◌≡◌, ◌≢◌, refl, arith, true, false, some, [], ◌∷◌, ◌==◌, if◌then◌else◌}
use my_l3fwd.Cbuf.{
  CircularReceiveBuffer, new_buffer, advance_tail, flag_full, bits_agree, inc_tail,
  inc_senders_head_to_free_space, write_sr_metadata, is_empty, get_buffer_size, get_avail_slots,
  get_head_address, get_tail_address,
}
use my_l3fwd.Cbuf.Runs.{send, Sense, messages, messages_return}
use my_l3fwd.Cbuf.Room.{Holds}
use my_l3fwd.Cbuf.Protocol.{Run, start, sends, frees, Run-Holds, get_avail_slots-Run}
use my_l3fwd.Cbuf.Receiver.{received, Run-meets, Run-apart}

abbrev fresh : CircularReceiveBuffer
fresh = new_buffer 4096 64 4 true

abbrev sent_one : CircularReceiveBuffer
sent_one = record fresh { tail = 1; sr_vector = false ∷ true ∷ true ∷ true ∷ [] }

abbrev sent_two : CircularReceiveBuffer
sent_two = record fresh { tail = 2; sr_vector = false ∷ false ∷ true ∷ true ∷ [] }

abbrev sent_three : CircularReceiveBuffer
sent_three = record fresh { tail = 3; sr_vector = false ∷ false ∷ false ∷ true ∷ [] }

abbrev sent_four : CircularReceiveBuffer
sent_four = record fresh {
  is_full = true;
  tail = 0;
  buffer_sr = true;
  sr_vector = false ∷ false ∷ false ∷ false ∷ [];
}

abbrev freed_two : CircularReceiveBuffer
freed_two = record sent_four { is_full = false; senders_head = 2 }

one : Run 4096 64 4 0 1 sent_one
unfolding send write_sr_metadata inc_tail flag_full advance_tail bits_agree
one = sends start (omega arith) refl

two : Run 4096 64 4 0 2 sent_two
unfolding send write_sr_metadata inc_tail flag_full advance_tail bits_agree
two = sends one (omega arith) refl

three : Run 4096 64 4 0 3 sent_three
unfolding send write_sr_metadata inc_tail flag_full advance_tail bits_agree
three = sends two (omega arith) refl

four : Run 4096 64 4 0 4 sent_four
unfolding send write_sr_metadata inc_tail flag_full advance_tail bits_agree
four = sends three (omega arith) refl

four_less_two : Run 4096 64 4 2 2 freed_two
unfolding inc_senders_head_to_free_space
four_less_two = frees 2 four (omega arith) (omega arith) (omega arith) refl

-- A full buffer is said to have four free entries.
full_avail : get_avail_slots sent_four ≡ 4
unfolding get_avail_slots get_buffer_size is_empty
full_avail = refl

Run-Holds_example : Holds 4 2 2 freed_two
Run-Holds_example = Run-Holds 4096 64 4 (omega arith) (omega arith) four_less_two

get_avail_slots-Run_example :
    (get_buffer_size sent_four ≡ (if 4 == 0 then 4 else if 4 == 4 then 0 else 4))
    × (get_avail_slots sent_four ≡ (if 4 == 4 then 4 else 4 - 4))
get_avail_slots-Run_example = get_avail_slots-Run 4096 64 4 (omega arith) (omega arith) four

Run-meets_example :
    get_tail_address freed_two ≡ get_head_address (received 4 (new_buffer 4096 64 4 false))
Run-meets_example = Run-meets 4096 64 4 (omega arith) (omega arith) false four_less_two

Run-apart_example :
    get_tail_address freed_two ≢ get_head_address (received 3 (new_buffer 4096 64 4 false))
Run-apart_example =
    Run-apart 4096 64 4 (omega arith) (omega arith) false four_less_two 1 (omega arith)
      (omega arith) (omega arith) (omega arith)

messages_return_example :
    (b : CircularReceiveBuffer) × (messages 9 (new_buffer 4096 64 4 true) ≡ some b) × Sense b
messages_return_example = messages_return 4096 64 4 9 (omega arith) (omega arith)
