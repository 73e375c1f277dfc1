-- ===== src/Decoder/Zz/Xml/Bits.antt =====
-- src/decoder/zz_http2k/zz_http2k_parser_xml.c: the vector of booleans that the XML callbacks keep for each
-- frame of the stack, two bits a frame.
--
-- A char is its eight bits as a number below 256. A position past the end of the vector is a fault.
use n2kafka.Prelude.{
  ℕ, ◌+◌, ◌-◌, ◌*◌, ◌/◌, ◌%◌, ◌^◌, Bool, List, none, some, ◌==◌, if◌then◌else◌, get_elem?, set,
}
use n2kafka.Prelude.Run.{Run, ret, fault}

abbrev pub char_bit : ℕ
char_bit = 8

-- (c & (1 << k)) != 0
unfoldable pub char_test : ℕ → ℕ → Bool
char_test c k = c / 2 ^ k % 2 == 1

-- c | (1 << k)
unfoldable pub char_set : ℕ → ℕ → ℕ
unfolding char_test
char_set c k = if char_test c k then c else c + 2 ^ k

-- c & ~(1 << k)
unfoldable pub char_clear : ℕ → ℕ → ℕ
unfolding char_test
char_clear c k = if char_test c k then c - 2 ^ k else c

unfoldable pub bit_test : List ℕ → ℕ → Run Bool
unfolding char_test
bit_test bit_vector bit_position = elim (get_elem? bit_vector (bit_position / char_bit)) [
  | none ↦ fault
  | some c ↦ ret (char_test c (bit_position % char_bit))
]

unfoldable pub bit_set : List ℕ → ℕ → Run (List ℕ)
unfolding char_set
bit_set bit_vector bit_position = elim (get_elem? bit_vector (bit_position / char_bit)) [
  | none ↦ fault
  | some c ↦ ret (set bit_vector (bit_position / char_bit) (char_set c (bit_position % char_bit)))
]

unfoldable pub bit_clear : List ℕ → ℕ → Run (List ℕ)
unfolding char_clear
bit_clear bit_vector bit_position = elim (get_elem? bit_vector (bit_position / char_bit)) [
  | none ↦ fault
  | some c ↦ ret (set bit_vector (bit_position / char_bit) (char_clear c (bit_position % char_bit)))
]

unfoldable pub text_printed_bit_from_frame : ℕ → ℕ
text_printed_bit_from_frame stack_position = stack_position * 2

unfoldable pub children_printed_bit_from_frame : ℕ → ℕ
children_printed_bit_from_frame stack_position = stack_position * 2 + 1

abbrev pub set_current_stack_text_printed : List ℕ → ℕ → Run (List ℕ)
set_current_stack_text_printed bit_vector stack_position =
    bit_set bit_vector (text_printed_bit_from_frame stack_position)

abbrev pub clear_current_stack_text_printed : List ℕ → ℕ → Run (List ℕ)
clear_current_stack_text_printed bit_vector stack_position =
    bit_clear bit_vector (text_printed_bit_from_frame stack_position)

abbrev pub test_current_stack_text_printed : List ℕ → ℕ → Run Bool
test_current_stack_text_printed bit_vector stack_position =
    bit_test bit_vector (text_printed_bit_from_frame stack_position)

abbrev pub set_current_stack_children_printed : List ℕ → ℕ → Run (List ℕ)
set_current_stack_children_printed bit_vector stack_position =
    bit_set bit_vector (children_printed_bit_from_frame stack_position)

abbrev pub clear_current_stack_children_printed : List ℕ → ℕ → Run (List ℕ)
clear_current_stack_children_printed bit_vector stack_position =
    bit_clear bit_vector (children_printed_bit_from_frame stack_position)

abbrev pub test_current_stack_children_printed : List ℕ → ℕ → Run Bool
test_current_stack_children_printed bit_vector stack_position =
    bit_test bit_vector (children_printed_bit_from_frame stack_position)
