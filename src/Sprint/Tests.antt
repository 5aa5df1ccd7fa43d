-- ===== src/Sprint/Tests.antt =====
-- Printing into a buffer at 100.
use operating_system_cortex.Base.{◌≡◌, refl, ok, List, [], ◌∷◌, arith, Run, ℕ, if◌then◌else◌, ◌==◌}
use operating_system_cortex.Bytes.{Bytes, write_byte}
use operating_system_cortex.Sprint.{
  Out, print_from, count_digits, print_conversion, print_argument, print_int, int_digits, put_all,
  reversed, put, print_uint_to_buffer, print_to_buffer_va,
}
use operating_system_cortex.Sprint.Decimal.{Printed, print_uint_to_buffer-Printed}

abbrev out : Out
out = record { memory = λ a. 0; dest = 100; size = 0 }

print_uint_to_buffer-Printed_example : Printed 4096 out (print_uint_to_buffer 10 4096 out)
print_uint_to_buffer-Printed_example =
    print_uint_to_buffer-Printed 10 4096 out (omega arith) (omega arith) (omega arith)

-- "%u" at 0
abbrev format : Bytes
format a = if a == 0 then 0x25 else if a == 1 then 0x75 else 0

abbrev written : Run (ℕ × Bytes) → List ℕ
written (ok (size, m)) = size ∷ m 100 ∷ m 101 ∷ []
written _ = []

-- The largest unsigned word is printed as -1.
print_unsigned :
    written (print_to_buffer_va 20 100 0 (0xFFFFFFFF ∷ []) format) ≡ 2 ∷ 0x2D ∷ 0x31 ∷ []
unfolding print_to_buffer_va print_uint_to_buffer write_byte print_from count_digits
    print_conversion print_argument print_int int_digits put_all reversed put
print_unsigned = refl
