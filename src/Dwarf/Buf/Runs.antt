-- ===== src/Dwarf/Buf/Runs.antt =====
-- Runs of the buffer of dwarf/buf.go.
use debug.Common.{
  Bytes, little_endian, ◌-◌, ◌^◌, ◌≡◌, refl, ◌⊎◌, none, some, List, [], ◌∷◌, ◌++◌, arith,
}
use debug.Common.Result.{decode_error}
use debug.Dwarf.Buf.Leb.{IsLeb, varint-leb_value, varint_unended}
use debug.Dwarf.Buf.Sleb.{int-signed_word}
use debug.Dwarf.Buf.Cursor.{IsCursor, FailedAt, make_buf-run_ops}
use debug.Dwarf.Buf.Ops.{Op, op_uint8, op_uint32, op_uint, op_int, op_string, run_ops}
use debug.Dwarf.Buf.Failed.{zeros_after_error}
use debug.Dwarf.Buf.{
  unknown_format, Buf, make_buf, uint8, bytes, skip, slice, string, uint16, uint32, uint64, varint,
  uint, int, addr, assert_empty,
}

abbrev info : Bytes → Buf
info bs = make_buf little_endian unknown_format "info" 0x10 bs

-- 624485, as the DWARF standard encodes it.
abbrev number : Bytes
number = 0xe5 ∷ 0x8e ∷ 0x26 ∷ []

number-IsLeb : IsLeb number
number-IsLeb = (omega arith, omega arith, (omega arith, omega arith, omega arith))

varint-leb_value_example :
    varint (info (number ++ 7 ∷ [])) ≡ (624485, 21, record (info (7 ∷ [])) { off = 0x13 })
varint-leb_value_example =
    varint-leb_value (info (number ++ 7 ∷ [])) number (7 ∷ []) refl number-IsLeb

varint_unended_example : varint (info (0x80 ∷ 0xff ∷ [])) ≡ (0, 0, info (0x80 ∷ 0xff ∷ []))
varint_unended_example =
    varint_unended (info (0x80 ∷ 0xff ∷ []))
      ((omega arith, omega arith), ((omega arith, omega arith), tt))

-- -2 in one byte.
abbrev minus_two : Bytes
minus_two = 0x7e ∷ []

minus_two-IsLeb : IsLeb minus_two
minus_two-IsLeb = omega arith

int-signed_word_example :
    int (info (minus_two ++ 7 ∷ [])) ≡ (2 ^ 64 - 2, record (info (7 ∷ [])) { off = 0x11 })
int-signed_word_example =
    int-signed_word (info (minus_two ++ 7 ∷ [])) minus_two (7 ∷ []) refl minus_two-IsLeb

abbrev section_ops : List Op
section_ops = op_uint8 ∷ op_uint ∷ op_string ∷ op_uint32 ∷ op_int ∷ []

abbrev section : Bytes
section = 1 ∷ 0x81 ∷ 1 ∷ b'a' ∷ 0 ∷ 9 ∷ []

make_buf-run_ops_example :
    IsCursor 0x10 section
      (run_ops section_ops (make_buf little_endian unknown_format "info" 0x10 section))
    ⊎ FailedAt 0x10 section section_ops (make_buf little_endian unknown_format "info" 0x10 section)
make_buf-run_ops_example =
    make_buf-run_ops little_endian unknown_format "info" 0x10 section section_ops (omega arith)

-- The fourth read finds one byte of four: the error stands at its offset, and the fifth reads nothing.
section_read :
    run_ops section_ops (make_buf little_endian unknown_format "info" 0x10 section)
    ≡ record (info []) { off = 0x15; err = some (decode_error "info" 0x15 "underflow" []) }
unfolding uint8 uint string uint32 int
section_read = refl

abbrev failed_buf : Buf
failed_buf = record (info []) { err = some (decode_error "info" 0x10 "underflow" []) }

zeros_after_error_example :
    (uint8 failed_buf ≡ (0, failed_buf))
    × (uint16 failed_buf ≡ (0, failed_buf))
    × (uint32 failed_buf ≡ (0, failed_buf))
    × (uint64 failed_buf ≡ (0, failed_buf))
    × (uint failed_buf ≡ (0, failed_buf))
    × (int failed_buf ≡ (0, failed_buf))
    × (addr failed_buf ≡ (0, failed_buf))
    × (varint failed_buf ≡ (0, 0, failed_buf))
    × (string failed_buf ≡ ([], failed_buf))
    × (bytes failed_buf 3 ≡ (none, failed_buf))
    × (bytes failed_buf 0 ≡ (some [], failed_buf))
    × (skip failed_buf 3 ≡ failed_buf)
    × (skip failed_buf 0 ≡ failed_buf)
    × (assert_empty failed_buf ≡ failed_buf)
    × (slice failed_buf 3 ≡ none)
    × (slice failed_buf 0 ≡ some (failed_buf, failed_buf))
zeros_after_error_example =
    zeros_after_error failed_buf {e = decode_error "info" 0x10 "underflow" []} refl refl 2
      (omega arith)

underflow : (uint32 (info (1 ∷ 2 ∷ []))).1 ≡ failed_buf
unfolding uint32
underflow = refl
