-- ===== src/Dwarf/Buf/Ops.antt =====
-- Sequences of reads from the buffer of dwarf/buf.go.
use debug.Common.{ℕ, zero, suc, ◌^◌, ◌<◌, ◌≡◌, refl, ap, ◌∙◌, List, [], ◌∷◌, String, arith}
use debug.Dwarf.Buf.Failed.{
  failed_with, bytes_failed, uint8_failed, fixed_failed, varint_failed, string_failed, addr_failed,
  assert_empty_failed, bytes_none,
}
use debug.Dwarf.Buf.{
  Buf, uint8, bytes, string, uint16, uint32, uint64, uint, int, addr, assert_empty,
}

-- The methods that read.
pub data Op : Type 0 where
  op_uint8 op_uint16 op_uint32 op_uint64 op_uint op_int op_addr op_string op_assert_empty : Op
  op_bytes : ℕ → Op

abbrev pub run_op : Op → Buf → Buf
run_op op_uint8 b = (uint8 b).1
run_op op_uint16 b = (uint16 b).1
run_op op_uint32 b = (uint32 b).1
run_op op_uint64 b = (uint64 b).1
run_op op_uint b = (uint b).1
run_op op_int b = (int b).1
run_op op_addr b = (addr b).1
run_op op_string b = (string b).1
run_op op_assert_empty b = assert_empty b
run_op (op_bytes n) b = (bytes b n).1

abbrev pub run_ops : List Op → Buf → Buf
run_ops [] b = b
run_ops (o ∷ ops) b = run_ops ops (run_op o b)

run_op_failed :
    (o : Op) (b : Buf) (s : String) (args : List ℕ)
    → b.off < 2 ^ 32
    → run_op o (failed_with b s args) ≡ failed_with b s args
unfolding uint16 uint32 uint64 uint int
run_op_failed op_uint8 b s args h = ap (λ r. r.1) (uint8_failed (failed_with b s args) refl refl)
run_op_failed op_uint16 b s args h =
    ap (λ r. r.1) (fixed_failed (failed_with b s args) refl refl 2 (omega arith))
run_op_failed op_uint32 b s args h =
    ap (λ r. r.1) (fixed_failed (failed_with b s args) refl refl 4 (omega arith))
run_op_failed op_uint64 b s args h =
    ap (λ r. r.1) (fixed_failed (failed_with b s args) refl refl 8 (omega arith))
run_op_failed op_uint b s args h = ap (λ v. v.2) (varint_failed (failed_with b s args) refl refl)
run_op_failed op_int b s args h = ap (λ v. v.2) (varint_failed (failed_with b s args) refl refl)
run_op_failed op_addr b s args h = ap (λ r. r.1) (addr_failed (failed_with b s args) refl refl)
run_op_failed op_string b s args h = ap (λ r. r.1) (string_failed (failed_with b s args) refl refl)
run_op_failed op_assert_empty b s args h = assert_empty_failed (failed_with b s args) refl refl
run_op_failed (op_bytes zero) b s args h =
    ap (λ r. r.1) (bytes_none (failed_with b s args) refl refl h)
run_op_failed (op_bytes (suc n)) b s args h =
    ap (λ r. r.1) (bytes_failed (failed_with b s args) refl refl (suc n) (omega arith))

pub run_ops_failed :
    (ops : List Op) (b : Buf) (s : String) (args : List ℕ)
    → b.off < 2 ^ 32
    → run_ops ops (failed_with b s args) ≡ failed_with b s args
run_ops_failed [] b s args h = refl
run_ops_failed (o ∷ ops) b s args h =
    ap (run_ops ops) (run_op_failed o b s args h) ∙ run_ops_failed ops b s args h
