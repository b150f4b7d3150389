-- ===== src/Dwarf/Buf/Cursor.antt =====
-- Where a buffer stands in its section, after any calls of its methods.
use debug.Common.{
  ltb, ◌==◌, Bool-cases, if-cases, length, take, drop, length-drop, drop-drop, u32, Bytes,
  ByteOrder, ℕ, suc, ◌+◌, ◌^◌, ◌≤◌, ◌<◌, ◌≡◌, refl, ap, ◌∙◌, ◌⊎◌, inl, inr, Option, none, some,
  List, [], ◌∷◌, ◌++◌, String, arith,
}
use debug.Dwarf.Buf.Scans.{Splits, split_nul-Splits, varint_loop_taken}
use debug.Dwarf.Buf.Ops.{
  Op, op_uint8, op_uint16, op_uint32, op_uint64, op_uint, op_int, op_addr, op_string,
  op_assert_empty, op_bytes, run_op, run_ops, run_ops_failed,
}
use debug.Dwarf.Buf.Failed.{failed_with, error_first, error_later}
use debug.Dwarf.Buf.{
  DataFormat, Buf, make_buf, error, advance, read_uint8, uint8, bytes, split_nul, read_string,
  string, uint16, uint32, uint64, Varint, varint_loop, read_varint, varint, uint, int, addr,
  assert_empty,
}

-- `b` reads the section `all`, which starts at offset `base`, has taken its first bytes, and has no
-- error.
pub record IsCursor (base : ℕ) (all : Bytes) (b : Buf) : Type 0 where
  pub taken : ℕ
  pub within : taken ≤ length all
  pub offset : b.off ≡ u32 (base + taken)
  pub no_error : b.err ≡ none
  pub left : b.unread ≡ drop taken all

module _ (base : ℕ) (all : Bytes) where
  -- A read from `b` that leaves `b'`: it has gone on, or it has failed where `b` stood.
  abbrev Steps : Buf → Buf → Type 0
  Steps b b' = IsCursor base all b' ⊎ ((s : String) × (args : List ℕ) × (b' ≡ failed_with b s args))

  error-Steps :
      (b : Buf) (s : String) (args : List ℕ) → IsCursor base all b → Steps b (error b s args)
  error-Steps b s args c = inr (s, args, error_first b s args c.no_error)

  advance-Steps :
      (b : Buf) (n : ℕ) → n ≤ length b.unread → IsCursor base all b → Steps b (advance b n)
  advance-Steps b n h c = inl (record {
    taken = c.taken + n;
    within = omega (arith, ap length c.left, c.within, length-drop c.taken all);
    offset = omega (arith, c.offset);
    no_error = c.no_error;
    left = ap (drop n) c.left ∙ drop-drop c.taken n all;
  })

  bytes-Steps : (b : Buf) (n : ℕ) → IsCursor base all b → Steps b (bytes b n).1
  unfolding bytes
  bytes-Steps b n c = elim (Bool-cases (ltb (length b.unread) n)) [
    | inl short ↦ rw short (error-Steps b "underflow" [] c)
    | inr enough ↦ rw enough (advance-Steps b n (ground arith) c)
  ]

  uint8-Steps : (b : Buf) → IsCursor base all b → Steps b (uint8 b).1
  unfolding uint8
  uint8-Steps b c = go b.unread refl
    where
      go : (bs : Bytes) → b.unread ≡ bs → Steps b (read_uint8 b bs).1
      go [] e = error-Steps b "underflow" [] c
      go (x ∷ xs) e = advance-Steps b 1 (omega (arith, ap length e)) c

  varint-Steps : (b : Buf) → IsCursor base all b → Steps b (varint b).2
  unfolding varint
  varint-Steps b c = go (varint_loop 0 0 0 b.unread) refl
    where
      go : (o : Option Varint) → varint_loop 0 0 0 b.unread ≡ o → Steps b (read_varint b o).2
      go none e = inl c
      go (some v) e =
          advance-Steps b v.taken (omega (arith, varint_loop_taken 0 0 0 b.unread v e)) c

  string-Steps : (b : Buf) → IsCursor base all b → Steps b (string b).1
  unfolding string
  string-Steps b c = go (split_nul b.unread) (split_nul-Splits b.unread)
    where
      go : (o : Option (Bytes × Bytes)) → Splits b.unread o → Steps b (read_string b o).1
      go none h = error-Steps b "underflow" [] c
      go (some p) h = rw (← h.0) (advance-Steps b (suc (length p.0)) h.1 c)

  addr-Steps : (b : Buf) → IsCursor base all b → Steps b (addr b).1
  unfolding addr uint16 uint32 uint64
  addr-Steps b c =
      if-cases (λ r. Steps b r.1) (b.format.addrsize == 1) {x = uint8 b} (uint8-Steps b c)
        (if-cases (λ r. Steps b r.1) (b.format.addrsize == 2) {x = uint16 b} (bytes-Steps b 2 c)
          (if-cases (λ r. Steps b r.1) (b.format.addrsize == 4) {x = uint32 b} (bytes-Steps b 4 c)
            (if-cases (λ r. Steps b r.1) (b.format.addrsize == 8) {x = uint64 b} (bytes-Steps b 8 c)
              (error-Steps b "unknown address size" [] c))))

  assert_empty-Steps : (b : Buf) → IsCursor base all b → Steps b (assert_empty b)
  unfolding assert_empty
  assert_empty-Steps b c =
      if-cases (Steps b) (length b.unread == 0) {x = b} (inl c)
        (elim (Bool-cases (ltb 5 (length b.unread))) [
          | inl many ↦
              let first =
                error_first b "unexpected extra data: %x..." (take 5 b.unread) c.no_error in
              let b' = failed_with b "unexpected extra data: %x..." (take 5 b.unread) in
              rw (many, first)
                (inr (
                  "unexpected extra data: %x...",
                  take 5 b.unread,
                  error_later b' "unexpected extra data: %x" b'.unread refl,
                ))
          | inr few ↦ rw few (error-Steps b "unexpected extra data: %x" b.unread c)
        ])

  run_op-Steps : (o : Op) (b : Buf) → IsCursor base all b → Steps b (run_op o b)
  unfolding uint16 uint32 uint64 uint int
  run_op-Steps op_uint8 b c = uint8-Steps b c
  run_op-Steps op_uint16 b c = bytes-Steps b 2 c
  run_op-Steps op_uint32 b c = bytes-Steps b 4 c
  run_op-Steps op_uint64 b c = bytes-Steps b 8 c
  run_op-Steps op_uint b c = varint-Steps b c
  run_op-Steps op_int b c = varint-Steps b c
  run_op-Steps op_addr b c = addr-Steps b c
  run_op-Steps op_string b c = string-Steps b c
  run_op-Steps op_assert_empty b c = assert_empty-Steps b c
  run_op-Steps (op_bytes n) b c = bytes-Steps b n c

make_buf-IsCursor :
    (o : ByteOrder) (f : DataFormat) (n : String) (base : ℕ) (all : Bytes)
    → base < 2 ^ 32
    → IsCursor base all (make_buf o f n base all)
make_buf-IsCursor o f n base all h = record {
  taken = 0;
  within = omega arith;
  offset = omega arith;
  no_error = refl;
  left = refl;
}

-- One of the reads, `op`, has failed: it began with the buffer that the reads `before` it leave,
-- which has no error, and the buffer at the end is that one, emptied, with an error at its offset.
pub record FailedAt (base : ℕ) (all : Bytes) (ops : List Op) (b : Buf) : Type 0 where
  pub before : List Op
  pub op : Op
  pub after : List Op
  pub in_order : ops ≡ before ++ op ∷ after
  pub began : IsCursor base all (run_ops before b)
  pub message : String
  pub args : List ℕ
  pub failed : run_ops ops b ≡ failed_with (run_ops before b) message args

run_ops-cases :
    (base : ℕ) (all : Bytes) (ops : List Op) (b : Buf)
    → IsCursor base all b
    → IsCursor base all (run_ops ops b) ⊎ FailedAt base all ops b
run_ops-cases base all [] b c = inl c
run_ops-cases base all (o ∷ ops) b c = elim (run_op-Steps base all o b c) [
  | inl c' ↦ elim (run_ops-cases base all ops (run_op o b) c') [
    | inl d ↦ inl d
    | inr f ↦ inr (record {
      before = o ∷ f.before;
      op = f.op;
      after = f.after;
      in_order = ap (λ os. o ∷ os) f.in_order;
      began = f.began;
      message = f.message;
      args = f.args;
      failed = f.failed;
    })
  ]
  | inr (s, args, same) ↦ inr (record {
    before = [];
    op = o;
    after = ops;
    in_order = refl;
    began = c;
    message = s;
    args = args;
    failed = ap (run_ops ops) same ∙ run_ops_failed ops b s args (omega (arith, c.offset));
  })
]

-- After any reads from a fresh buffer, in any order, there are two cases. Either the buffer has no
-- error, some first bytes of the section are taken, its offset counts them modulo 2 ^ 32 from that
-- of the section, and the rest of the section is left. Or one of the reads has failed: the buffer
-- before that read has no error and stands behind the bytes taken until then, and the buffer at the
-- end is that one, emptied, with an error that names it and the offset at which the read began.
pub make_buf-run_ops :
    (o : ByteOrder) (f : DataFormat) (n : String) (base : ℕ) (all : Bytes) (ops : List Op)
    → base < 2 ^ 32
    → IsCursor base all (run_ops ops (make_buf o f n base all))
      ⊎ FailedAt base all ops (make_buf o f n base all)
make_buf-run_ops o f n base all ops h =
    run_ops-cases base all ops _ (make_buf-IsCursor o f n base all h)
