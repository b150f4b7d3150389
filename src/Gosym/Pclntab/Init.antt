-- ===== src/Gosym/Pclntab/Init.antt =====
-- gosym/pclntab.go: go12Init and isGo12, with the fields that are assigned when it panics halfway.
use debug.Common.{
  ltb, ◌==◌, if◌then◌else◌, length, get_or, take, u32, ByteOrder, little_endian, big_endian,
  order_value, ℕ, ◌+◌, ◌*◌, Bool, true, false, not, ◌&&◌, ◌||◌, Option, none, some,
}
use debug.Common.Result.{Result, ok, err, panic, stuck, ◌>>=◌}
use debug.Gosym.Pclntab.{
  go12_unknown, go12_no, go12_yes, LineTable, slice_from, order_uint32, uintptr,
}

-- The byte `t.Data[i]`, once the length is checked.
abbrev pub header_byte : LineTable → ℕ → ℕ
header_byte t i = get_or t.content i 0

-- A panic in `r` leaves the table as it is.
abbrev pub attempt {ℓ} : {A : Type ℓ} → LineTable → Result A → (A → LineTable) → LineTable
attempt t (ok a) k = k a
attempt t (err e) k = t
attempt t panic k = t
attempt t stuck k = t

-- The header: two zeros, the PC quantum and the pointer size.
unfoldable pub bad_header : LineTable → Bool
bad_header t =
    ltb (length t.content) 16
    || (not (header_byte t 4 == 0)
        || (not (header_byte t 5 == 0)
            || ((not (header_byte t 6 == 1) && not (header_byte t 6 == 4))
                || (not (header_byte t 7 == 4) && not (header_byte t 7 == 8)))))

abbrev pub go12magic : ℕ
go12magic = 0xfffffffb

-- The byte order in which the data starts with the magic number.
unfoldable pub magic_order : LineTable → Option ByteOrder
magic_order t =
    if order_value little_endian (take 4 t.content) == go12magic
    then some little_endian
    else if order_value big_endian (take 4 t.content) == go12magic
    then some big_endian
    else none

-- The tables behind the header, with each field that is assigned before a panic.
unfoldable pub init_tables : LineTable → LineTable
unfolding slice_from uintptr
init_tables t = attempt t (slice_from 8 t.content >>= λ b. uintptr t b) (λ n.
    (let t1 = record t { nfunctab = u32 n } in
      attempt t1 (slice_from (8 + t.ptrsize) t.content) (λ functab.
        (let t2 = record t1 { functab = functab } in
          let functabsize = u32 (u32 n * 2 * t.ptrsize + t.ptrsize) in
          attempt t2 (slice_from functabsize functab >>= λ b. order_uint32 t.binary b) (λ fileoff.
            (let t3 = record t2 { functab = take functabsize functab } in
              attempt t3 (slice_from fileoff t.content) (λ filetab.
                attempt (record t3 { filetab = filetab }) (order_uint32 t.binary filetab)
                  (λ nfiletab.
                    (let t4 = record t3 { filetab = filetab; nfiletab = nfiletab } in
                      if ltb (length filetab) (u32 (nfiletab * 4)) then t4 else record t4 {
                        filetab = take (u32 (nfiletab * 4)) filetab;
                        go12 = go12_yes;
                      })))))))))

unfoldable pub go12_init : LineTable → LineTable
unfolding bad_header magic_order init_tables
go12_init t = elim t.go12 [
  | go12_unknown ↦
      let t0 = record t { go12 = go12_no } in
      if bad_header t then t0 else elim (magic_order t) [
        | none ↦ t0
        | some o ↦
            init_tables
              (record t0 { binary = o; quantum = header_byte t 6; ptrsize = header_byte t 7 })
      ]
  | go12_no ↦ t
  | go12_yes ↦ t
]

unfoldable pub is_go12 : LineTable → Bool
unfolding go12_init
is_go12 t = elim (go12_init t).go12 [ go12_unknown ↦ false | go12_no ↦ false | go12_yes ↦ true ]
