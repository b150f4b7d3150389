-- ===== src/Gosym/Pclntab/Recover.antt =====
-- gosym/pclntab.go: the loops of the Go 1.2 lookups, and what is left of them behind recover.
use debug.Common.{
  ltb, leb, ◌==◌, if◌then◌else◌, Bool-cases, if-cases, length, drop, u32, Bytes, ℕ, zero, suc, ◌+◌,
  ◌-◌, ◌*◌, ◌/◌, ◌^◌, ◌<◌, bit_and, bit_or, ◌≡◌, refl, inl, inr, Bool, not, ◌&&◌, ◌||◌, Option,
  none, some, [], ◌∷◌, arith,
}
use debug.Gosym.Pclntab.Values.{
  varint_from, readvarint, PcValue, step, minus_one, pcvalue_loop, pcvalue, until_zero, string_at,
}
use debug.Common.Result.{
  Result, ok, err, panic, stuck, ◌>>=◌, Any, Settles, bind-Settles, Settles-weaken,
}
use debug.Gosym.Pclntab.Funcs.{covers, func_data, find_loop, find_func}
use debug.Gosym.Pclntab.Lookup.{
  no_value, sign_extend32, field_at, found, go12_pc_to_val, file_name, go12_pc_to_file,
}
use debug.Gosym.Pclntab.{LineTable, present, slice_from, uintptr, recovered}

present-Settles : {A : Type 0} (o : Option A) → Settles {A = A} Any (present o)
present-Settles none = tt
present-Settles (some a) = tt

pub slice_from-Settles : (n : ℕ) (b : Bytes) → Settles {A = Bytes} Any (slice_from n b)
unfolding slice_from
slice_from-Settles n b = if-cases (Settles {A = Bytes} Any) (ltb (length b) n) tt tt

pub uintptr-Settles : (t : LineTable) (b : Bytes) → Settles {A = ℕ} Any (uintptr t b)
unfolding uintptr
uintptr-Settles t b =
    if-cases (Settles {A = ℕ} Any) (t.ptrsize == 4) (present-Settles _) (present-Settles _)

-- A slice of a slice of bytes, read as a pointer.
pointer-Settles :
    (t : LineTable) (n : ℕ) (b : Bytes) → Settles {A = ℕ} Any (slice_from n b >>= λ c. uintptr t c)
pointer-Settles t n b =
    bind-Settles Any Any (slice_from n b) _ (slice_from-Settles n b) (λ c _. uintptr-Settles t c)

pub field_at-Settles : (t : LineTable) (f : Bytes) (n : ℕ) → Settles {A = ℕ} Any (field_at t f n)
field_at-Settles t f n =
    bind-Settles Any Any (slice_from n f) _ (slice_from-Settles n f) (λ b _. present-Settles _)

covers-Settles : (t : LineTable) (fm : Bytes) (pc : ℕ) → Settles {A = Bool} Any (covers t fm pc)
unfolding covers
covers-Settles t fm pc = bind-Settles Any Any (uintptr t fm) _ (uintptr-Settles t fm) (λ low _.
    if-cases (Settles {A = Bool} Any) (ltb pc low) tt (
      bind-Settles Any Any (slice_from (2 * t.ptrsize) fm) _ (slice_from-Settles (2 * t.ptrsize) fm)
        (λ b _. bind-Settles Any Any (uintptr t b) _ (uintptr-Settles t b) (λ high _. tt))))

func_data-Settles : (t : LineTable) (fm : Bytes) → Settles {A = Bytes} Any (func_data t fm)
unfolding func_data
func_data-Settles t fm =
    bind-Settles Any Any (slice_from t.ptrsize fm) _ (slice_from-Settles t.ptrsize fm) (λ b _.
      bind-Settles Any Any (uintptr t b) _ (uintptr-Settles t b)
        (λ off _. slice_from-Settles off t.content))

find_loop-Settles :
    (t : LineTable) (pc fuel : ℕ) (f : Bytes) (nf : ℕ)
    → nf < fuel
    → Settles {A = Option Bytes} Any (find_loop t pc fuel f nf)
unfolding find_loop
find_loop-Settles t pc zero f nf h = absurd (omega arith)
find_loop-Settles t pc (suc fuel) f nf h = elim (Bool-cases (nf == 0)) [
  | inl none_left ↦ rw none_left tt
  | inr some_left ↦
      let fewer : nf / 2 < fuel = ground arith in
      let fewer' : nf - (nf / 2 + 1) < fuel = ground arith in
      let at_m = u32 (2 * t.ptrsize * (nf / 2)) in
      let behind_m = u32 ((nf / 2 + 1) * 2 * t.ptrsize) in
      rw some_left (
        bind-Settles Any Any (slice_from at_m f) _ (slice_from-Settles at_m f) (λ fm _.
          bind-Settles Any Any (covers t fm pc) _ (covers-Settles t fm pc) (λ here _.
            if-cases (Settles {A = Option Bytes} Any) here
              (bind-Settles Any Any (func_data t fm) _ (func_data-Settles t fm) (λ d _. tt))
              (bind-Settles Any Any (uintptr t fm) _ (uintptr-Settles t fm) (λ low _.
                if-cases (Settles {A = Option Bytes} Any) (ltb pc low)
                  (find_loop-Settles t pc fuel f (nf / 2) fewer)
                  (bind-Settles Any Any (slice_from behind_m f) _ (slice_from-Settles behind_m f)
                    (λ f' _. find_loop-Settles t pc fuel f' (nf - (nf / 2 + 1)) fewer')))))))
]

find_func-Settles : (t : LineTable) (pc : ℕ) → Settles {A = Option Bytes} Any (find_func t pc)
unfolding find_func
find_func-Settles t pc =
    bind-Settles Any Any (uintptr t t.functab) _ (uintptr-Settles t t.functab) (λ first _.
      if-cases P (ltb pc first) tt (
        if-cases P (ltb (length t.functab) t.ptrsize) tt (
          bind-Settles Any Any (uintptr t last) _ (uintptr-Settles t last) (λ end _.
            if-cases P (leb end pc) tt
              (find_loop-Settles t pc (suc t.nfunctab) t.functab t.nfunctab (omega arith))))))
  where
    P : Result (Option Bytes) → Type 0
    P = Settles Any

    last : Bytes
    last = drop (length t.functab - t.ptrsize) t.functab

-- A varint takes a byte at least.
varint_from-Settles :
    (v shift : ℕ) (p : Bytes)
    → Settles {A = ℕ × Bytes} (λ r. length r.1 < length p) (varint_from v shift p)
unfolding varint_from
varint_from-Settles v shift [] = tt
varint_from-Settles v shift (b ∷ p) =
    let v' = bit_or v (u32 (bit_and b 0x7F * 2 ^ shift)) in
    if-cases (Settles {A = ℕ × Bytes} (λ r. length r.1 < suc (length p))) (bit_and b 0x80 == 0)
      (omega arith)
      (Settles-weaken (λ r. length r.1 < length p) (λ r. length r.1 < suc (length p))
        (varint_from v' (u32 (shift + 7)) p) (λ r l. omega arith)
        (varint_from-Settles v' (u32 (shift + 7)) p))

pub step-Settles :
    (t : LineTable) (s : PcValue) (first : Bool)
    → Settles {A = Bool × PcValue} (λ r. length r.1.p < length s.p) (step t s first)
unfolding step readvarint
step-Settles t s first =
    bind-Settles (λ u. length u.1 < length s.p) (λ r. length r.1.p < length s.p) (readvarint s.p) _
      (varint_from-Settles 0 0 s.p)
      (λ u l.
        if-cases (Settles {A = Bool × PcValue} (λ r. length r.1.p < length s.p))
          (u.0 == 0 && not first) l
          (bind-Settles (λ d. length d.1 < length u.1) (λ r. length r.1.p < length s.p)
            (readvarint u.1) _ (varint_from-Settles 0 0 u.1) (λ d l'. omega arith)))

pcvalue_loop-Settles :
    (t : LineTable) (entry targetpc fuel : ℕ) (s : PcValue)
    → length s.p < fuel
    → Settles {A = ℕ} Any (pcvalue_loop t entry targetpc fuel s)
unfolding pcvalue_loop
pcvalue_loop-Settles t entry targetpc zero s h = absurd (omega arith)
pcvalue_loop-Settles t entry targetpc (suc fuel) s h =
    bind-Settles (λ r. length r.1.p < length s.p) Any (step t s (s.pc == entry)) _
      (step-Settles t s (s.pc == entry))
      (λ r l. if-cases (Settles {A = ℕ} Any) (not r.0) tt (
        if-cases (Settles {A = ℕ} Any) (ltb targetpc r.1.pc) tt
          (pcvalue_loop-Settles t entry targetpc fuel r.1 (omega arith))))

pcvalue-Settles :
    (t : LineTable) (off entry targetpc : ℕ) → Settles {A = ℕ} Any (pcvalue t off entry targetpc)
unfolding pcvalue
pcvalue-Settles t off entry targetpc = if-cases (Settles {A = ℕ} Any) (off == 0) tt (
    bind-Settles Any Any (slice_from off t.content) _ (slice_from-Settles off t.content) (λ p _.
      pcvalue_loop-Settles t entry targetpc (suc (length p))
        (record { p = p; pc = entry; val = minus_one }) (omega arith)))

pub until_zero-Settles : (b : Bytes) → Settles {A = Bytes} Any (until_zero b)
unfolding until_zero
until_zero-Settles [] = tt
until_zero-Settles (b ∷ bs) =
    if-cases (Settles {A = Bytes} Any) (b == 0) tt
      (bind-Settles Any Any (until_zero bs) _ (until_zero-Settles bs) (λ s _. tt))

file_name-Settles : (t : LineTable) (fno : ℕ) → Settles {A = Bytes} Any (file_name t fno)
unfolding file_name string_at
file_name-Settles t fno = if-cases (Settles {A = Bytes} Any) (leb (2 ^ 31) (u32 (4 * fno))) tt (
    bind-Settles Any Any (field_at t t.filetab (u32 (4 * fno))) _
      (field_at-Settles t t.filetab (u32 (4 * fno)))
      (λ off _.
        bind-Settles Any Any (slice_from off t.content) _ (slice_from-Settles off t.content)
          (λ b _. until_zero-Settles b)))

-- Behind recover, a call that settles has a value.
pub recovered-value :
    {A : Type 0} (a : A) (r : Result A) → Settles {A = A} Any r → (b : A) × (recovered a r ≡ ok b)
recovered-value a (ok b) h = (b, refl)
recovered-value a (err e) h = absurd h
recovered-value a panic h = (a, refl)
recovered-value a stuck h = absurd h

-- On every table, PC and offset go12PCToVal gives a result: its loops end, and a panic is recovered
-- from.
pub go12_pc_to_val_total :
    (t : LineTable) (pc f_offset : ℕ) → (v : ℕ) × (go12_pc_to_val t pc f_offset ≡ ok v)
unfolding go12_pc_to_val
go12_pc_to_val_total t pc f_offset =
    recovered-value no_value _
      (bind-Settles Any Any (find_func t pc) _ (find_func-Settles t pc) (λ o _. looked_up o))
  where
    looked_up :
        (o : Option Bytes)
        → Settles {A = ℕ} Any (
            found o no_value (λ f. uintptr t f >>= λ entry.
            (field_at t f f_offset >>= λ linetab.
            (pcvalue t linetab entry pc >>= λ v. ok (sign_extend32 v)))))
    looked_up none = tt
    looked_up (some f) = bind-Settles Any Any (uintptr t f) _ (uintptr-Settles t f) (λ entry _.
        bind-Settles Any Any (field_at t f f_offset) _ (field_at-Settles t f f_offset) (λ linetab _.
          bind-Settles Any Any (pcvalue t linetab entry pc) _ (pcvalue-Settles t linetab entry pc)
            (λ v _. tt)))

-- On every table and every PC go12PCToFile gives a result: its loops end, and a panic is recovered
-- from.
pub go12_pc_to_file_total :
    (t : LineTable) (pc : ℕ) → (file : Bytes) × (go12_pc_to_file t pc ≡ ok file)
unfolding go12_pc_to_file
go12_pc_to_file_total t pc =
    recovered-value [] _
      (bind-Settles Any Any (find_func t pc) _ (find_func-Settles t pc) (λ o _. looked_up o))
  where
    looked_up :
        (o : Option Bytes)
        → Settles {A = Bytes} Any (
            found o [] (λ f. uintptr t f >>= λ entry.
            (field_at t f (t.ptrsize + 16) >>= λ filetab.
            (pcvalue t filetab entry pc >>= λ fno.
            (if fno == 0 || leb (2 ^ 31) fno then ok [] else file_name t fno)))))
    looked_up none = tt
    looked_up (some f) = bind-Settles Any Any (uintptr t f) _ (uintptr-Settles t f) (λ entry _.
        bind-Settles Any Any (field_at t f (t.ptrsize + 16)) _
          (field_at-Settles t f (t.ptrsize + 16))
          (λ filetab _.
            bind-Settles Any Any (pcvalue t filetab entry pc) _ (pcvalue-Settles t filetab entry pc)
              (λ fno _.
                if-cases (Settles {A = Bytes} Any) (fno == 0 || leb (2 ^ 31) fno) tt
                  (file_name-Settles t fno))))
