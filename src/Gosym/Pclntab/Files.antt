-- ===== src/Gosym/Pclntab/Files.antt =====
-- gosym/pclntab.go: the loops of go12LineToPC over files, functions and lines.
use debug.Common.{
  ltb, leb, ◌==◌, if◌then◌else◌, if-cases, length, u32, Bytes, ℕ, zero, suc, ◌+◌, ◌-◌, ◌*◌, ◌<◌,
  ◌≡◌, not, ◌&&◌, ◌||◌, Option, none, some, List, [], ◌∷◌, arith,
}
use debug.Common.Result.{Result, ok, ◌>>=◌, Any, Settles, bind-Settles}
use debug.Gosym.Pclntab.Values.{
  PcValue, step, minus_one, until_zero, string_at, LineScan, line_at, past, line_loop, file_scan,
  find_file_line,
}
use debug.Gosym.Pclntab.Lookup.{
  field_at, file_map_loop, init_file_map, file_number, line_to_pc_loop, go12_line_to_pc,
}
use debug.Gosym.Pclntab.Recover.{
  slice_from-Settles, uintptr-Settles, field_at-Settles, step-Settles, until_zero-Settles,
  recovered-value,
}
use debug.Gosym.Pclntab.{LineTable, slice_from, uintptr}

module _ (t : LineTable) (entry : ℕ) where
  line_loop-Settles :
      (line file_start_pc file_pc fuel : ℕ) (l : PcValue) (line_start_pc : ℕ)
      → length l.p < fuel
      → Settles {A = LineScan} Any
          (line_loop t entry line file_start_pc file_pc fuel l line_start_pc)
  unfolding line_loop
  line_loop-Settles line file_start_pc file_pc zero l line_start_pc h = absurd (omega arith)
  line_loop-Settles line file_start_pc file_pc (suc fuel) l line_start_pc h =
      let P : Result LineScan → Type 0 = Settles Any in
      if-cases P (ltb l.pc file_pc)
        (bind-Settles (λ r. length r.1.p < length l.p) Any (step t l (l.pc == entry)) _
          (step-Settles t l (l.pc == entry))
          (λ r shorter. if-cases P (not r.0) tt (
            if-cases P (r.1.val == line && leb file_start_pc line_start_pc) tt (
              if-cases P (r.1.val == line && ltb file_start_pc r.1.pc) tt
                (line_loop-Settles line file_start_pc file_pc fuel r.1 r.1.pc (omega arith))))))
        tt

  file_scan-Settles :
      (filenum line fuel : ℕ) (f l : PcValue) (file_start_pc : ℕ)
      → length f.p < fuel
      → Settles {A = ℕ} Any (file_scan t entry filenum line fuel f l file_start_pc)
  unfolding file_scan
  file_scan-Settles filenum line zero f l file_start_pc h = absurd (omega arith)
  file_scan-Settles filenum line (suc fuel) f l file_start_pc h =
      let P : Result ℕ → Type 0 = Settles Any in
      bind-Settles (λ r. length r.1.p < length f.p) Any (step t f (f.pc == entry)) _
        (step-Settles t f (f.pc == entry))
        (λ r shorter. if-cases P (not r.0) tt (
          if-cases P (r.1.val == filenum && ltb file_start_pc r.1.pc)
            (bind-Settles Any Any
              (line_loop t entry line file_start_pc r.1.pc (suc (length l.p)) l l.pc) _
              (line_loop-Settles line file_start_pc r.1.pc (suc (length l.p)) l l.pc (omega arith))
              (λ x _.
                scanned r.1 fuel
                  (λ l'. file_scan-Settles filenum line fuel r.1 l' r.1.pc (omega arith)) x))
            (file_scan-Settles filenum line fuel r.1 l r.1.pc (omega arith))))
    where
      scanned :
          (f' : PcValue) (left : ℕ)
          → ((l' : PcValue) → Settles {A = ℕ} Any (file_scan t entry filenum line left f' l' f'.pc))
          → (x : LineScan)
          → Settles {A = ℕ} Any (elim x [
            | line_at pc ↦ ok pc
            | past l' ↦ file_scan t entry filenum line left f' l' f'.pc
          ])
      scanned f' left rest (line_at pc) = tt
      scanned f' left rest (past l') = rest l'

  find_file_line-Settles :
      (filetab linetab filenum line : ℕ)
      → Settles {A = ℕ} Any (find_file_line t entry filetab linetab filenum line)
  unfolding find_file_line
  find_file_line-Settles filetab linetab filenum line =
      if-cases (Settles {A = ℕ} Any) (filetab == 0 || linetab == 0) tt (
        bind-Settles Any Any (slice_from filetab t.content) _ (slice_from-Settles filetab t.content)
          (λ fp _.
            bind-Settles Any Any (slice_from linetab t.content) _
              (slice_from-Settles linetab t.content)
              (λ fl _.
                file_scan-Settles filenum line (suc (length fp))
                  (record { p = fp; pc = entry; val = minus_one })
                  (record { p = fl; pc = entry; val = minus_one }) entry (omega arith))))

-- The scan of one function, and what comes behind it.
in_function-Settles :
    (t : LineTable) (filenum line : ℕ) (f : Bytes) (entry : ℕ) (rest : Result ℕ)
    → Settles {A = ℕ} Any rest
    → Settles {A = ℕ} Any (
        field_at t f (t.ptrsize + 16) >>= λ filetab.
        (field_at t f (t.ptrsize + 20) >>= λ linetab.
        (find_file_line t entry filetab linetab filenum (u32 line) >>= λ pc.
        (if not (pc == 0) then ok pc else rest))))
in_function-Settles t filenum line f entry rest h =
    bind-Settles Any Any (field_at t f (t.ptrsize + 16)) _ (field_at-Settles t f (t.ptrsize + 16))
      (λ filetab _.
        bind-Settles Any Any (field_at t f (t.ptrsize + 20)) _
          (field_at-Settles t f (t.ptrsize + 20))
          (λ linetab _.
            bind-Settles Any Any (find_file_line t entry filetab linetab filenum (u32 line)) _
              (find_file_line-Settles t entry filetab linetab filenum (u32 line))
              (λ pc _. if-cases (Settles {A = ℕ} Any) (not (pc == 0)) tt h)))

line_to_pc_loop-Settles :
    (t : LineTable) (filenum line n i : ℕ)
    → Settles {A = ℕ} Any (line_to_pc_loop t filenum line n i)
unfolding line_to_pc_loop
line_to_pc_loop-Settles t filenum line zero i = tt
line_to_pc_loop-Settles t filenum line (suc n) i =
    let at_i = u32 (2 * t.ptrsize * i + t.ptrsize) in
    bind-Settles Any Any (slice_from at_i t.functab) _ (slice_from-Settles at_i t.functab) (λ b _.
      bind-Settles Any Any (uintptr t b) _ (uintptr-Settles t b) (λ off _.
        bind-Settles Any Any (slice_from off t.content) _ (slice_from-Settles off t.content) (λ f _.
          bind-Settles Any Any (uintptr t f) _ (uintptr-Settles t f) (λ entry _.
            in_function-Settles t filenum line f entry (line_to_pc_loop t filenum line n (i + 1))
              (line_to_pc_loop-Settles t filenum line n (i + 1))))))

file_map_loop-Settles :
    (t : LineTable) (n i : ℕ) (m : List (Bytes × ℕ))
    → Settles {A = List (Bytes × ℕ)} Any (file_map_loop t n i m)
unfolding file_map_loop string_at
file_map_loop-Settles t zero i m = tt
file_map_loop-Settles t (suc n) i m =
    bind-Settles Any Any (field_at t t.filetab (u32 (4 * i))) _
      (field_at-Settles t t.filetab (u32 (4 * i)))
      (λ off _.
        bind-Settles Any Any (slice_from off t.content >>= λ b. until_zero b) _
          (bind-Settles Any Any (slice_from off t.content) _ (slice_from-Settles off t.content)
            (λ b _. until_zero-Settles b))
          (λ s _. file_map_loop-Settles t n (i + 1) ((s, i) ∷ m)))

init_file_map-Settles : (t : LineTable) → Settles {A = LineTable} Any (init_file_map t)
unfolding init_file_map
init_file_map-Settles t = go t.file_map
  where
    go :
        (o : Option (List (Bytes × ℕ)))
        → Settles {A = LineTable} Any (elim o [
          | some m ↦ ok t
          | none ↦
              file_map_loop t (t.nfiletab - 1) 1 [] >>= λ m. ok (record t { file_map = some m })
        ])
    go (some m) = tt
    go none =
        bind-Settles Any Any (file_map_loop t (t.nfiletab - 1) 1 []) _
          (file_map_loop-Settles t (t.nfiletab - 1) 1 []) (λ m _. tt)

-- On every table, file and line go12LineToPC gives a result: its loops end, and a panic is recovered
-- from.
pub go12_line_to_pc_total :
    (t : LineTable) (file : Bytes) (line : ℕ) → (pc : ℕ) × (go12_line_to_pc t file line ≡ ok pc)
unfolding go12_line_to_pc
go12_line_to_pc_total t file line = recovered-value 0 _ (
    bind-Settles Any Any (init_file_map t) _ (init_file_map-Settles t)
      (λ t' _. numbered t' (elim t'.file_map [ none ↦ 0 | some m ↦ file_number m file ])))
  where
    numbered :
        (t' : LineTable) (filenum : ℕ)
        → Settles {A = ℕ} Any
            (if filenum == 0 then ok 0 else line_to_pc_loop t' filenum line t'.nfunctab 0)
    numbered t' filenum =
        if-cases (Settles {A = ℕ} Any) (filenum == 0) tt
          (line_to_pc_loop-Settles t' filenum line t'.nfunctab 0)
