-- ===== src/Dwarf/Line/Total.antt =====
-- The line machine and PCToLine as a whole: what they come to, loops and panics considered.
use debug.Common.{
  ltb, ◌==◌, Bool-cases, if-cases, length, length-drop, Bytes, ℕ, zero, suc, ◌≤◌, ◌<◌, ◌≡◌, ap, ◌≢◌,
  ◌⊎◌, inl, inr, Bool, false, Option, none, some, List, [], ◌∷◌, ◌++◌, arith,
}
use debug.Common.Result.{
  Error, errorf, Result, ok, err, panic, stuck, ◌>>=◌, Ensures, Answers, bind-Ensures, bind-Answers,
  Answers-cases, Answers-weaken, Ensures-ne-stuck, Any,
}
use debug.Dwarf.Buf.{Buf, make_buf, split_nul, read_string, string, uint32, uint}
use debug.Dwarf.Buf.Scans.{Splits, split_nul-Splits}
use debug.Dwarf.Buf.Shrinks.{left, uint-shrinks, string-shrinks}
use debug.Dwarf.Data.{CompUnit, unit_format, Data}
use debug.Dwarf.Line.Machine.{eval_compilation_unit}
use debug.Dwarf.Line.Ends.{Excuses, eval_compilation_unit-Ensures}
use debug.Dwarf.Line.Search.{PcSearchState, start_search, find_pc, line_found, pc_to_line}
use debug.Dwarf.Line.{
  LineFile, LineHeader, LineMachine, include_loop, file_loop, header_fields, parse_header,
}

string_takes : (b : Buf) → (length (string b).0 == 0) ≡ false → left (string b).1 < left b
unfolding string
string_takes b h = go (split_nul b.unread) (split_nul-Splits b.unread) h
  where
    go :
        (o : Option (Bytes × Bytes))
        → Splits b.unread o
        → (length (read_string b o).0 == 0) ≡ false
        → left (read_string b o).1 < left b
    go none k e = absurd (ground arith)
    go (some p) k e = omega (arith, ap length k.0, length-drop (suc (length p.0)) b.unread)

include_loop-Answers :
    (fuel : ℕ) (b : Buf) (acc : List Bytes)
    → left b < fuel
    → Answers (λ (r : List Bytes × Buf). left r.1 ≤ left b) (include_loop fuel b acc)
unfolding include_loop
include_loop-Answers zero b acc h = absurd (omega arith)
include_loop-Answers (suc fuel) b acc h = elim (Bool-cases (length (string b).0 == 0)) [
  | inl end ↦ rw end (string-shrinks b)
  | inr more ↦
      let taken : left (string b).1 < left b = string_takes b more in
      rw more (
        Answers-weaken (λ (r : List Bytes × Buf). left r.1 ≤ left (string b).1)
          (λ (r : List Bytes × Buf). left r.1 ≤ left b)
          (include_loop fuel (string b).1 (acc ++ (string b).0 ∷ [])) (λ r l. omega arith)
          (include_loop-Answers fuel (string b).1 (acc ++ (string b).0 ∷ []) (omega arith)))
]

file_loop-Answers :
    (fuel : ℕ) (b : Buf) (acc : List LineFile)
    → left b < fuel
    → Answers {A = List LineFile × Buf} Any (file_loop fuel b acc)
unfolding file_loop
file_loop-Answers zero b acc h = absurd (omega arith)
file_loop-Answers (suc fuel) b acc h = elim (Bool-cases (length (string b).0 == 0)) [
  | inl end ↦ rw end tt
  | inr more ↦
      let b1 = (string b).1 in
      let taken : left (string b).1 < left b = string_takes b more in
      let b4 : Buf = (uint (uint (uint b1).1).1).1 in
      rw more (
        file_loop-Answers fuel b4 _ (
          omega (
            arith,
            taken,
            uint-shrinks b1,
            uint-shrinks (uint b1).1,
            uint-shrinks (uint (uint b1).1).1,
          )))
]

-- Parsing a header ends, with a header or an error, and does not panic.
pub parse_header-Answers : (b : Buf) → Answers {A = LineHeader × Buf} Any (parse_header b)
unfolding parse_header
parse_header-Answers b =
    if-cases (Answers Any) (ltb (left (uint32 b).1) (uint32 b).0) tt
      (behind (header_fields (uint32 b).0 (uint32 b).1))
  where
    behind :
        (h : LineHeader × Buf)
        → Answers {A = LineHeader × Buf} Any (
            include_loop (suc (left h.1)) h.1 ([] ∷ []) >>= λ i.
            (file_loop
                (suc (left i.1))
                i.1
                (record { name = []; index = 0; time = 0; size = 0 } ∷ [])
              >>= λ f. ok (record (h.0) { includes = i.0; files = f.0 }, f.1)))
    behind h =
        bind-Answers (λ r. left r.1 ≤ left h.1) Any (include_loop (suc (left h.1)) h.1 ([] ∷ [])) _
          (include_loop-Answers (suc (left h.1)) h.1 ([] ∷ []) (omega arith))
          (λ i _.
            bind-Answers Any Any
              (file_loop (suc (left i.1)) i.1
                (record { name = []; index = 0; time = 0; size = 0 } ∷ []))
              _ (file_loop-Answers (suc (left i.1)) i.1 _ (omega arith)) (λ f _'. tt))

-- With a line range and an operation count other than zero, and no standard opcode past the last
-- known one, the line machine answers on every program, whatever the callback does: its loop ends,
-- and it does not panic.
pub eval_compilation_unit_total :
    {S : Type 0} (f : LineMachine → S → S × Bool) (h : LineHeader) (b : Buf) (s : S)
    → h.line_range ≢ 0
    → h.max_ops_per_instruction ≢ 0
    → h.opcode_base ≤ 13
    → ((s' : S) × (eval_compilation_unit f h b s ≡ ok s'))
      ⊎ ((e : Error) × (eval_compilation_unit f h b s ≡ err e))
eval_compilation_unit_total f h b s range ops known =
    elim (Answers-cases Any (eval_compilation_unit f h b s)
      (eval_compilation_unit-Ensures f ⊥ h excuses b s)) [
        | inl (s', e, _) ↦ inl (s', e)
        | inr failed ↦ inr failed
      ]
  where
    excuses : Excuses h ⊥
    excuses = record { no_range = range; no_ops = ops; unknown_opcode = λ p. absurd (omega arith) }

allow_panic : {A : Type 0} (r : Result A) → Answers {A = A} Any r → Ensures {A = A} (Unit {0}) Any r
allow_panic (ok a) h = tt
allow_panic (err e) h = tt
allow_panic panic h = tt
allow_panic stuck h = absurd h

line_found-Ensures :
    (h : LineHeader) (st : PcSearchState) → Ensures (Unit {0}) Any (line_found h st)
unfolding line_found
line_found-Ensures h st = ground arith

-- On every line section and every PC PCToLine returns or panics; it never loops.
pub pc_to_line-ne-stuck : (d : Data) (pc : ℕ) → pc_to_line d pc ≢ stuck
unfolding pc_to_line
pc_to_line-ne-stuck d pc =
    Ensures-ne-stuck (Unit {0}) Any (pc_to_line d pc)
      (if-cases (Ensures (Unit {0}) Any) (length d.line == 0) tt (search d.units))
  where
    search :
        (us : List CompUnit)
        → Ensures (Unit {0}) Any (elim us [
          | [] ↦ err (errorf "no info section" [])
          | u ∷ us' ↦ parse_header (make_buf d.order (unit_format u) "line" 0 d.line) >>= λ h.
              (eval_compilation_unit find_pc h.0 h.1 (start_search pc) >>= λ st. line_found h.0 st)
        ])
    search [] = tt
    search (u ∷ us) =
        bind-Ensures (Unit {0}) Any Any _ _
          (allow_panic _ (parse_header-Answers (make_buf d.order (unit_format u) "line" 0 d.line)))
          (λ h _.
            bind-Ensures (Unit {0}) Any Any _ _
              (eval_compilation_unit-Ensures find_pc (Unit {0}) h.0
                (record { no_range = λ e. tt; no_ops = λ e. tt; unknown_opcode = λ l. tt }) h.1
                (start_search pc))
              (λ st _'. line_found-Ensures h.0 st))
