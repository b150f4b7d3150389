-- ===== src/Server/Goroutines.antt =====
-- server/server.go: the request for the goroutines. Fuel is that of the walks over stacks, of types
-- and of entries; what a read of a C string that fails leaves in the buffer is a parameter.
use debug.Common.{
  ◌==◌, if◌then◌else◌, u64, Bytes, ℕ, zero, suc, ◌+◌, ◌*◌, ◌||◌, Option, none, some, List, [], ◌∷◌,
  ◌++◌, String,
}
use debug.Dwarf.Reader.{reader}
use debug.Dwarf.Symbol.{lookup_entry, entry_location, entry_type_offset, entry_for_pc}
use debug.Common.Result.{Error, errorf, Result, ok, err, panic, stuck}
use debug.Common.Effect.{Effect, ◌>=>◌}
use debug.Common.Text.{codes}
use debug.Dwarf.Types.{StructInfo, Shape, slice_type, TypeHeap, shape_of, common_of}
use debug.Dwarf.Types.Store.{TypeStore, name_attr}
use debug.Dwarf.Types.Units.{TypeSigs}
use debug.Dwarf.Types.Reading.{type_at}
use debug.Dwarf.Data.{Data}
use debug.Server.Kernel.{Kernel}
use debug.Server.Breakpoints.{Server}
use debug.Server.Frames.{StackFrame, walk_stack}
use debug.Server.Typedefs.{follow_typedefs}
use debug.Server.Peek.{
  in_error_of, is_uint, is_int, struct_info, peek_ptr, peek_uint, peek_ptr_struct_field,
  peek_uint_or_int_struct_field, peek_uint_struct_field, peek_int_struct_field, peek_slice,
  peek_string_struct_field, peek_c_string,
}
use debug.Server.Statuses.{
  Goroutine, status_of, is_invalid, is_running, Sched, goroutine_stack_init,
}

-- goroutineStackFrameCount
abbrev pub goroutine_stack_frame_count : ℕ
goroutine_stack_frame_count = 10

-- `if v, err := …; err == nil`
abbrev pub attempt {ℓ κ} : {S : Type ℓ} {A : Type κ} → S × Result A → S × Result (Option A)
attempt (s, ok a) = (s, ok (some a))
attempt (s, err e) = (s, ok none)
attempt (s, panic) = (s, panic)
attempt (s, stuck) = (s, stuck)

abbrev pub slice_shape : Option Shape → Option (StructInfo × Option ℕ)
slice_shape (some (slice_type i elem)) = some (i, elem)
slice_shape _ = none

abbrev pub or_error {ℓ} : {A : Type ℓ} → String → Option A → Result A
or_error what none = err (errorf what [])
or_error what (some a) = ok a

-- `if text != "" { gr.StatusString = text }`
abbrev pub or_text_of : Bytes → Bytes → Bytes
or_text_of [] old = old
or_text_of (c ∷ cs) old = c ∷ cs

module _ {W : Type 0} (k : Kernel W) (s : Server) (d : Data) (sigs : TypeSigs) (fuel entries : ℕ)
    (left : Error → Bytes) where
  -- The types, the target, and what goroutineStackInit has left, once it has run.
  abbrev pub GoState : Type 0
  GoState = (TypeStore × W) × Option (Result Sched)

  abbrev pub reads : {A : Type 0} → (TypeHeap → Effect W A) → Effect GoState A
  reads f ((t, w), x) = let (w', r) = f t.heap w in (((t, w'), x), r)

  abbrev pub finds : {A : Type 0} → (TypeHeap → Result A) → Effect GoState A
  finds f ((t, w), x) = (((t, w), x), f t.heap)

  unfoldable pub read_type_at : ℕ → Effect GoState ℕ
  unfolding type_at
  read_type_at off ((t, w), x) =
      let (t', r) = type_at fuel entries d sigs off t in (((t', w), x), r)

  -- The struct runtime.g.
  unfoldable pub g_type : Effect GoState StructInfo
  unfolding lookup_entry read_type_at follow_typedefs
  g_type st = (st, lookup_entry entries d (codes "runtime.g")) >=> λ e st1.
      read_type_at e.offset st1 >=> λ t st2.
      finds (λ h. follow_typedefs h (some t)) st2 >=> λ u st3.
      finds (λ h. or_error "runtime.g is not a struct" (struct_info (shape_of h u))) st3

  -- The slice runtime.allgs: its address and its length.
  unfoldable pub allgs : Effect GoState (ℕ × ℕ)
  unfolding lookup_entry entry_location entry_type_offset read_type_at follow_typedefs peek_slice
  allgs st = (st, lookup_entry entries d (codes "runtime.allgs")) >=> λ e st1.
      (st1, entry_location d e) >=> λ addr st2. (st2, entry_type_offset e) >=> λ off st3.
      read_type_at off st3 >=> λ t st4. finds (λ h. follow_typedefs h (some t)) st4 >=> λ u st5.
      finds (λ h. or_error "" (slice_shape (shape_of h u))) st5 >=> λ i st6.
      reads (λ h. peek_slice k s h i.0 i.1 addr) st6 >=> λ x st7. (st7, ok (x.address, x.length))

  -- runtime.allglen, at an address: where its type is no integer, one of 4 bytes, or of 8 bytes.
  unfoldable pub allglen_at : ℕ → ℕ → Effect GoState ℕ
  unfolding follow_typedefs peek_uint
  allglen_at t addr st = finds (λ h. follow_typedefs h (some t)) st >=> λ u st1.
      finds (λ h. ok (shape_of h u)) st1 >=> λ shape.
      if is_uint shape || is_int shape
      then (λ st2. finds (λ h. common_of h (some t)) st2 >=> λ c st3.
          in_error_of "reading allglen: %v" [] (reads (λ h. peek_uint k s h addr c.byte_size) st3))
      else (λ st2.
          in_error_of "reading allglen: %v" [] (reads (λ h. peek_uint k s h addr 4) st2)
          >=> λ n st3.
              if n == 0
              then in_error_of "reading allglen: %v" [] (reads (λ h. peek_uint k s h addr 8) st3)
              else (st3, ok n))

  -- runtime.allg and runtime.allglen.
  unfoldable pub allg : Effect GoState (ℕ × ℕ)
  unfolding lookup_entry entry_location entry_type_offset read_type_at peek_ptr allglen_at
  allg st = (st, lookup_entry entries d (codes "runtime.allg")) >=> λ e st1.
      (st1, entry_location d e) >=> λ addr st2.
      in_error_of "reading allg: %v" [] (reads (λ h. peek_ptr k s h addr) st2) >=> λ ptr st3.
      (st3, lookup_entry entries d (codes "runtime.allglen")) >=> λ e' st4.
      (st4, entry_type_offset e') >=> λ off st5. read_type_at off st5 >=> λ t st6.
      (st6, entry_location d e') >=> λ len_addr st7.
      allglen_at t len_addr st7 >=> λ n st8. (st8, ok (ptr, n))

  -- The field atomicstatus of a g, or its field status.
  unfoldable pub read_status : StructInfo → ℕ → Effect GoState ℕ
  unfolding peek_uint_struct_field peek_uint_or_int_struct_field
  read_status g a st =
      attempt (reads (λ h. peek_uint_struct_field k s h g a (codes "atomicstatus")) st) >=> λ o st1.
      elim o [
        | some x ↦ (st1, ok x)
        | none ↦ reads (λ h. peek_uint_or_int_struct_field k s h g a (codes "status")) st1
      ]

  -- The text of a waiting goroutine's status, from waitreason: a Go string, or a C string.
  unfoldable pub wait_reason : StructInfo → ℕ → Bytes → Effect GoState Bytes
  unfolding peek_string_struct_field peek_ptr_struct_field peek_c_string
  wait_reason g a old st =
      attempt (reads (λ h. peek_string_struct_field k s h g a (codes "waitreason") 80) st)
      >=> λ o st1. elim o [
        | some x ↦ (st1, ok (or_text_of x old))
        | none ↦
            attempt (reads (λ h. peek_ptr_struct_field k s h g a (codes "waitreason")) st1)
            >=> λ p st2. elim p [
              | none ↦ (st2, ok old)
              | some ptr ↦ reads (λ h. peek_c_string k s h left ptr 80) st2 >=> λ x st3.
                  (st3, ok (or_text_of x old))
            ]
      ]

  -- The function functionName: no name where no function has the PC.
  unfoldable pub function_name : ℕ → Result Bytes
  unfolding entry_for_pc
  function_name pc = elim (entry_for_pc entries d pc) [
    | ok e ↦ ok (name_attr e.0)
    | err e ↦ ok []
    | panic ↦ panic
    | stuck ↦ stuck
  ]

  -- The name of the function of the PC in a field of a g.
  unfoldable pub function_of : StructInfo → ℕ → Bytes → Effect GoState Bytes
  unfolding peek_uint_struct_field function_name
  function_of g a name st =
      attempt (reads (λ h. peek_uint_struct_field k s h g a name) st) >=> λ o st1.
      (st1, elim o [ none ↦ ok [] | some pc ↦ function_name pc ])

  -- goroutineStack, whose error is dropped: the frames of a g.
  unfoldable pub goroutine_stack : Sched → ℕ → Effect GoState (List StackFrame)
  unfolding peek_uint walk_stack
  goroutine_stack x a st =
      reads (λ h. peek_uint k s h (u64 (a + x.pc_offset)) x.pc_byte_size) st >=> λ pc st1.
      reads (λ h. peek_uint k s h (u64 (a + x.sp_offset)) x.sp_byte_size) st1 >=> λ sp st2.
      reads (λ h. walk_stack k entries d s goroutine_stack_frame_count (reader d) pc sp) st2
      >=> λ fs st3. (st3, ok fs.0)

  abbrev pub frames_or_none :
      GoState × Result (Option (List StackFrame)) → GoState × Result (List StackFrame)
  frames_or_none r = r >=> λ o st. (st, ok (elim o [ none ↦ [] | some fs ↦ fs ]))

  unfoldable pub stack_of : ℕ → Effect GoState (List StackFrame)
  unfolding goroutine_stack
  stack_of a (tw, none) = ((tw, none), panic)
  stack_of a (tw, some r) =
      frames_or_none (attempt (((tw, some r), r) >=> λ sched. goroutine_stack sched a))

  -- A goroutine that is not dead, with its status.
  unfoldable pub describe : StructInfo → ℕ → ℕ → Effect GoState Goroutine
  unfolding status_of wait_reason peek_int_struct_field function_of stack_of
  describe g a status st =
      let (kind, named) = status_of status in
      if is_invalid kind
      then (st, err (errorf "unexpected goroutine status 0x%x" (status ∷ [])))
      else ((if status == 4 || status == 0x1004 then wait_reason g a named st else (st, ok named))
          >=> λ reason st0.
              reads (λ h. peek_int_struct_field k s h g a (codes "goid")) st0 >=> λ id st0'.
              function_of g a (codes "startpc") st0' >=> λ function st0''.
              function_of g a (codes "gopc") st0'' >=> λ caller st1.
              (if is_running kind then (st1, ok []) else stack_of a st1) >=> λ frames st2. (
                st2,
                ok (record {
                  id = id;
                  status = kind;
                  status_string = reason;
                  function = function;
                  caller = caller;
                  stack_frames = frames;
                }),
              ))

  -- The loop over allg from number i on, with `rounds` left, and the goroutines so far.
  unfoldable pub goroutines_loop :
      StructInfo → ℕ → ℕ → ℕ → List Goroutine → Effect GoState (List Goroutine)
  unfolding peek_ptr read_status describe
  goroutines_loop g ptr zero i gs st = (st, ok gs)
  goroutines_loop g ptr (suc rounds) i gs st =
      reads (λ h. peek_ptr k s h (u64 (ptr + i * s.arch.pointer_size))) st >=> λ a st0.
      read_status g a st0 >=> λ status st1.
      let dead = goroutines_loop g ptr rounds (i + 1) gs st1 in
      let alive = describe g a status st1 >=> λ x st2.
      goroutines_loop g ptr rounds (i + 1) (gs ++ x ∷ []) st2 in
      if status == 6 then dead else alive

  -- `s.goroutineStackOnce.Do(…)`
  abbrev pub init_once : StructInfo → GoState → GoState
  init_once g ((t, w), some x) = ((t, w), some x)
  init_once g ((t, w), none) = ((t, w), some (goroutine_stack_init t.heap g))

  abbrev pub or_allg : Option (ℕ × ℕ) → Effect GoState (ℕ × ℕ)
  or_allg (some x) st = (st, ok x)
  or_allg none st = allg st

  unfoldable pub handle_goroutines : Effect GoState (List Goroutine)
  unfolding g_type allgs allg goroutine_stack_init goroutines_loop
  handle_goroutines st = g_type st >=> λ g st1. attempt (allgs st1) >=> λ o st2.
      or_allg o st2 >=> λ x st3. goroutines_loop g x.0 x.1 0 [] (init_once g st3)
