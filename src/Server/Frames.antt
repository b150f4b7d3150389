-- ===== src/Server/Frames.antt =====
-- server/server.go: the stack frames of a stopped target. Loops over entries take fuel: one for each
-- entry, and one for the end. The server's DWARF data is an argument: New never leaves it nil.
pub mod Chain
mod Runs
pub mod Tops
use debug.Common.{
  ltb, ◌==◌, if◌then◌else◌, u64, Bytes, ℕ, zero, suc, ◌+◌, ◌-◌, ◌^◌, Bool, true, false, Option,
  none, some, List, [], ◌∷◌, ◌++◌,
}
use debug.Common.Result.{Error, errorf, Result, ok, err, panic, stuck, ◌>>=◌}
use debug.Common.Effect.{Effect, ◌>=>◌}
use debug.Arch.{uintptr}
use debug.Arch
use debug.Dwarf.Data.{Data}
use debug.Dwarf.Entry.{
  Value, nil_value, uint64_value, int64_value, offset_value, bytes_value, bool_value, string_value,
  Entry, entry_val,
}
use debug.Dwarf.Reader.{Reader, seek, failed, at_end, read, next}
use debug.Dwarf.Symbol.{attr_location, attr_name, tag_variable, entry_type_offset, entry_for_pc}
use debug.Dwarf.Line.Paths.{as_string}
use debug.Dwarf.Line.Search.{pc_to_line}
use debug.Dwarf.Frame.{pc_to_sp_offset}
use debug.Server.Kernel.{Kernel, ptrace_peek}
use debug.Server.Breakpoints.{Server, described}
use debug.Server.Location.{eval_location}

-- A LocalVar, and a Param, with its Var.
pub record LocalVar : Type 0 where
  pub name : Bytes
  pub type_id : ℕ
  pub address : ℕ

pub record StackFrame : Type 0 where
  pub pc : ℕ
  pub sp : ℕ
  pub file : Bytes
  pub line : ℕ
  pub function : Bytes
  pub function_start : ℕ
  pub params : List LocalVar
  pub vars : List LocalVar

-- TagFormalParameter
abbrev pub tag_formal_parameter : ℕ
tag_formal_parameter = 0x05

-- The location description of an entry, evaluated.
abbrev pub described_location : Value → Result ℕ
described_location nil_value = err (errorf "missing location description" [])
described_location (bytes_value (some bs)) = eval_location bs
described_location (bytes_value none) = eval_location []
described_location (uint64_value x) = err (errorf "unsupported location description" [])
described_location (int64_value x) = err (errorf "unsupported location description" [])
described_location (offset_value x) = err (errorf "unsupported location description" [])
described_location (bool_value x) = err (errorf "unsupported location description" [])
described_location (string_value x) = err (errorf "unsupported location description" [])

unfoldable pub parse_parameter_or_local : Entry → ℕ → Result LocalVar
unfolding entry_type_offset eval_location
parse_parameter_or_local e fp = entry_type_offset e >>= λ off.
    described_location (entry_val e.fields attr_location) >>= λ offset. ok (record {
      name = as_string (entry_val e.fields attr_name);
      type_id = off;
      address = u64 (fp + offset);
    })

-- `if v, err := …; err == nil { vars = append(vars, v) }`
abbrev pub append_parsed : List LocalVar → Result LocalVar → Result (List LocalVar)
append_parsed vars (ok v) = ok (vars ++ v ∷ [])
append_parsed vars (err e) = ok vars
append_parsed vars panic = panic
append_parsed vars stuck = stuck

-- One entry of a function, for the frame pointer `fp`.
unfoldable pub take_entry : ℕ → Entry → StackFrame → Result StackFrame
unfolding parse_parameter_or_local
take_entry fp e f =
    (if e.tag == tag_formal_parameter
      then append_parsed f.params (parse_parameter_or_local e fp)
      else ok f.params)
    >>= λ params.
        (if e.tag == tag_variable
          then append_parsed f.vars (parse_parameter_or_local e fp)
          else ok f.vars)
        >>= λ vars. ok (record f { params = params; vars = vars })

-- The loop over the entries of a function. At the end of the section Next gives a nil entry, and its
-- tag is read.
unfoldable pub entries_loop : ℕ → Data → ℕ → Reader → StackFrame → Result (StackFrame × Reader)
unfolding next take_entry
entries_loop zero d fp r f = stuck
entries_loop (suc fuel) d fp r f = next d r >>= λ n. elim n.0 [
  | failed e ↦ err e
  | at_end ↦ panic
  | read e ↦ elim (e.tag == 0) [
    | true ↦ ok (f, n.1)
    | false ↦ take_entry fp e f >>= λ f'. entries_loop fuel d fp n.1 f'
  ]
]

unfoldable pub top_of_stack : List ℕ → ℕ → Bool
top_of_stack [] func_entry = false
top_of_stack (a ∷ addrs) func_entry =
    let rest = top_of_stack addrs func_entry in if a == func_entry then true else rest

-- What walkStack returns: the frames that it has, and an error or none.
abbrev pub Walked : Type 0 → Type 0
Walked W = W × Result (List StackFrame × Option Error)

-- `if err != nil { return frames, err }`, before this round has a frame.
abbrev pub or_stop : {W A : Type 0} → W → Result A → (A → Walked W) → Walked W
or_stop w (ok a) f = f a
or_stop w (err e) f = (w, ok ([], some e))
or_stop w panic f = (w, panic)
or_stop w stuck f = (w, stuck)

-- A frame in front of those of the later rounds.
abbrev pub with_frame : {W : Type 0} → StackFrame → Walked W → Walked W
with_frame f (w, ok (fs, e)) = (w, ok (f ∷ fs, e))
with_frame f (w, err e) = (w, err e)
with_frame f (w, panic) = (w, panic)
with_frame f (w, stuck) = (w, stuck)

module _ {W : Type 0} (k : Kernel W) (fuel : ℕ) (d : Data) (s : Server) where
  -- The read of the caller's PC below the frame pointer.
  unfoldable pub caller_pc : ℕ → Effect W ℕ
  unfolding ptrace_peek
  caller_pc fp w =
      let size = s.arch.pointer_size in
      if ltb 8 size
      then (w, panic)
      else described "ptracePeek: %v"
          (ptrace_peek k s.stopped_pid (u64 (fp + 2 ^ 64 - size)) size w)
        >=> λ bs w'. elim (Arch.uintptr s.arch bs) [ none ↦ (w', panic) | some pc ↦ (w', ok pc) ]

  -- An error of that read ends the walk.
  abbrev pub go_on : (ℕ → W → Walked W) → W × Result ℕ → Walked W
  go_on walk (w, ok pc) = walk pc w
  go_on walk (w, err e) = (w, ok ([], some e))
  go_on walk (w, panic) = (w, panic)
  go_on walk (w, stuck) = (w, stuck)

  unfoldable pub walk_stack : ℕ → Reader → ℕ → ℕ → W → Walked W
  unfolding caller_pc entries_loop top_of_stack pc_to_line pc_to_sp_offset entry_for_pc
  walk_stack zero r pc sp w = (w, ok ([], none))
  walk_stack (suc count) r pc sp w = or_stop w (pc_to_line d pc) (λ place.
      or_stop w (pc_to_sp_offset d pc) (λ offset. or_stop w (entry_for_pc fuel d pc) (λ found.
        let fp = u64 (sp + offset) in
        let frame : StackFrame = record {
          pc = pc;
          sp = sp;
          file = place.0;
          line = place.1;
          function = as_string (entry_val found.0.fields attr_name);
          function_start = found.1;
          params = [];
          vars = [];
        } in
        or_stop w (entries_loop fuel d fp (seek d r found.0.offset) frame) (λ filled.
          with_frame filled.0 (
            if top_of_stack s.top_of_stack_addrs found.1
            then (w, ok ([], none))
            else go_on (λ pc' w'. walk_stack count filled.1 pc' fp w') (caller_pc fp w))))))
