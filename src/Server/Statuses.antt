-- ===== src/Server/Statuses.antt =====
-- server/server.go: the states of a goroutine, and where goroutineStackInit finds the saved registers
-- of one.
use debug.Common.{
  if◌then◌else◌, get_elem?, u64, Bytes, ℕ, ◌+◌, Bool, true, false, ◌||◌, none, some, List, [], ◌∷◌,
}
use Prim.Native.Nat.{bit_xor}
use debug.Common.Result.{errorf, Result, ok, err, ◌>>=◌}
use debug.Common.Text.{codes}
use debug.Dwarf.Types.{StructInfo, TypeHeap, node_of, shape_of}
use debug.Server.Frames.{StackFrame}
use debug.Server.Typedefs.{follow_typedefs}
use debug.Server.Peek.{get_field, is_uint, is_int, struct_info}

-- GoroutineStatus, with invalidStatus.
pub data GoroutineStatus : Type 0 where
  running queued blocked invalid_status : GoroutineStatus

pub record Goroutine : Type 0 where
  pub id : ℕ
  pub status : GoroutineStatus
  pub status_string : Bytes
  pub function : Bytes
  pub caller : Bytes
  pub stack_frames : List StackFrame

-- gStatus, with gStatusString
abbrev pub g_status : List (GoroutineStatus × Bytes)
g_status =
    (queued, codes "idle")
    ∷ (queued, codes "runnable")
    ∷ (running, codes "running")
    ∷ (blocked, codes "syscall")
    ∷ (blocked, codes "waiting")
    ∷ (invalid_status, [])
    ∷ (invalid_status, [])
    ∷ (invalid_status, [])
    ∷ (running, codes "copystack")
    ∷ []

-- gScanStatus, with gScanStatusString
abbrev pub g_scan_status : List (GoroutineStatus × Bytes)
g_scan_status =
    (invalid_status, [])
    ∷ (queued, codes "scanrunnable")
    ∷ (running, codes "scanrunning")
    ∷ (blocked, codes "scansyscall")
    ∷ (blocked, codes "scanwaiting")
    ∷ (invalid_status, [])
    ∷ (invalid_status, [])
    ∷ (queued, codes "scanenqueue")
    ∷ []

-- The status and its text; an index past both tables is invalid.
unfoldable pub status_of : ℕ → GoroutineStatus × Bytes
status_of status = elim (get_elem? g_status status) [
  | some x ↦ x
  | none ↦ elim (get_elem? g_scan_status (bit_xor status 0x1000)) [
    | some x ↦ x
    | none ↦ (invalid_status, [])
  ]
]

abbrev pub is_invalid : GoroutineStatus → Bool
is_invalid invalid_status = true
is_invalid _ = false

abbrev pub is_running : GoroutineStatus → Bool
is_running running = true
is_running _ = false

-- Where goroutineStackInit has found the fields pc and sp of a g, and their sizes.
pub record Sched : Type 0 where
  pub pc_offset : ℕ
  pub pc_byte_size : ℕ
  pub sp_offset : ℕ
  pub sp_byte_size : ℕ

-- The field of a gobuf: its offset in the g, and its size.
unfoldable pub sched_field : TypeHeap → ℕ → StructInfo → Bytes → Result (ℕ × ℕ)
unfolding get_field follow_typedefs
sched_field h base st name = get_field st name >>= λ f. follow_typedefs h f.field_type >>= λ t.
    elim (node_of h t) [
      | none ↦ err (errorf "gobuf field %q has the wrong type" name)
      | some n ↦
          if is_uint (some n.shape) || is_int (some n.shape)
          then ok (u64 (base + f.byte_offset), n.common.byte_size)
          else err (errorf "gobuf field %q has the wrong type" name)
    ]

-- goroutineStackInit: what it finds, or the error that goroutineStack is to give.
unfoldable pub goroutine_stack_init : TypeHeap → StructInfo → Result Sched
unfolding get_field follow_typedefs sched_field
goroutine_stack_init h g = get_field g (codes "sched") >>= λ f.
    follow_typedefs h f.field_type >>= λ t. elim (struct_info (shape_of h t)) [
      | none ↦ err (errorf "g field \"sched\" has the wrong type" [])
      | some st ↦ sched_field h f.byte_offset st (codes "pc") >>= λ pc.
          sched_field h f.byte_offset st (codes "sp") >>= λ sp.
          ok (record {
            pc_offset = pc.0;
            pc_byte_size = pc.1;
            sp_offset = sp.0;
            sp_byte_size = sp.1;
          })
    ]
