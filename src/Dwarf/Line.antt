-- ===== src/Dwarf/Line.antt =====
-- dwarf/line.go: the header of a line table and the registers of the machine that runs it. An intN
-- or uintN is its bit pattern, a string its bytes.
pub mod Machine
pub mod Search
pub mod Paths
pub mod Ends
pub mod Total
mod Runs
use debug.Common.{
  ltb, leb, ◌==◌, if◌then◌else◌, length, take, drop, replicate, sign_extend8, Bytes, ℕ, zero, suc,
  ◌+◌, ◌%◌, Bool, false, not, Option, none, some, List, [], ◌∷◌, ◌++◌,
}
use debug.Common.Result.{errorf, Result, ok, err, stuck, ◌>>=◌}
use debug.Dwarf.Buf.{Buf, uint8, bytes, string, uint16, uint32, uint}

pub record LineFile : Type 0 where
  pub name : Bytes
  pub index : ℕ
  pub time : ℕ
  pub size : ℕ

-- `size` of a file, `includes` and `files` are the source's fields length, include and file.
pub record LineHeader : Type 0 where
  pub unit_length : ℕ
  pub version : ℕ
  pub header_length : ℕ
  pub min_instruction_length : ℕ
  pub max_ops_per_instruction : ℕ
  pub default_is_stmt : Bool
  pub line_base : ℕ
  pub line_range : ℕ
  pub opcode_base : ℕ
  pub std_opcode_lengths : Bytes
  pub includes : List Bytes
  pub files : List LineFile

pub record LineMachine : Type 0 where
  pub address : ℕ
  pub op_index : ℕ
  pub file : ℕ
  pub line : ℕ
  pub column : ℕ
  pub is_stmt : Bool
  pub basic_block : Bool
  pub end_sequence : Bool
  pub prologue_end : Bool
  pub epilogue_begin : Bool
  pub isa : ℕ
  pub discriminator : ℕ
  pub header : LineHeader

-- reset: the registers at their initial values.
unfoldable pub reset : LineHeader → LineMachine
reset h = record {
  address = 0;
  op_index = 0;
  file = 1;
  line = 1;
  column = 0;
  is_stmt = h.default_is_stmt;
  basic_block = false;
  end_sequence = false;
  prologue_end = false;
  epilogue_begin = false;
  isa = 0;
  discriminator = 0;
  header = h;
}

-- `copy(dst, src)` into a fresh slice of n zeros; a nil source copies nothing.
abbrev copied : ℕ → Option Bytes → Bytes
copied n none = replicate n 0
copied n (some src) = take n src ++ drop (length src) (replicate n 0)

-- Names up to an empty one, behind those in `acc`, with fuel. A name that is not empty takes two
-- bytes at least.
unfoldable pub include_loop : ℕ → Buf → List Bytes → Result (List Bytes × Buf)
include_loop zero b acc = stuck
include_loop (suc fuel) b acc =
    let (name, b') = string b in
    let more = include_loop fuel b' (acc ++ name ∷ []) in
    if length name == 0 then ok (acc, b') else more

unfoldable pub file_loop : ℕ → Buf → List LineFile → Result (List LineFile × Buf)
file_loop zero b acc = stuck
file_loop (suc fuel) b acc =
    let (name, b') = string b in
    let (index, b1) = uint b' in
    let (time, b2) = uint b1 in
    let (size, b3) = uint b2 in
    let f : LineFile = record { name = name; index = index; time = time; size = size } in
    let more = file_loop fuel b3 (acc ++ f ∷ []) in if length name == 0 then ok (acc, b') else more

-- The fields in front of the include directories, which are still empty.
unfoldable pub header_fields : ℕ → Buf → LineHeader × Buf
header_fields unit_length b1 =
    let (version, b2) = uint16 b1 in
    let (header_length, b3) = uint32 b2 in
    let (min_inst, b4) = uint8 b3 in
    let (max_ops, b5) = if leb 4 version then uint8 b4 else (1, b4) in
    let (is_stmt, b6) = uint8 b5 in
    let (base, b7) = uint8 b6 in
    let (range, b8) = uint8 b7 in
    let (opcode_base, b9) = uint8 b8 in
    let n = (opcode_base + 255) % 256 in
    let (lengths, b10) = bytes b9 n in
    (
      record {
        unit_length = unit_length;
        version = version;
        header_length = header_length;
        min_instruction_length = min_inst;
        max_ops_per_instruction = max_ops;
        default_is_stmt = not (is_stmt == 0);
        line_base = sign_extend8 base;
        line_range = range;
        opcode_base = opcode_base;
        std_opcode_lengths = copied n lengths;
        includes = [];
        files = [];
      },
      b10,
    )

-- Entry 0 of both tables is empty. Errors of the buffer are not looked at here.
unfoldable pub parse_header : Buf → Result (LineHeader × Buf)
unfolding header_fields include_loop file_loop
parse_header b =
    let (unit_length, b1) = uint32 b in
    if ltb (length b1.unread) unit_length
    then err (errorf "DWARF: bad PC/line header length" [])
    else let (h, b2) = header_fields unit_length b1 in
      include_loop (suc (length b2.unread)) b2 ([] ∷ []) >>= λ i.
      (file_loop (suc (length i.1.unread)) i.1
          (record { name = []; index = 0; time = 0; size = 0 } ∷ [])
        >>= λ f. ok (record h { includes = i.0; files = f.0 }, f.1))
