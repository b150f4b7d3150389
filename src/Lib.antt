-- ===== src/Lib.antt =====
-- The debug repository: integers of the target (arch), DWARF sections (dwarf), Go's own line tables
-- (gosym), and the server that runs a target. The server asks the DWARF package where a PC is
-- (PCToLine, LineToPCs, PCToSPOffset) and where a name is (LookupFunction, EntryForPC); the first
-- parse a line or a frame section with the buffer of buf.go, the others read the entries of the info
-- section. It sets breakpoints at the PCs, and runs the target up to them with ptrace. gosym answers
-- the same questions about PCs from the tables that the Go linker writes.
--
-- Arch: arch/arch.go. Architecture is the struct, and each function has the name of its method.
-- Dwarf/Buf: dwarf/buf.go. A method of buf takes a Buf and gives back its result with the new Buf.
--   Buf/Leb and Buf/Sleb are about varint, uint and int, Buf/Cursor about sequences of calls (over
--   Buf/Ops and Buf/Scans), Buf/Failed about a buffer with an error, and Buf/Shrinks about what the
--   methods leave to read.
-- Dwarf/Data: the structs of dwarf/open.go, dwarf/unit.go and dwarf/entry.go.
-- Dwarf/Entry: dwarf/entry.go, the abbreviation tables and buf.entry; Entry/Tables is about
--   parseAbbrev and its cache. Dwarf/Units: dwarf/unit.go and New of dwarf/open.go.
-- Dwarf/Reader: the Reader of dwarf/entry.go. Dwarf/Symbol: dwarf/symbol.go; Symbol/Finds is about the
--   loop that the lookups share, Symbol/Pcs about EntryForPC, Symbol/Names about lookupEntry, and
--   Symbol/Hangs about a Reader that stays where it is.
-- Dwarf/Frame: dwarf/frame.go. Frame/Table is the abstract CFA column, Frame/Rounds and
--   Frame/Offsets the run of the machine, Frame/Ends its termination.
-- Dwarf/Line: dwarf/line.go, with the machine in Line/Machine, PCToLine in Line/Search and
--   LineToPCs in Line/Paths. Line/Ends and Line/Total are about termination and panics,
--   Paths/Suffix and Paths/Best about the choice of a file.
-- Gosym/Pclntab: gosym/pclntab.go, with the old format in Pclntab/Old and Pclntab/Stops, go12Init in Pclntab/Init,
--   findFunc in Pclntab/Funcs, the PC-value tables in Pclntab/Values, and the functions that
--   recover from panics in Pclntab/Lookup. Pclntab/Search is about findFunc, Pclntab/Recover and
--   Pclntab/Files about the loops behind a recover, Pclntab/Answers about PCToLine and LineToPC.
-- Gosym/Symtab: gosym/symtab.go. walksymtab stands in Symtab itself, the symbols that NewTable
--   collects, PCToFunc and the lookups in Symtab/Table, the rest of NewTable in Symtab/Build, and the
--   methods about lines in Symtab/Lines. Symtab/Total is about walksymtab on any table,
--   Symtab/Printed about walksymtab on a table of given symbols, Symtab/Search about PCToFunc.
-- Dwarf/Types: the types of dwarf/type.go, on a heap, since they may be circular. Types/Text has their
--   String methods, Types/Units the type units of dwarf/typeunit.go and the readers. readType stands
--   in Types/Reading, its cases in Types/Fill (over Types/Steps), the loops over
--   children in Types/Kids, and what it changes in Types/Store. Types/Cached (over Types/Keeps and
--   Types/Held) is about the cache, Types/Circular about a type that needs itself.
-- Server/Kernel: server/ptrace.go, over the calls of package syscall. Server/Breakpoints: the
--   breakpoints of server/server.go, addBreakpoints to liftBreakpoints; Breakpoints/Pokes is about
--   memory, Breakpoints/Saved about what is saved, Breakpoints/Placed about setting and lifting,
--   Breakpoints/Peeks and Breakpoints/Added about adding and deleting.
-- Server/Waiting: wait, waitForTrap and the calls that come in meanwhile; Waiting/Traps is about
--   what is waited for. Server/Process: handleRun and handleResume.
-- Server/Files: handleOpen, handleReadAt and handleClose; Files/Slots is about descriptors,
--   Files/Indexed about the index of a file.
-- Server/Frames: walkStack of server/server.go, which gives the frames it has, with an error or none;
--   Frames/Tops: handleFrames and evaluateTopOfStackAddrs. Frames/Chain is about how frames hang together.
-- Server/Location: server/dwarf.go; Location/Signed is about signed numbers.
-- Server/Typedefs: followTypedefs of server/eval.go; Typedefs/Ends is about where it ends, and
--   Typedefs/Cycles about cycles.
-- Server/Peek: server/peek.go and getField of server/print.go, with the runtime's maps in Peek/Maps;
--   Peek/Fields is about getField, Peek/Walk about the entries that peekMapValues visits.
-- Server/Value: server/value.go. Server/Printer: server/print.go (over Server/Printing), with Sprint
--   in Printer/Sprint.
-- Server/Variables: handleVarByName, handleValue and handleMapElement of server/server.go;
--   Variables/Elements is about the entry of a map that is given. Peek/Fixtures is what the runs share.
-- Server/Goroutines: handleGoroutines, over the states and goroutineStackInit of Server/Statuses.
-- Common: shared types and lemmas. Common/Result is what a call gives: a value, an error, a panic,
--   or `stuck` where a loop of the model is out of fuel. Common/Slices has the index and slice
--   expressions that panic when they are out of range.
-- The modules called Runs hold concrete runs.
--
-- A machine integer is a natural number below 2 ^ w, and a signed one its bit pattern; every
-- operation that can wrap is written with its modulus. Strings and slices are lists of bytes.
-- Loops take fuel: one more than the bytes left to read, since every round reads at least one
-- byte, and in findFunc one more than the functions left, since every round halves them.
--
-- A call that changes a state is a function from the state to the new state and a result
-- (Common/Effect), and a Go map is a list of entries; a range over one may meet them in any order,
-- which is a parameter. What package syscall, package os and a channel do are parameters too, records
-- of operations over a state of the system (Kernel, Disk, Host); what ptrace documents of memory is
-- the hypothesis IsMemory; IsStill is that of a target whose memory nothing changes.
--
-- Fuel of readType and of printValueAt is the depth of their calls, one in another; that of the
-- walk over a map is one more than the buckets of a chain, and that of Size one more than the types.
--
-- Not modelled: the server's evaluator (server/eval.go but for followTypedefs) with the requests that
-- evaluate, which stand on go/parser, go/constant and math/big; its clients, which are glue over
-- net/rpc; and the copies of debug/elf and debug/macho. The server's goroutines take one call at a
-- time, and no time passes in a sleep. math.Float32frombits and Float64frombits, strconv.FormatInt
-- and fmt.Sprintf are parameters. The mutex and the slice capacities of a LineTable are left out.
pub mod Common
pub mod Arch
pub mod Dwarf
pub mod Gosym
pub mod Server
