-- ===== src/Server/Printer/Sprint.antt =====
-- server/print.go: Sprint and SprintEntry, which look an entry and its type up.
use debug.Common.{◌==◌, if◌then◌else◌, Bytes, ℕ, ◌||◌, Option, none, some, List, [], ◌∷◌, String}
use debug.Arch
use debug.Dwarf.Entry.{
  Value, nil_value, uint64_value, int64_value, offset_value, bytes_value, bool_value, string_value,
  Entry, entry_val,
}
use debug.Dwarf.Symbol.{attr_location, attr_type, tag_variable, lookup_entry}
use debug.Server.Printer.{print, fail, print_value_at}
use debug.Common.Result.{Error, errorf, wrapped, Result, ok, err, panic, stuck}
use debug.Common.Effect.{Effect, ◌>=>◌}
use debug.Arch.{uintptr}
use debug.Dwarf.Types.{TypeHeap}
use debug.Dwarf.Types.Store.{TypeStore}
use debug.Dwarf.Types.Units.{TypeSigs}
use debug.Dwarf.Types.Reading.{type_at}
use debug.Dwarf.Data.{Data}
use debug.Server.Kernel.{Kernel}
use debug.Server.Breakpoints.{Server}
use debug.Server.Printing.{Arg, Printer, new_printer}

-- The DWARF data's types, the printer and the target.
abbrev pub PrintState : Type 0 → Type 0
PrintState W = TypeStore × (Printer × W)

module _ {W : Type 0} (k : Kernel W) (s : Server) (d : Data) (sigs : TypeSigs) {F32 F64 : Type 0}
    (from32 : ℕ → F32) (from64 : ℕ → F64) (format_int : ℕ → Bytes)
    (sprintf : String → List (Arg F32 F64) → Bytes) (message : Error → Bytes)
    (fuel entries : ℕ) where
  -- A step of the printer, which does not look types up.
  abbrev pub on_printer :
      (TypeHeap → Effect (Printer × W) (Unit {0})) → Effect (PrintState W) (Unit {0})
  on_printer f (t, st) = let (st', r) = f t.heap st in ((t, st'), r)

  abbrev pub fails : Error → Effect (PrintState W) (Unit {0})
  fails e = on_printer (λ h. fail k s h from32 from64 format_int sprintf message e)

  unfoldable pub print_entry_type : Entry → ℕ → Effect (PrintState W) (Unit {0})
  unfolding type_at print_value_at fail
  print_entry_type e a (t, st) = elim (entry_val e.fields attr_type) [
    | nil_value ↦ fails (errorf "no type" []) (t, st)
    | offset_value off ↦
        let (t', r) = type_at fuel entries d sigs off t in
        elim r [
          | ok u ↦
              on_printer
                (λ h. print_value_at k s h from32 from64 format_int sprintf message fuel (some u) a)
                (t', st)
          | err x ↦ fails (wrapped "type lookup: %v" [] x) (t', st)
          | panic ↦ ((t', st), panic)
          | stuck ↦ ((t', st), stuck)
        ]
    | uint64_value x ↦ ((t, st), panic)
    | int64_value x ↦ ((t, st), panic)
    | bytes_value x ↦ ((t, st), panic)
    | bool_value x ↦ ((t, st), panic)
    | string_value x ↦ ((t, st), panic)
  ]

  unfoldable pub print_entry_value_at : Entry → ℕ → Effect (PrintState W) (Unit {0})
  unfolding print fail print_entry_type
  print_entry_value_at e a st =
      if a == 0
      then on_printer (λ h. print k s h from32 from64 format_int sprintf message "<nil>" []) st
      else if e.tag == tag_variable || e.tag == 0x05
      then print_entry_type e a st
      else fails (errorf "unrecognized entry type %s" (e.tag ∷ [])) st

  -- decodeLocation. No bytes, and an address of another length than the target's, panic.
  unfoldable pub decode_location : Bytes → Effect (PrintState W) ℕ
  unfolding fail
  decode_location [] st = (st, panic)
  decode_location (c ∷ cs) st =
      if c == 0x03
      then elim (Arch.uintptr s.arch cs) [ none ↦ (st, panic) | some x ↦ (st, ok x) ]
      else (fails (errorf "unimplemented location type %#x" (c ∷ [])) st >=> λ u st1. (st1, ok 0))

  -- `a = p.decodeLocation(iface.([]byte))`, or 0 for no location.
  abbrev pub decode_value : Value → Effect (PrintState W) ℕ
  decode_value nil_value st = (st, ok 0)
  decode_value (bytes_value (some bs)) st = decode_location bs st
  decode_value (bytes_value none) st = decode_location [] st
  decode_value _ st = (st, panic)

  -- What Sprint and SprintEntry return: the text, with the first error or none.
  abbrev pub printed :
      PrintState W × Result (Unit {0}) → PrintState W × Result (Bytes × Option Error)
  printed r = r >=> λ u st. (st, ok (st.1.0.print_buf, st.1.0.failure))

  abbrev pub after_reset : PrintState W → PrintState W
  after_reset (t, st) = (t, (new_printer, st.1))

  unfoldable pub sprint_entry : Entry → ℕ → Effect (PrintState W) (Bytes × Option Error)
  unfolding print_entry_value_at
  sprint_entry e a st = printed (print_entry_value_at e a (after_reset st))

  unfoldable pub sprint : Bytes → Effect (PrintState W) (Bytes × Option Error)
  unfolding lookup_entry print_entry_value_at decode_location fail
  sprint name st = elim (lookup_entry entries d name) [
    | ok e ↦ printed (
        if e.tag == tag_variable
        then (decode_value (entry_val e.fields attr_location) (after_reset st) >=> λ a.
            print_entry_value_at e a)
        else fails (errorf "unrecognized entry type %s" (e.tag ∷ [])) (after_reset st))
    | err x ↦ (st, ok ([], some x))
    | panic ↦ (st, panic)
    | stuck ↦ (st, stuck)
  ]
