-- ===== src/Server/Variables.antt =====
-- server/server.go: the requests about variables and their values.
pub mod Elements
mod Runs
use debug.Common.{
  leb, ◌==◌, if◌then◌else◌, u32, u64, Bytes, ℕ, ◌+◌, Bool, true, false, Option, none, some, [], ◌∷◌,
}
use debug.Dwarf.Symbol.{lookup_entry, entry_location, entry_type_offset}
use debug.Common.Result.{errorf, Result, ok, err, ◌>>=◌}
use debug.Common.Effect.{Effect, ◌>=>◌}
use debug.Dwarf.Types.{Shape, map_type, TypeHeap, shape_of, common_of}
use debug.Dwarf.Types.Store.{TypeStore}
use debug.Dwarf.Types.Units.{TypeSigs}
use debug.Dwarf.Types.Reading.{type_at}
use debug.Dwarf.Data.{Data}
use debug.Server.Value
use debug.Server.Kernel.{Kernel}
use debug.Server.Breakpoints.{Server}
use debug.Server.Peek.{in_error}
use debug.Server.Peek.Maps.{peek_map_values}
use debug.Server.Value.{RemoteValue}

-- A Var.
pub record Var : Type 0 where
  pub type_id : ℕ
  pub address : ℕ

unfoldable pub handle_var_by_name : ℕ → Data → Bytes → Result Var
unfolding lookup_entry entry_location entry_type_offset
handle_var_by_name fuel d name = in_error "variable %s: %s" name (
    lookup_entry fuel d name >>= λ e. entry_location d e >>= λ loc.
    entry_type_offset e >>= λ off. ok (record { type_id = off; address = loc }))

-- The response to a MapElement request, and the count of the entries that were met.
pub record Element : Type 0 where
  pub key : Option Var
  pub value : Option Var
  pub count : ℕ

module _ {W : Type 0} (k : Kernel W) (s : Server) (d : Data) (sigs : TypeSigs) {F32 F64 : Type 0}
    (from32 : ℕ → F32) (from64 : ℕ → F64) (fuel entries : ℕ) where
  -- `s.dwarfData.Type(dwarf.Offset(id))`
  unfoldable pub type_by_id : ℕ → Effect (TypeStore × W) ℕ
  unfolding type_at
  type_by_id id (t, w) = let (t', r) = type_at fuel entries d sigs (u32 id) t in ((t', w), r)

  abbrev pub on_target : {A : Type 0} → (TypeHeap → Effect W A) → Effect (TypeStore × W) A
  on_target f (t, w) = let (w', r) = f t.heap w in ((t, w'), r)

  unfoldable pub handle_value : Var → Effect (TypeStore × W) (RemoteValue F32 F64)
  unfolding type_by_id Value.value
  handle_value v st = type_by_id v.type_id st >=> λ t.
      on_target (λ h. Value.value k s h from32 from64 fuel (some t) v.address)

  abbrev pub map_target : Option Shape → Option (Option ℕ)
  map_target (some (map_type u x y)) = some u
  map_target _ = none

  -- The function fn of handleMapElement, for the entry number `index`.
  unfoldable pub take_element :
      TypeHeap → ℕ → ℕ → ℕ → Option ℕ → Option ℕ → Effect (Element × W) Bool
  take_element h index ka va kt vt (e, w) =
      let e' = record e { count = u64 (e.count + 1) } in
      let filled : (Element × W) × Result Bool = ((e', w), common_of h kt) >=> λ kc st.
      (st, common_of h vt) >=> λ vc st'. (
        (
          record st'.0 {
            key = some (record { type_id = kc.offset; address = ka });
            value = some (record { type_id = vc.offset; address = va });
          },
          st'.1,
        ),
        ok false,
      ) in
      if u64 (e.count + 1) == u64 (index + 1) then filled else ((e', w), ok true)

  -- The map is at the address.
  unfoldable pub map_element : TypeHeap → Option ℕ → ℕ → ℕ → Effect W Element
  unfolding peek_map_values take_element
  map_element h u address index w =
      let (st, r) =
        peek_map_values k s h fuel u address (take_element h index)
          (record { key = none; value = none; count = 0 }, w) in
      (st.1, r) >=> λ x w1.
      if leb st.0.count index
      then (w1, err (errorf "map has no element %d" (index ∷ [])))
      else (w1, ok st.0)

  unfoldable pub handle_map_element : Var → ℕ → Effect (TypeStore × W) Element
  unfolding type_by_id map_element
  handle_map_element v index st = type_by_id v.type_id st >=> λ t. on_target (λ h w.
      elim (map_target (shape_of h (some t))) [
        | none ↦ (w, err (errorf "variable is not a map" []))
        | some u ↦ map_element h u v.address index w
      ])
