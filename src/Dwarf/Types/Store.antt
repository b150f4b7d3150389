-- ===== src/Dwarf/Types/Store.antt =====
-- dwarf/type.go: what readType changes, and how. The variable err of readType, which is not looked at
-- after every call, is handed on as an Option.
use debug.Common.{length, Bytes, ℕ, zero, suc, Option, none, some, List, [], ◌∷◌, ◌++◌}
use debug.Common.Result.{Result, ok, err, panic, stuck}
use debug.Common.Effect.{Effect}
use debug.Dwarf.Symbol.{attr_name}
use debug.Common.Maps.{map_delete, map_insert}
use debug.Dwarf.Entry.{Value, int64_value, Entry, entry_val}
use debug.Dwarf.Line.Paths.{as_string}
use debug.Dwarf.Types.{CommonType, zero_common, Shape, array_type, TypeNode, TypeHeap, shape_of}

-- The types that there are, the typeCache that is being filled, and the caches of the type units in
-- typeSigs, by signature. The newest entry of a map comes first.
pub record TypeStore : Type 0 where
  pub heap : TypeHeap
  pub cache : List (ℕ × ℕ)
  pub sig_cache : List (ℕ × ℕ)

-- `f` of the element at i.
unfoldable pub update_at {ℓ} : {A : Type ℓ} → ℕ → (A → A) → List A → List A
update_at i f [] = []
update_at zero f (x ∷ xs) = f x ∷ xs
update_at (suc i) f (x ∷ xs) = x ∷ update_at i f xs

-- `new` and a composite literal: a struct at the end, where nothing points to it.
abbrev pub alloc : TypeNode → TypeStore → TypeStore
alloc n s = record s { heap = s.heap ++ n ∷ [] }

abbrev pub next_ref : TypeStore → ℕ
next_ref s = length s.heap

abbrev pub change : ℕ → (TypeNode → TypeNode) → TypeStore → TypeStore
change t f s = record s { heap = update_at t f s.heap }

abbrev pub set_shape : ℕ → Shape → TypeStore → TypeStore
set_shape t x s = change t (λ n. record n { shape = x }) s

-- `typeCache[off] = t` and `delete(typeCache, off)`
abbrev pub remember : ℕ → ℕ → TypeStore → TypeStore
remember off t s = record s { cache = map_insert off t s.cache }

abbrev pub forget : ℕ → TypeStore → TypeStore
forget off s = record s { cache = map_delete off s.cache }

-- `v, ok := e.Val(a).(int64)`
abbrev pub as_int64 : Value → Option ℕ
as_int64 (int64_value x) = some x
as_int64 _ = none

abbrev pub int_attr : Entry → ℕ → Option ℕ
int_attr e a = as_int64 (entry_val e.fields a)

-- `v, _ := e.Val(a).(int64)`
abbrev pub int_or_zero : Option ℕ → ℕ
int_or_zero none = 0
int_or_zero (some x) = x

abbrev pub int_attr_or_zero : Entry → ℕ → ℕ
int_attr_or_zero e a = int_or_zero (int_attr e a)

abbrev pub name_attr : Entry → Bytes
name_attr e = as_string (entry_val e.fields attr_name)

-- AttrGoKind
abbrev pub attr_go_kind : ℕ
attr_go_kind = 0x2900

-- AttrGoKey
abbrev pub attr_go_key : ℕ
attr_go_key = 0x2901

-- AttrGoElem
abbrev pub attr_go_elem : ℕ
attr_go_elem = 0x2902

-- AttrByteSize
abbrev pub attr_byte_size : ℕ
attr_byte_size = 0x0B

-- getKind
abbrev pub get_kind : Entry → ℕ
get_kind e = int_attr_or_zero e attr_go_kind

abbrev pub kind_common : Entry → CommonType
kind_common e = record zero_common { reflect_kind = get_kind e }

-- zeroArray, with fuel: one for each array type in another.
unfoldable pub zero_array : ℕ → Option ℕ → TypeStore → Result TypeStore
zero_array zero t s = stuck
zero_array (suc fuel) none s = ok s
zero_array (suc fuel) (some t) s = elim (shape_of s.heap (some t)) [
  | some (array_type u stride count) ↦ zero_array fuel u (set_shape t (array_type u stride 0) s)
  | _ ↦ ok s
]

-- Array types that do not lead back to themselves are fewer than all types.
abbrev pub zeroed : Option ℕ → Effect TypeStore (Unit {0})
zeroed t s = elim (zero_array (suc (length s.heap)) t s) [
  | ok s' ↦ (s', ok tt)
  | err e ↦ (s, err e)
  | panic ↦ (s, panic)
  | stuck ↦ (s, stuck)
]
