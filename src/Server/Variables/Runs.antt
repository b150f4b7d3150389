-- ===== src/Server/Variables/Runs.antt =====
-- Runs of handleMapElement of server/server.go, over a memory that is a function.
use debug.Common.{
  ◌==◌, if◌then◌else◌, Bytes, little_endian, order_uint?, ℕ, ◌≡◌, refl, inl, inr, false, some, List,
  [], ◌∷◌, arith,
}
use debug.Server.Variables.{map_element}
use debug.Common.Result.{ok}
use debug.Common.Text.{codes}
use debug.Dwarf.Types.{
  CommonType, uint_type, StructField, Shape, basic_type, array_type, ptr_type, struct_type,
  TypeHeap,
}
use debug.Dwarf.Data.{Data}
use debug.Server.Peek.Maps.{Layout, map_layout}
use debug.Server.Variables.Elements.{map_element-element_at}
use debug.Server.Peek.Fixtures.{still_kernel, stopped}

abbrev plain : ℕ → CommonType
plain size = record { byte_size = size; name = []; reflect_kind = 0; offset = 11 }

abbrev at_offset : Bytes → ℕ → ℕ → StructField
at_offset name t offset = record {
  name = name;
  field_type = some t;
  byte_offset = offset;
  byte_size = 0;
  bit_offset = 0;
  bit_size = 0;
}

abbrev with_fields : List StructField → Shape
with_fields fs =
    struct_type (record { struct_name = []; kind = []; field = fs; incomplete = false })

-- The types of a map from uint64 to uint64, whose own type is number 1.
abbrev map_types : TypeHeap
map_types =
    record { common = plain 8; shape = basic_type uint_type 0 0 }
    ∷ record { common = plain 8; shape = ptr_type (some 2) }
    ∷ record {
      common = plain 24;
      shape = with_fields (
          at_offset (codes "B") 0 0
          ∷ at_offset (codes "buckets") 3 8
          ∷ at_offset (codes "oldbuckets") 3 16
          ∷ []);
    }
    ∷ record { common = plain 8; shape = ptr_type (some 4) }
    ∷ record {
      common = plain 0x30;
      shape = with_fields (
          at_offset (codes "tophash") 5 0
          ∷ at_offset (codes "keys") 7 8
          ∷ at_offset (codes "values") 7 0x18
          ∷ at_offset (codes "overflow") 3 0x28
          ∷ []);
    }
    ∷ record { common = plain 2; shape = array_type (some 6) 8 2 }
    ∷ record { common = plain 1; shape = basic_type uint_type 0 0 }
    ∷ record { common = plain 16; shape = array_type (some 0) 64 2 }
    ∷ []

-- A map at 0x10, its struct at 0x200, and its one bucket, with two entries, at 0x100.
abbrev map_memory : ℕ → ℕ
map_memory x =
    if x == 0x11
    then 2
    else if x == 0x209
    then 1
    else if x == 0x100
    then 5
    else if x == 0x101
    then 9
    else 0

abbrev map_in_memory : Layout
map_in_memory = record {
  buckets = (0x100, 1);
  oldbuckets = (0, 0);
  bucket_size = 0x30;
  bucket_cnt = 2;
  tophash_offset = 0;
  key_type = some 0;
  keys_stride = 8;
  keys_offset = 8;
  value_type = some 0;
  values_stride = 8;
  values_offset = 0x18;
  overflow_offset = 0x28;
}

abbrev no_data : Data
no_data = record {
  abbrevs = [];
  frame = [];
  info = [];
  line = [];
  str = [];
  order = little_endian;
  units = [];
}

laid_out :
    map_layout (still_kernel map_memory) stopped map_types (some 1) 0x10 tt
    ≡ (tt, ok (some map_in_memory))
unfolding map_layout debug.Server.Kernel.ptrace_peek debug.Arch.uintptr debug.Common.order_uint?
    debug.Arch.uint_n
laid_out = refl

map_element-element_at_example :
    map_element
      (still_kernel map_memory)
      stopped
      no_data
      []
      (λ (x : ℕ). x)
      (λ (x : ℕ). x)
      2
      0
      map_types
      (some 1)
      0x10
      1
      tt
    ≡ (
      tt,
      ok (record {
        key = some (record { type_id = 11; address = 0x110 });
        value = some (record { type_id = 11; address = 0x120 });
        count = 2;
      }),
    )
unfolding debug.Arch.uint_n debug.Arch.uintptr debug.Common.order_uint?
map_element-element_at_example =
    map_element-element_at (still_kernel map_memory) stopped no_data [] (λ (x : ℕ). x)
      (λ (x : ℕ). x) 2 0 map_types map_in_memory (plain 8) (plain 8) refl refl 1 map_memory
      (λ pid a n w. refl) refl (some 1) 0x10 ((0x100 ∷ []) ∷ []) [] tt laid_out
      (inr (ground arith, refl, ((refl, ground arith, refl), tt))) (inl (refl, refl))
      (omega arith, tt) tt (omega arith) (omega arith)
