-- ===== src/Server/Peek/Runs.antt =====
-- Runs of the walk over a map of server/peek.go, over a memory that is a function.
use debug.Common.{
  ltb, ◌==◌, if◌then◌else◌, length, order_uint?, ℕ, ◌≡◌, refl, inl, inr, Bool, false, Option, none,
  some, List, [], ◌∷◌, ◌++◌, arith,
}
use debug.Arch
use debug.Common.Result.{ok}
use debug.Common.Effect.{Effect}
use debug.Arch.{uintptr, uint_n}
use debug.Server.Peek.Maps.{Layout, walk_map}
use debug.Server.Peek.Walk.{fold_until, walk_map-entries}
use debug.Server.Peek.Fixtures.{still_kernel, stopped}
use debug.Server.Peek.{get_field}
use debug.Common.Text.{codes}
use debug.Dwarf.Types.{StructInfo}
use debug.Dwarf.Line.Paths.{bytes_eq}
use debug.Server.Peek.Fields.{get_field-only}

-- A bucket at 0x100 whose two entries have the hashes 5 and 9, and no bucket is next.
abbrev two_entries : ℕ → ℕ
two_entries x = if x == 0x100 then 5 else if x == 0x101 then 9 else 0

-- Keys and values of 8 bytes behind the hashes, and no old buckets.
abbrev small_map : Layout
small_map = record {
  buckets = (0x100, 1);
  oldbuckets = (0, 0);
  bucket_size = 0x30;
  bucket_cnt = 2;
  tophash_offset = 0;
  key_type = none;
  keys_stride = 8;
  keys_offset = 8;
  value_type = none;
  values_stride = 8;
  values_offset = 0x18;
  overflow_offset = 0x28;
}

-- Two entries are enough.
abbrev listed : List (ℕ × ℕ) → ℕ × ℕ → List (ℕ × ℕ) × Bool
listed xs x = (xs ++ x ∷ [], ltb (length xs) 1)

abbrev list_entry : ℕ → ℕ → Option ℕ → Option ℕ → Effect (List (ℕ × ℕ) × Unit {0}) Bool
list_entry ka va kt vt (xs, w) = (((listed xs (ka, va)).0, w), ok (listed xs (ka, va)).1)

walk_map-entries_example :
    walk_map (still_kernel two_entries) stopped [] list_entry small_map 2 ([], tt)
    ≡ (((0x108, 0x118) ∷ (0x110, 0x120) ∷ [], tt), ok tt)
unfolding Arch.uint_n Arch.uintptr debug.Common.order_uint? fold_until
walk_map-entries_example =
    walk_map-entries (still_kernel two_entries) stopped [] two_entries (λ pid a n w. refl) refl
      list_entry small_map listed (λ ka va a w. refl) 2 ((0x100 ∷ []) ∷ []) [] [] tt
      (inr (ground arith, refl, ((refl, ground arith, refl), tt))) (inl (refl, refl))
      (omega arith, tt) tt

abbrev pair : StructInfo
pair = record {
  struct_name = [];
  kind = codes "struct";
  field =
      record {
        name = codes "len";
        field_type = some 0;
        byte_offset = 0;
        byte_size = 8;
        bit_offset = 0;
        bit_size = 0;
      }
      ∷ record {
        name = codes "cap";
        field_type = some 0;
        byte_offset = 8;
        byte_size = 8;
        bit_offset = 0;
        bit_size = 0;
      }
      ∷ [];
  incomplete = false;
}

get_field-only_example :
    get_field pair (codes "cap")
    ≡ ok (record {
      name = codes "cap";
      field_type = some 0;
      byte_offset = 8;
      byte_size = 8;
      bit_offset = 0;
      bit_size = 0;
    })
unfolding bytes_eq
get_field-only_example = get_field-only pair (codes "cap")
