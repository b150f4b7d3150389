-- ===== src/Dwarf/Types/Runs.antt =====
-- Runs of the type reader of dwarf/type.go.
use debug.Common.{Bytes, little_endian, ℕ, ◌≡◌, refl, false, none, some, [], ◌∷◌}
use debug.Dwarf.Entry.{int64_value, offset_value, string_value, Entry, entry_val}
use debug.Dwarf.Types.{int_type, basic_type}
use debug.Common.Result.{errorf, ok, err, stuck}
use debug.Dwarf.Buf.{uint8, uint}
use debug.Dwarf.Data.{Data}
use debug.Dwarf.Reader.{reader}
use debug.Dwarf.Types.Units.{TypeReader, of_info, type_seek, type_next, type_address_size}
use debug.Dwarf.Types.Store.{TypeStore, update_at}
use debug.Dwarf.Types.Fill.{make_type, fill_type}
use debug.Dwarf.Types.Reading.{finish, parse_type, read_entry, read_type}
use debug.Dwarf.Types.Cached.{read_type-read_type, read_type-forgets}
use debug.Common.Maps.{map_get}
use debug.Dwarf.Types.Circular.{Finds, IsOwnChan, own_chan-stuck}

-- A unit at offset 0 whose entries are behind a header of 11 bytes: base types have abbreviation 1,
-- with a name, an encoding and a size; typedefs have 2, with a kind and an element type.
abbrev types_of : Bytes → Data
types_of content = record {
  abbrevs = [];
  frame = [];
  info = [];
  line = [];
  str = [];
  order = little_endian;
  units =
      record {
        base = 0;
        off = 11;
        content = content;
        atable =
            (
              1,
              record {
                tag = 0x24;
                children = false;
                field =
                    record { attr = 3; fmt = 8 }
                    ∷ record { attr = 0x3E; fmt = 0x0B }
                    ∷ record { attr = 0x0B; fmt = 0x0B }
                    ∷ [];
              },
            )
            ∷ (
              2,
              record {
                tag = 0x16;
                children = false;
                field =
                    record { attr = 3; fmt = 8 }
                    ∷ record { attr = 0x2900; fmt = 0x0B }
                    ∷ record { attr = 0x2902; fmt = 0x11 }
                    ∷ [];
              },
            )
            ∷ [];
        asize = 8;
        vers = 4;
        is64 = false;
      }
      ∷ [];
}

abbrev empty_store : TypeStore
empty_store = record { heap = []; cache = []; sig_cache = [] }

-- "i", a signed integer of 8 bytes, at offset 11; "c", a channel of itself, at offset 16.
abbrev int_and_chan : Data
int_and_chan = types_of (1 ∷ b'i' ∷ 0 ∷ 5 ∷ 8 ∷ 2 ∷ b'c' ∷ 0 ∷ 18 ∷ 16 ∷ [])

abbrev info_reader : TypeReader
info_reader = of_info (reader int_and_chan)

-- The store with the integer.
abbrev int_store : TypeStore
int_store = record {
  heap =
      record {
        common = record { byte_size = 8; name = b'i' ∷ []; reflect_kind = 0; offset = 11 };
        shape = basic_type int_type 0 0;
      }
      ∷ [];
  cache = (11, 0) ∷ [];
  sig_cache = [];
}

read_int : read_type 1 1 int_and_chan [] "info" info_reader 11 empty_store ≡ (int_store, ok 0)
unfolding read_type read_entry parse_type type_next type_seek type_address_size make_type fill_type
    finish entry_val uint update_at
read_int = refl

read_type-read_type_example :
    read_type 5 5 int_and_chan [] "info" info_reader 11 int_store ≡ (int_store, ok 0)
read_type-read_type_example =
    read_type-read_type 1 4 1 5 int_and_chan [] "info" "info" info_reader info_reader 11 0
      empty_store int_store read_int

read_nothing :
    read_type 1 1 int_and_chan [] "info" info_reader 99 int_store
    ≡ (int_store, err (errorf "offset out of range" []))
unfolding read_type read_entry type_next type_seek
read_nothing = refl

read_type-forgets_example :
    (map_get 99 int_store.cache ≡ none)
    × ((o t : ℕ) → map_get o int_store.cache ≡ some t → map_get o int_store.cache ≡ some t)
read_type-forgets_example =
    read_type-forgets 1 1 int_and_chan [] "info" info_reader 99 int_store int_store
      (errorf "offset out of range" []) read_nothing

abbrev own_chan : Entry
own_chan = record {
  offset = 16;
  tag = 0x16;
  children = false;
  fields =
      record { attr = 3; val = string_value (b'c' ∷ []) }
      ∷ record { attr = 0x2900; val = int64_value 18 }
      ∷ record { attr = 0x2902; val = offset_value 16 }
      ∷ [];
}

own_chan-Finds : Finds int_and_chan 16 own_chan
unfolding type_next type_seek type_address_size uint uint8
own_chan-Finds r = (_, _, refl, refl)

own_chan-IsOwnChan : IsOwnChan 16 own_chan
unfolding entry_val
own_chan-IsOwnChan = record { offset = refl; tag = refl; kind = refl; elem = refl }

own_chan-stuck_example : (read_type 100 5 int_and_chan [] "info" info_reader 16 int_store).1 ≡ stuck
own_chan-stuck_example =
    own_chan-stuck 5 int_and_chan [] "info" 16 own_chan 100 (reader int_and_chan) int_store
      own_chan-Finds own_chan-IsOwnChan refl
