-- ===== src/Dwarf/Entry/Runs.antt =====
-- Runs of the abbreviation tables of dwarf/entry.go.
use debug.Common.{little_endian, ◌≡◌, refl, false, [], ◌∷◌}
use debug.Dwarf.Buf.{uint8, uint}
use debug.Common.Result.{ok, Answers}
use debug.Common.Slices.{tail_from}
use debug.Dwarf.Data.{Data}
use debug.Dwarf.Entry.Tables.{IsKept, parse_abbrev_total}
use debug.Dwarf.Entry.{read_abbrevs, parse_abbrev}

-- Id 1, tag 0x11, no children, attribute 3 in form 8; no more ids.
abbrev one_abbrev : Data
one_abbrev = record {
  abbrevs = 1 ∷ 0x11 ∷ 0 ∷ 3 ∷ 8 ∷ 0 ∷ 0 ∷ 0 ∷ [];
  frame = [];
  info = [];
  line = [];
  str = [];
  order = little_endian;
  units = [];
}

parse_abbrev_total_example : Answers (IsKept [] 0) (parse_abbrev one_abbrev [] 0)
parse_abbrev_total_example = parse_abbrev_total one_abbrev [] 0

one_table :
    read_abbrevs one_abbrev 0
    ≡ ok (
        (1, record { tag = 0x11; children = false; field = record { attr = 3; fmt = 8 } ∷ [] })
        ∷ [])
unfolding read_abbrevs uint uint8 tail_from
one_table = refl
