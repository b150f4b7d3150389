-- ===== src/Server/Files/Runs.antt =====
-- Runs of the open files of server/server.go.
use debug.Common.{length, Bytes, ℕ, zero, suc, ◌≡◌, refl, none, some, [], ◌∷◌, arith}
use debug.Common.Result.{ok}
use debug.Common.Int.{pos}
use debug.Dwarf.Line.Paths.{bytes_eq}
use debug.Server.Files.Slots.{handle_close-handle_open}
use debug.Server.Files.Indexed.{IsIndexed}
use debug.Server.Files.{Disk, File, Files, handle_open, handle_close}

-- A file is a number; the state is the next one.
abbrev numbers : Disk ℕ ℕ
numbers = record {
  open_file = λ name flag w. (suc w, ok w);
  read_at = λ f buf off w. (w, (buf, (length buf, none)));
  close = λ f w. (w, none);
}

abbrev read_mode : Bytes
read_mode = b'r' ∷ []

abbrev file_at : ℕ → ℕ → File ℕ
file_at i f = record { mode = read_mode; index = i; f = f }

-- The first slot is taken, the second is free, the third is taken.
abbrev with_hole : Files ℕ
with_hole = some (file_at 0 7) ∷ none ∷ some (file_at 2 8) ∷ []

abbrev hole_filled : Files ℕ
hole_filled = some (file_at 0 7) ∷ some (file_at 1 9) ∷ some (file_at 2 8) ∷ []

with_hole-open : handle_open numbers [] read_mode 0 (with_hole, 9) ≡ ((hole_filled, 10), ok 0)
unfolding handle_open bytes_eq
with_hole-open = refl

hole_filled-close : handle_close numbers (pos 1) (hole_filled, 10) ≡ ((with_hole, 10), ok none)
unfolding handle_close
hole_filled-close = refl

with_hole-IsIndexed : IsIndexed with_hole
with_hole-IsIndexed zero f e = ground (arith, e)
with_hole-IsIndexed (suc zero) f e = absurd (ground (arith, e))
with_hole-IsIndexed (suc (suc zero)) f e = ground (arith, e)
with_hole-IsIndexed (suc (suc (suc i))) f e = absurd (ground (arith, e))

handle_close-handle_open_example : with_hole ≡ with_hole
handle_close-handle_open_example =
    handle_close-handle_open numbers [] read_mode 0 0 with_hole hole_filled with_hole 9 10 10 10
      none with_hole-open hole_filled-close
