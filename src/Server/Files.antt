-- ===== src/Server/Files.antt =====
-- server/server.go: the files that the server has open. A descriptor is an index in `files`.
pub mod Slots
pub mod Indexed
mod Runs
use debug.Common.{
  leb, ◌==◌, if◌then◌else◌, length, get_elem?, take, replicate, Bytes, ℕ, zero, suc, Option, none,
  some, List, [], ◌∷◌, ◌++◌,
}
use debug.Common.Result.{Error, errorf, ok, err, panic}
use debug.Common.Effect.{Effect, ◌>=>◌}
use debug.Common.Int.{ℤ, pos, negsuc}
use debug.Dwarf.Line.Paths.{bytes_eq}

-- os.O_RDONLY, os.O_WRONLY and os.O_RDWR
pub data Flag : Type 0 where
  read_only write_only read_write : Flag

-- Package os, over the state `W` of the system and its files `F`. ReadAt gives the buffer as it leaves
-- it, the number of bytes it has read, and an error or none.
pub record Disk (W F : Type 0) : Type 0 where
  pub open_file : Bytes → Flag → Effect W F
  pub read_at : F → Bytes → ℤ → W → W × (Bytes × (ℕ × Option Error))
  pub close : F → W → W × Option Error

pub record File (F : Type 0) : Type 0 where
  pub mode : Bytes
  pub index : ℕ
  pub f : F

abbrev pub Files : Type 0 → Type 0
Files F = List (Option (File F))

-- The switch on the mode: "r", "w" or "rw".
unfoldable pub flag_of : Bytes → Option Flag
unfolding bytes_eq
flag_of mode =
    if bytes_eq mode (b'r' ∷ [])
    then some read_only
    else if bytes_eq mode (b'w' ∷ [])
    then some write_only
    else if bytes_eq mode (b'r' ∷ b'w' ∷ [])
    then some read_write
    else none

module _ {A : Type 0} where
  -- The search for a slot.
  abbrev pub first_free : List (Option A) → ℕ
  first_free [] = 0
  first_free (none ∷ xs) = 0
  first_free (some a ∷ xs) = suc (first_free xs)

  -- `xs[i] = x`, for an index of the list.
  abbrev pub set_at : ℕ → Option A → List (Option A) → List (Option A)
  set_at i x [] = []
  set_at zero x (y ∷ ys) = x ∷ ys
  set_at (suc i) x (y ∷ ys) = y ∷ set_at i x ys

  -- The slot is used, or the slice grows by one.
  abbrev pub put : ℕ → A → List (Option A) → List (Option A)
  put i a xs = if i == length xs then xs ++ some a ∷ [] else set_at i (some a) xs

  -- `fd < 0 || len(s.files) <= fd || s.files[fd] == nil`
  abbrev pub find : ℤ → List (Option A) → Option (ℕ × A)
  find (negsuc n) xs = none
  find (pos n) xs = elim (get_elem? xs n) [
    | none ↦ none
    | some o ↦ elim o [ none ↦ none | some a ↦ some (n, a) ]
  ]

module _ {W F : Type 0} (disk : Disk W F) where
  -- Open, behind the switch on the mode. The response's field FD is passed through: it is not
  -- written.
  unfoldable pub open_with : Bytes → Bytes → ℕ → Flag → Effect (Files F × W) ℕ
  open_with name mode fd flag (files, w) =
      let (w', r) = disk.open_file name flag w in
      ((files, w'), r) >=> λ f sw.
      let index = first_free sw.0 in
      ((put index (record { mode = mode; index = index; f = f }) sw.0, sw.1), ok fd)

  unfoldable pub handle_open : Bytes → Bytes → ℕ → Effect (Files F × W) ℕ
  unfolding flag_of open_with
  handle_open name mode fd sw = elim (flag_of mode) [
    | none ↦ (sw, err (errorf "Open: bad open mode %q" mode))
    | some flag ↦ open_with name mode fd flag sw
  ]

  -- The data of the response, and the error that is returned with it.
  unfoldable pub handle_read_at : ℤ → ℤ → ℤ → Effect (Files F × W) (Bytes × Option Error)
  handle_read_at fd len offset (files, w) = elim (find fd files) [
    | none ↦ ((files, w), err (errorf "ReadAt: bad file descriptor %d" []))
    | some slot ↦ elim len [
      | negsuc n ↦ ((files, w), panic)
      | pos n ↦
          let (w', (buf, (count, e))) = disk.read_at slot.1.f (replicate n 0) offset w in
          if leb count (length buf)
          then ((files, w'), ok (take count buf, e))
          else ((files, w'), panic)
    ]
  ]

  unfoldable pub handle_close : ℤ → Effect (Files F × W) (Option Error)
  handle_close fd (files, w) = elim (find fd files) [
    | none ↦ ((files, w), err (errorf "Close: bad file descriptor %d" []))
    | some slot ↦ let (w', e) = disk.close slot.1.f w in ((set_at slot.0 none files, w'), ok e)
  ]
