-- ===== src/Server/Files/Slots.antt =====
-- server/server.go: which slot Open takes, and what Close leaves of it.
use debug.Common.{
  ◌==◌, if◌then◌else◌, length, get_elem?, Bytes, ℕ, zero, suc, ◌<◌, ◌≡◌, refl, sym, ap, ◌∙◌, ◌≢◌,
  ◌⊎◌, inl, inr, Option, none, some, List, [], ◌∷◌, ◌++◌, arith,
}
use debug.Common.Result.{Error, errorf, Result, ok, err}
use debug.Common.Effect.{bind-ok}
use debug.Common.Int.{ℤ, pos, negsuc}
use debug.Server.Files.{
  Disk, File, Files, flag_of, first_free, set_at, put, find, open_with, handle_open, handle_read_at,
  handle_close,
}

module _ {A : Type 0} where
  put-suc :
      (i : ℕ) (a : A) (o : Option A) (xs : List (Option A))
      → put (suc i) a (o ∷ xs) ≡ o ∷ put i a xs
  put-suc i a o xs = ground arith

  -- The slot that is taken holds the new value, and every other one what it held.
  pub get_elem?-put :
      (a : A) (xs : List (Option A)) (i : ℕ)
      → get_elem? (put (first_free xs) a xs) i
        ≡ (if i == first_free xs then some (some a) else get_elem? xs i)
  get_elem?-put a [] zero = ground arith
  get_elem?-put a [] (suc i) = ground arith
  get_elem?-put a (none ∷ xs) zero = ground arith
  get_elem?-put a (none ∷ xs) (suc i) = ground arith
  get_elem?-put a (some b ∷ xs) zero =
      ap (λ ys. get_elem? ys 0) (put-suc (first_free xs) a (some b) xs) ∙ ground arith
  get_elem?-put a (some b ∷ xs) (suc i) =
      ap (λ ys. get_elem? ys (suc i)) (put-suc (first_free xs) a (some b) xs)
      ∙ get_elem?-put a xs i
      ∙ ground arith

  pub first_free-taken :
      (xs : List (Option A)) (i : ℕ)
      → i < first_free xs
      → (b : A) × (get_elem? xs i ≡ some (some b))
  first_free-taken [] i h = absurd (omega arith)
  first_free-taken (none ∷ xs) i h = absurd (omega arith)
  first_free-taken (some b ∷ xs) zero h = (b, refl)
  first_free-taken (some b ∷ xs) (suc i) h = first_free-taken xs i (omega arith)

  pub first_free-free :
      (xs : List (Option A))
      → (get_elem? xs (first_free xs) ≡ none) ⊎ (get_elem? xs (first_free xs) ≡ some none)
  first_free-free [] = inl refl
  first_free-free (none ∷ xs) = inr refl
  first_free-free (some b ∷ xs) = first_free-free xs

  -- The list with its slot taken and given free again.
  pub set_at-put :
      (a : A) (xs : List (Option A))
      → set_at (first_free xs) none (put (first_free xs) a xs)
        ≡ (if first_free xs == length xs then xs ++ none ∷ [] else xs)
  set_at-put a [] = refl
  set_at-put a (none ∷ xs) = ground arith
  set_at-put a (some b ∷ xs) =
      ap (set_at (suc (first_free xs)) none) (put-suc (first_free xs) a (some b) xs)
      ∙ ground (arith, set_at-put a xs)

module _ {A : Type 0} where
  get_elem?-set_at :
      (i : ℕ) (x : Option A) (xs : List (Option A)) (j : ℕ)
      → j ≢ i
      → get_elem? (set_at i x xs) j ≡ get_elem? xs j
  get_elem?-set_at i x [] j h = refl
  get_elem?-set_at zero x (y ∷ ys) zero h = absurd (h refl)
  get_elem?-set_at zero x (y ∷ ys) (suc j) h = refl
  get_elem?-set_at (suc i) x (y ∷ ys) zero h = refl
  get_elem?-set_at (suc i) x (y ∷ ys) (suc j) h = get_elem?-set_at i x ys j (λ e. h (ap suc e))

  find-pos :
      (n : ℕ) (xs : List (Option A)) (slot : ℕ × A) → find (pos n) xs ≡ some slot → slot.0 ≡ n
  find-pos n xs slot h = ground (arith, h)

  find-fd :
      (fd : ℤ) (xs : List (Option A)) (slot : ℕ × A) → find fd xs ≡ some slot → pos slot.0 ≡ fd
  find-fd (pos n) xs slot h = ap pos (find-pos n xs slot h)
  find-fd (negsuc n) xs slot h = absurd (ground (arith, h))

  find-none : (n : ℕ) (xs : List (Option A)) → find (pos n) (set_at n none xs) ≡ none
  find-none n [] = refl
  find-none zero (x ∷ xs) = refl
  find-none (suc n) (x ∷ xs) = ground (arith, find-none n xs)

  find-set_at :
      (fd : ℤ) (xs : List (Option A)) (slot : ℕ × A)
      → find fd xs ≡ some slot
      → find fd (set_at slot.0 none xs) ≡ none
  find-set_at (pos n) xs slot h =
      ap (λ i. find (pos n) (set_at i none xs)) (find-pos n xs slot h) ∙ find-none n xs
  find-set_at (negsuc n) xs slot h = refl

-- What a success of a step that is taken at a value, and fails at none, says.
pub taken :
    {S A B : Type 0} (o : Option A) (s : S) (e : Error) (f : A → S × Result B) {s' : S} {b : B}
    → (elim o as (λ o. S × Result B) [ none ↦ (s, err e) | some a ↦ f a ]) ≡ (s', ok b)
    → (a : A) × ((o ≡ some a) × (f a ≡ (s', ok b)))
taken none s e f h = absurd (ground (arith, h))
taken (some a) s e f h = (a, (refl, h))

module _ {W F : Type 0} (disk : Disk W F) where
  handle_open-put :
      (name mode : Bytes) (fd fd' : ℕ) (files files' : Files F) (w w' : W)
      → handle_open disk name mode fd (files, w) ≡ ((files', w'), ok fd')
      → (fd' ≡ fd)
        × ((f : F) × (files'
              ≡ put
                  (first_free files)
                  (record { mode = mode; index = first_free files; f = f })
                  files))
  unfolding handle_open
  handle_open-put name mode fd fd' files files' w w' run =
      let (flag, (good, opened)) =
        taken (flag_of mode) _ _ (λ flag. open_with disk name mode fd flag (files, w)) run in
      let (sw, f, at, result) =
        bind-ok ((files, (disk.open_file name flag w).0), (disk.open_file name flag w).1) _
          opened in
      let same : files ≡ sw.0 = ap (λ r. r.0.0) at in
      let left : put (first_free sw.0) (record { mode = mode; index = first_free sw.0; f = f }) sw.0
          ≡ files' =
        ap (λ r. r.0.0) result in
      let response : ok fd ≡ ok fd' = ap (λ r. r.1) result in
      (
        sym (cc),
        (
          f,
          sym left
              ∙ ap
                  (λ (y : Files F).
                    put (first_free y) (record { mode = mode; index = first_free y; f = f }) y)
                  (sym same),
        ),
      )

  handle_close-set_at :
      (fd : ℤ) (files files' : Files F) (w w' : W) (e : Option Error)
      → handle_close disk fd (files, w) ≡ ((files', w'), ok e)
      → (slot : ℕ × File F) × ((find fd files ≡ some slot) × (files' ≡ set_at slot.0 none files))
  unfolding handle_close
  handle_close-set_at fd files files' w w' e run =
      let (slot, (found, closed)) =
        taken (find fd files) _ _
          (λ slot.
            ((set_at slot.0 none files, (disk.close slot.1.f w).0), ok (disk.close slot.1.f w).1))
          run in
      (slot, (found, sym (ap (λ r. r.0.0) closed)))

  -- Closing the file that an Open has put in its slot brings back the slots as they were, with one
  -- free slot more where the Open has added one, and whatever the file's own Close says.
  pub handle_close-handle_open :
      (name mode : Bytes) (fd fd' : ℕ) (files files' files'' : Files F) (w w' w'' w3 : W)
      (e : Option Error)
      → handle_open disk name mode fd (files, w) ≡ ((files', w'), ok fd')
      → handle_close disk (pos (first_free files)) (files', w'') ≡ ((files'', w3), ok e)
      → files'' ≡ (if first_free files == length files then files ++ none ∷ [] else files)
  handle_close-handle_open name mode fd fd' files files' files'' w w' w'' w3 e opened closed =
      let (response, (f, left)) = handle_open-put name mode fd fd' files files' w w' opened in
      let (slot, (found, gone)) =
        handle_close-set_at (pos (first_free files)) files' files'' w'' w3 e closed in
      let where_it_was : slot.0 ≡ first_free files =
        find-pos (first_free files) files' slot found in
      gone
      ∙ (λ i. set_at (where_it_was i) none (left i))
      ∙ set_at-put (record { mode = mode; index = first_free files; f = f }) files

  -- After a Close that has found its file, ReadAt and Close of the same descriptor fail and change
  -- nothing; the other slots are as they were.
  pub handle_close-closed :
      (fd : ℤ) (files files' : Files F) (w w' : W) (e : Option Error)
      → handle_close disk fd (files, w) ≡ ((files', w'), ok e)
      → ((len offset : ℤ) (w1 : W)
          → handle_read_at disk fd len offset (files', w1)
            ≡ ((files', w1), err (errorf "ReadAt: bad file descriptor %d" [])))
        × (((w1 : W)
              → handle_close disk fd (files', w1)
                ≡ ((files', w1), err (errorf "Close: bad file descriptor %d" [])))
            × ((i : ℕ) → pos i ≢ fd → get_elem? files' i ≡ get_elem? files i))
  unfolding handle_read_at handle_close
  handle_close-closed fd files files' w w' e closed =
      let (slot, (found, gone)) = handle_close-set_at fd files files' w w' e closed in
      let bad : find fd files' ≡ none = ap (find fd) gone ∙ find-set_at fd files slot found in
      (
        λ len offset w1. rw (bad, handle_read_at) refl,
        (
          λ w1. rw (bad, handle_close) refl,
          λ i other.
              ap (λ y. get_elem? y i) gone
              ∙ get_elem?-set_at slot.0 none files i
                  (λ same. other (ap pos same ∙ find-fd fd files slot found)),
        ),
      )
