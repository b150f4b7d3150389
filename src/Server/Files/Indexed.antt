-- ===== src/Server/Files/Indexed.antt =====
-- server/server.go: the index of an open file is its slot.
use debug.Common.{
  ◌==◌, Bool-cases, get_elem?, Bytes, ℕ, zero, suc, ◌≡◌, refl, sym, ap, ◌∙◌, inl, inr, Option, none,
  some, [], ◌∷◌, arith,
}
use debug.Common.Result.{Error, Result, ok, err}
use debug.Common.Effect.{bind-keeps}
use debug.Common.Int.{ℤ}
use debug.Server.Files.Slots.{get_elem?-put}
use debug.Server.Files.{
  Disk, File, Files, flag_of, first_free, set_at, put, find, open_with, handle_open, handle_close,
}

-- Each open file is in the slot that its index names.
abbrev pub IsIndexed : {F : Type 0} → Files F → Type 0
IsIndexed {F} files = (i : ℕ) (f : File F) → get_elem? files i ≡ some (some f) → f.index ≡ i

keeps_taken :
    {S A B : Type 0} (P : S → Type 0) (o : Option A) (s : S) (e : Error) (f : A → S × Result B)
    → P s
    → ((a : A) → P (f a).0)
    → P (elim o as (λ o. S × Result B) [ none ↦ (s, err e) | some a ↦ f a ]).0
keeps_taken P none s e f h k = h
keeps_taken P (some a) s e f h k = k a

put-IsIndexed :
    {F : Type 0} (files : Files F) (mode : Bytes) (f : F)
    → IsIndexed files
    → IsIndexed
        (put (first_free files) (record { mode = mode; index = first_free files; f = f }) files)
put-IsIndexed files mode f h i g e = elim (Bool-cases (i == first_free files)) [
  | inl here ↦
      let it : some (some g)
          ≡ some (some (record { mode = mode; index = first_free files; f = f })) =
        sym e
        ∙ get_elem?-put (record { mode = mode; index = first_free files; f = f }) files i
        ∙ rw here refl in
      let same : g ≡ record { mode = mode; index = first_free files; f = f } = cc in
      ground (arith, ap (λ y. y.index) same, here)
  | inr other ↦ h i g (
      sym (
        sym e
        ∙ get_elem?-put (record { mode = mode; index = first_free files; f = f }) files i
        ∙ rw other refl))
]

set_at-IsIndexed :
    {F : Type 0} (slot : ℕ) (files : Files F) (i : ℕ) (f : File F)
    → get_elem? (set_at slot none files) i ≡ some (some f)
    → get_elem? files i ≡ some (some f)
set_at-IsIndexed slot [] i f e = e
set_at-IsIndexed zero (x ∷ xs) zero f e = absurd (ground (arith, e))
set_at-IsIndexed zero (x ∷ xs) (suc i) f e = e
set_at-IsIndexed (suc slot) (x ∷ xs) zero f e = e
set_at-IsIndexed (suc slot) (x ∷ xs) (suc i) f e = set_at-IsIndexed slot xs i f e

-- Whatever they come to, Open and Close keep each open file in the slot that its index names.
pub handle_open-IsIndexed :
    {W F : Type 0} (disk : Disk W F) (files : Files F) (w : W)
    → IsIndexed files
    → ((name mode : Bytes) (fd : ℕ) → IsIndexed (handle_open disk name mode fd (files, w)).0.0)
      × ((fd : ℤ) → IsIndexed (handle_close disk fd (files, w)).0.0)
unfolding handle_open handle_close
handle_open-IsIndexed {W} {F} disk files w h = (
  λ name mode fd.
      keeps_taken (λ (y : Files F × W). IsIndexed y.0) (flag_of mode) (files, w) _
        (λ flag. open_with disk name mode fd flag (files, w)) h
        (λ flag.
          bind-keeps (λ (y : Files F × W). IsIndexed y.0)
            ((files, (disk.open_file name flag w).0), (disk.open_file name flag w).1) _ h
            (λ f sw k. put-IsIndexed sw.0 mode f k)),
  λ fd.
      keeps_taken (λ (y : Files F × W). IsIndexed y.0) (find fd files) (files, w) _
        (λ slot.
          ((set_at slot.0 none files, (disk.close slot.1.f w).0), ok (disk.close slot.1.f w).1))
        h (λ slot i f e. h i f (set_at-IsIndexed slot.0 files i f e)),
)
