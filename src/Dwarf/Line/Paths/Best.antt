-- ===== src/Dwarf/Line/Paths/Best.antt =====
-- dwarf/line.go: the file that LineToPCs chooses.
use debug.Common.{
  ltb, ◌==◌, if◌then◌else◌, Bool-cases, length, get_elem?, All, Bytes, ℕ, suc, ◌+◌, ◌≤◌, ◌<◌, ◌≡◌,
  refl, ap, ◌∙◌, ◌⊎◌, inl, inr, Bool, true, false, not, some, List, [], ◌∷◌, arith,
}
use debug.Dwarf.Line.{LineFile}
use debug.Dwarf.Line.Paths.{
  has_prefix, matching_path_component_suffix_size, BestFile, same_bool, better, best_loop, no_file,
}

abbrev measures : ℕ → ℕ → Bool → ℕ → BestFile
measures num c under size = record {
  file_num = num;
  components = c;
  size = size;
  under_comp = under;
}

-- A file that does not take the place of `best` does not take that of a better one either.
not_better_trans :
    (best : BestFile) (c c' size size' num : ℕ) (under under' : Bool)
    → better c' under' size' best ≡ true
    → better c under size best ≡ false
    → better c under size (measures num c' under' size') ≡ false
unfolding better
not_better_trans best c c' size size' num under under' up down =
    go under under' best.under_comp up down
  where
    rank : ℕ → Bool → ℕ → Bool → Bool
    rank k u s w =
        if not (k == best.components)
        then ltb best.components k
        else if not (same_bool u w)
        then u
        else ltb s best.size

    go :
        (u u' w : Bool)
        → rank c' u' size' w ≡ true
        → rank c u size w ≡ false
        → (if not (c == c') then ltb c' c else if not (same_bool u u') then u else ltb size size')
          ≡ false
    go true true true p q = ground arith
    go true true false p q = ground arith
    go true false true p q = ground arith
    go true false false p q = ground arith
    go false true true p q = ground arith
    go false true false p q = ground arith
    go false false true p q = ground arith
    go false false false p q = ground arith

not_better_self :
    (num c : ℕ) (under : Bool) (size : ℕ) → better c under size (measures num c under size) ≡ false
unfolding better
not_better_self num c true size = ground arith
not_better_self num c false size = ground arith

-- A file with these measures comes behind `best`, or level with it: fewer components match, or as many but only
-- `best` is under the compilation directory, or they are level there and its name is not shorter.
abbrev pub Behind : ℕ → Bool → ℕ → BestFile → Type 0
Behind c under size best =
    (c < best.components)
    ⊎ ((c ≡ best.components)
        × (((under ≡ false) × (best.under_comp ≡ true))
            ⊎ ((under ≡ best.under_comp) × (best.size ≤ size))))

better-Behind :
    (c size : ℕ) (under : Bool) (best : BestFile)
    → better c under size best ≡ false
    → Behind c under size best
unfolding better
better-Behind c size under best = go under best.under_comp
  where
    go :
        (u w : Bool)
        → (if not (c == best.components)
            then ltb best.components c
            else if not (same_bool u w)
            then u
            else ltb size best.size)
          ≡ false
        → (c < best.components)
          ⊎ ((c ≡ best.components) × (((u ≡ false) × (w ≡ true)) ⊎ ((u ≡ w) × (best.size ≤ size))))
    go true true h = ground arith
    go true false h = ground arith
    go false true h = ground arith
    go false false h = ground arith

module _ (comp_dir name : Bytes) where
  abbrev suffix : LineFile → ℕ
  suffix f = matching_path_component_suffix_size f.name name

  abbrev under : LineFile → Bool
  under f = has_prefix f.name comp_dir

  -- The file does not rank before `best`.
  abbrev NotBetter : BestFile → LineFile → Type 0
  NotBetter best f = better (suffix f) (under f) (length f.name) best ≡ false

  abbrev pub BehindBest : BestFile → LineFile → Type 0
  BehindBest best f = Behind (suffix f) (under f) (length f.name) best

  All-BehindBest :
      (best : BestFile) (fs : List LineFile) → All (NotBetter best) fs → All (BehindBest best) fs
  All-BehindBest best [] h = tt
  All-BehindBest best (f ∷ fs) h =
      (better-Behind (suffix f) (length f.name) (under f) best h.0, All-BehindBest best fs h.1)

  -- `best` holds the number of a file of the list, counted from `num`, and its measures.
  abbrev pub Measures : ℕ → List LineFile → BestFile → Type 0
  Measures num fs best =
      (i : ℕ) × (f : LineFile) × (get_elem? fs i ≡ some f)
      × (best ≡ measures (num + i) (suffix f) (under f) (length f.name))

  -- The best of two.
  abbrev next : ℕ → BestFile → LineFile → BestFile
  next num best f =
      if better (suffix f) (under f) (length f.name) best
      then measures num (suffix f) (under f) (length f.name)
      else best

  next_up :
      (num : ℕ) (best : BestFile) (f : LineFile)
      → better (suffix f) (under f) (length f.name) best ≡ true
      → next num best f ≡ measures num (suffix f) (under f) (length f.name)
  next_up num best f up = rw up

  next_down :
      (num : ℕ) (best : BestFile) (f : LineFile)
      → better (suffix f) (under f) (length f.name) best ≡ false
      → next num best f ≡ best
  next_down num best f down = rw down

  next-NotBetter :
      (num : ℕ) (best : BestFile) (f g : LineFile)
      → NotBetter best g
      → NotBetter (next num best f) g
  next-NotBetter num best f g h =
      elim (Bool-cases (better (suffix f) (under f) (length f.name) best)) [
        | inl up ↦ rw up (
            not_better_trans best (suffix g) (suffix f) (length g.name) (length f.name) num
              (under g) (under f) up h)
        | inr down ↦ rw down h
      ]

  next_self : (num : ℕ) (best : BestFile) (f : LineFile) → NotBetter (next num best f) f
  next_self num best f = elim (Bool-cases (better (suffix f) (under f) (length f.name) best)) [
    | inl up ↦ rw up (not_better_self num (suffix f) (under f) (length f.name))
    | inr down ↦ rw (down, down)
  ]

  best_loop-NotBetter :
      (num : ℕ) (best : BestFile) (fs : List LineFile) (g : LineFile)
      → NotBetter best g
      → NotBetter (best_loop comp_dir name num best fs) g
  unfolding best_loop
  best_loop-NotBetter num best [] g h = h
  best_loop-NotBetter num best (f ∷ fs) g h =
      best_loop-NotBetter (num + 1) (next num best f) fs g (next-NotBetter num best f g h)

  best_loop-All :
      (num : ℕ) (best : BestFile) (fs : List LineFile)
      → All (NotBetter (best_loop comp_dir name num best fs)) fs
  unfolding best_loop
  best_loop-All num best [] = tt
  best_loop-All num best (f ∷ fs) = (
    best_loop-NotBetter (num + 1) (next num best f) fs f (next_self num best f),
    best_loop-All (num + 1) (next num best f) fs,
  )

  best_loop-Measures :
      (num : ℕ) (best : BestFile) (fs : List LineFile)
      → (best_loop comp_dir name num best fs ≡ best)
        ⊎ Measures num fs (best_loop comp_dir name num best fs)
  unfolding best_loop
  best_loop-Measures num best [] = inl refl
  best_loop-Measures num best (f ∷ fs) = elim (best_loop-Measures (num + 1) (next num best f) fs) [
    | inr (i, g, at, e) ↦
        let shifted : num + 1 + i ≡ num + suc i = omega arith in
        inr (suc i, g, at, e ∙ ap (λ k. measures k (suffix g) (under g) (length g.name)) shifted)
    | inl kept ↦ elim (Bool-cases (better (suffix f) (under f) (length f.name) best)) [
      | inl up ↦
          let here : num ≡ num + 0 = omega arith in
          inr (
            0,
            f,
            refl,
            kept
                ∙ next_up num best f up
                ∙ ap (λ k. measures k (suffix f) (under f) (length f.name)) here,
          )
      | inr down ↦ inl (kept ∙ next_down num best f down)
    ]
  ]

-- Every file of a header comes behind the one that LineToPCs chooses, or level with it: fewer of its
-- components match, or as many but only the choice is under the compilation directory, or that too
-- is the same and its name is not shorter. The choice is one of the files, with its own number and
-- measures, or the empty one that the search starts from.
pub best_loop-best :
    (comp_dir name : Bytes) (fs : List LineFile)
    → All (BehindBest comp_dir name (best_loop comp_dir name 0 no_file fs)) fs
      × ((best_loop comp_dir name 0 no_file fs ≡ no_file)
          ⊎ Measures comp_dir name 0 fs (best_loop comp_dir name 0 no_file fs))
best_loop-best comp_dir name fs = (
  All-BehindBest comp_dir name _ fs (best_loop-All comp_dir name 0 no_file fs),
  best_loop-Measures comp_dir name 0 no_file fs,
)
