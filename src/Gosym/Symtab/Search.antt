-- ===== src/Gosym/Symtab/Search.antt =====
-- gosym/symtab.go: PCToFunc on functions in order.
use mathlib.Core.List.{append_assoc}
use mathlib.Core.Path.{subst}
use debug.Common.{
  ltb, leb, ◌==◌, Bool-cases, length, get_elem?, take, drop, All, length-take, length-drop,
  All-append, All-map, All-front, All-middle, ℕ, zero, suc, ◌+◌, ◌/◌, ◌≤◌, ◌<◌, ◌≡◌, refl, sym, ap,
  ◌∙◌, ◌⊎◌, inl, inr, true, false, ◌&&◌, Option, none, some, List, [], ◌∷◌, ◌++◌, arith,
}
use debug.Common.Result.{Result, ok}
use debug.Gosym.Symtab.Table.{Func, search_loop, pc_to_func}

abbrev pub Covers : ℕ → Func → Type 0
Covers pc f = (f.entry ≤ pc) × (pc < f.end)

-- Each function ends no earlier than it starts, and no later than every function behind it starts.
abbrev pub AreOrdered : List Func → Type 0
AreOrdered [] = Unit
AreOrdered (f ∷ fs) = (f.entry ≤ f.end) × (All (λ (g : Func). f.end ≤ g.entry) fs × AreOrdered fs)

-- What is known of the functions before and behind one of them.
AreOrdered-middle :
    (xs : List Func) (f : Func) (ys : List Func)
    → AreOrdered (xs ++ f ∷ ys)
    → AreOrdered xs
      × (All (λ (g : Func). g.end ≤ f.entry) xs
          × ((f.entry ≤ f.end) × (All (λ (g : Func). f.end ≤ g.entry) ys × AreOrdered ys)))
AreOrdered-middle [] f ys h = (tt, (tt, h))
AreOrdered-middle (x ∷ xs) f ys (some_size, (behind, rest)) =
    let (front, (before, others)) = AreOrdered-middle xs f ys rest in
    (
      (some_size, (All-front (λ (g : Func). x.end ≤ g.entry) xs (f ∷ ys) behind, front)),
      ((All-middle (λ (g : Func). x.end ≤ g.entry) xs f ys behind, before), others),
    )

split_at :
    {A : Type 0} (m : ℕ) (xs : List A) (a : A)
    → get_elem? xs m ≡ some a
    → xs ≡ take m xs ++ a ∷ drop (m + 1) xs
split_at m [] a h = absurd (ground (arith, h))
split_at zero (x ∷ xs) a h = ground (arith, h)
split_at (suc m) (x ∷ xs) a h =
    let e : suc m + 1 ≡ suc (m + 1) = omega arith in rw e (ap (◌∷◌ x) (split_at m xs a h))

get_elem?-inside :
    {A : Type 0} (m : ℕ) (xs : List A) → m < length xs → (a : A) × (get_elem? xs m ≡ some a)
get_elem?-inside m [] h = absurd (omega arith)
get_elem?-inside zero (x ∷ xs) h = (x, refl)
get_elem?-inside (suc m) (x ∷ xs) h = get_elem?-inside m xs (omega arith)

-- The answer of the search, and that it is right.
abbrev pub IsFound : ℕ → List Func → Result (Option Func) → Type 0
IsFound pc funcs r =
    ((f : Func) × (before : List Func) × (behind : List Func) × (r ≡ ok (some f))
      × (funcs ≡ before ++ f ∷ behind)
      × Covers pc f)
    ⊎ ((r ≡ ok none) × All (λ f. ¬ Covers pc f) funcs)

IsFound-front :
    (pc : ℕ) (xs : List Func) (f : Func) (ys : List Func) (r : Result (Option Func))
    → IsFound pc xs r
    → ¬ Covers pc f
    → All (λ g. ¬ Covers pc g) ys
    → IsFound pc (xs ++ f ∷ ys) r
IsFound-front pc xs f ys r (inl (g, before, behind, answer, split, covers)) not_f not_ys = inl (
  g,
  before,
  behind ++ f ∷ ys,
  answer,
  ap (λ zs. zs ++ f ∷ ys) split ∙ append_assoc before (g ∷ behind) (f ∷ ys),
  covers,
)
IsFound-front pc xs f ys r (inr (answer, not_xs)) not_f not_ys =
    inr (answer, All-append (λ g. ¬ Covers pc g) xs (f ∷ ys) not_xs (not_f, not_ys))

IsFound-back :
    (pc : ℕ) (xs : List Func) (f : Func) (ys : List Func) (r : Result (Option Func))
    → IsFound pc ys r
    → ¬ Covers pc f
    → All (λ g. ¬ Covers pc g) xs
    → IsFound pc (xs ++ f ∷ ys) r
IsFound-back pc xs f ys r (inl (g, before, behind, answer, split, covers)) not_f not_xs = inl (
  g,
  xs ++ f ∷ before,
  behind,
  answer,
  ap (λ zs. xs ++ f ∷ zs) split ∙ sym (append_assoc xs (f ∷ before) (g ∷ behind)),
  covers,
)
IsFound-back pc xs f ys r (inr (answer, not_ys)) not_f not_xs =
    inr (answer, All-append (λ g. ¬ Covers pc g) xs (f ∷ ys) not_xs (not_f, not_ys))

search_loop-IsFound :
    (fuel pc : ℕ) (funcs : List Func)
    → AreOrdered funcs
    → length funcs < fuel
    → IsFound pc funcs (search_loop fuel pc funcs)
unfolding search_loop
search_loop-IsFound zero pc funcs ordered h = absurd (omega arith)
search_loop-IsFound (suc fuel) pc [] ordered h = inr (refl, tt)
search_loop-IsFound (suc fuel) pc (g ∷ gs) ordered h =
    let funcs = g ∷ gs in
    let m = length funcs / 2 in
    let (f, at) = get_elem?-inside m funcs (omega arith) in
    let split : funcs ≡ take m funcs ++ f ∷ drop (m + 1) funcs = split_at m funcs f at in
    let (front, (before, (some_size, (behind, back)))) =
      AreOrdered-middle (take m funcs) f (drop (m + 1) funcs) (subst AreOrdered split ordered) in
    let some_left : (length funcs == 0) ≡ false = ground arith in
    rw (some_left, at)
      (elim (Bool-cases (ltb pc f.entry)) [
        | inl low ↦ rw low (
            subst (λ fs. IsFound pc fs (search_loop fuel pc (take m funcs))) (sym split)
              (IsFound-front pc (take m funcs) f (drop (m + 1) funcs) _
                (search_loop-IsFound fuel pc (take m funcs) front
                  (omega (arith, length-take m funcs, h)))
                (λ c. ground (arith, c.0, low))
                (All-map (drop (m + 1) funcs)
                  (λ g high c. ground (arith, c.0, high, low, some_size)) behind)))
        | inr reached ↦ elim (Bool-cases (ltb pc f.end)) [
          | inl inside ↦
              let here : (leb f.entry pc && ltb pc f.end) ≡ true = ground arith in
              rw (reached, here)
                (inl
                  (f, take m funcs, drop (m + 1) funcs, refl, split, (ground arith, ground arith)))
          | inr outside ↦
              let not_here : (leb f.entry pc && ltb pc f.end) ≡ false = ground arith in
              rw (reached, not_here)
                (subst (λ fs. IsFound pc fs (search_loop fuel pc (drop (m + 1) funcs))) (sym split)
                  (IsFound-back pc (take m funcs) f (drop (m + 1) funcs) _
                    (search_loop-IsFound fuel pc (drop (m + 1) funcs) back
                      (omega (arith, length-drop (m + 1) funcs, h)))
                    (λ c. ground (arith, c.1, outside))
                    (All-map (take m funcs) (λ g low c. ground (arith, c.1, low, reached)) before)))
        ]
      ])

-- On functions in order PCToFunc gives the one that covers the PC, or nil where none does.
pub pc_to_func-IsFound :
    (pc : ℕ) (funcs : List Func) → AreOrdered funcs → IsFound pc funcs (pc_to_func funcs pc)
unfolding pc_to_func
pc_to_func-IsFound pc funcs ordered =
    search_loop-IsFound (suc (length funcs)) pc funcs ordered (omega arith)
