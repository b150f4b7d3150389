-- ===== src/Server/Variables/Elements.antt =====
-- server/server.go: which entry of a map handleMapElement gives.
use debug.Common.{
  leb, ◌==◌, if◌then◌else◌, Bool-cases, length, get_elem?, All, u64, ℕ, zero, suc, ◌+◌, ◌^◌, ◌≤◌,
  ◌<◌, ◌≡◌, refl, sym, ap, ◌∙◌, ◌⊎◌, inl, inr, Bool, true, false, Option, none, some, List, [], ◌∷◌,
  ◌++◌, arith,
}
use debug.Server.Variables.{Element, take_element, map_element}
use debug.Arch.{amd64}
use debug.Common.Result.{errorf, Result, ok, err}
use debug.Dwarf.Types.{CommonType, TypeHeap, common_of}
use debug.Server.Peek.Walk.{fold_until, IsStill, entries_in_all, IsArray, walk_map-entries}
use debug.Common.Effect.{Effect}
use debug.Dwarf.Types.Units.{TypeSigs}
use debug.Dwarf.Data.{Data}
use debug.Server.Kernel.{Kernel}
use debug.Server.Breakpoints.{Server}
use debug.Server.Peek.Maps.{Layout, map_layout, peek_map_values}

found_or_short :
    {A : Type 0} (xs : List A) (i : ℕ)
    → ((x : A) × (get_elem? xs i ≡ some x)) ⊎ ((get_elem? xs i ≡ none) × (length xs ≤ i))
found_or_short [] i = inr (refl, omega arith)
found_or_short (x ∷ xs) zero = inl (x, refl)
found_or_short (x ∷ xs) (suc i) = elim (found_or_short xs i) [
  | inl found ↦ inl found
  | inr (none_there, short) ↦ inr (none_there, omega arith)
]

module _ (kc vc : CommonType) (index : ℕ) where
  -- The response where an entry's key and value are at these addresses.
  abbrev pub element_of : ℕ × ℕ → Element
  element_of x = record {
    key = some (record { type_id = kc.offset; address = x.0 });
    value = some (record { type_id = vc.offset; address = x.1 });
    count = index + 1;
  }

  -- The entry number `index`, or that there is none.
  abbrev pub or_missing : Option (ℕ × ℕ) → Result Element
  or_missing none = err (errorf "map has no element %d" (index ∷ []))
  or_missing (some x) = ok (element_of x)

  abbrev pub element_at : List (ℕ × ℕ) → Result Element
  element_at xs = or_missing (get_elem? xs index)

  -- What the function fn does, without its panics.
  abbrev taken : Element → ℕ × ℕ → Element × Bool
  taken e x =
      if u64 (e.count + 1) == u64 (index + 1)
      then (
        record {
          key = some (record { type_id = kc.offset; address = x.0 });
          value = some (record { type_id = vc.offset; address = x.1 });
          count = u64 (e.count + 1);
        },
        false,
      )
      else (record e { count = u64 (e.count + 1) }, true)

  abbrev counted : ℕ → Element
  counted n = record { key = none; value = none; count = n }

  -- What is left of the counting behind n entries.
  abbrev rest_of : ℕ → Option (ℕ × ℕ) → ℕ → Element
  rest_of n none len = counted (n + len)
  rest_of n (some x) len = element_of x

  rest_of-suc :
      (n : ℕ) (o : Option (ℕ × ℕ)) (len : ℕ) → rest_of (n + 1) o len ≡ rest_of n o (suc len)
  rest_of-suc n none len = ap counted (omega arith)
  rest_of-suc n (some x) len = refl

  -- What handleMapElement answers behind the walk.
  abbrev answer : {W : Type 0} → Element → W → W × Result Element
  answer e w =
      if leb e.count index
      then (w, err (errorf "map has no element %d" (index ∷ [])))
      else (w, ok e)

  answer-element_at :
      {W : Type 0} (xs : List (ℕ × ℕ)) (w : W)
      → answer (rest_of 0 (get_elem? xs index) (length xs)) w ≡ (w, element_at xs)
  answer-element_at xs w = elim (found_or_short xs index) [
    | inl (x, found) ↦
        let over : leb (index + 1) index ≡ false = ground arith in
        ap (λ o. answer (rest_of 0 o (length xs)) w) found
        ∙ rw over refl
        ∙ ap (λ o. (w, or_missing o)) (sym found)
    | inr (none_there, short) ↦
        let under : leb (0 + length xs) index ≡ true = ground (arith, short) in
        ap (λ o. answer (rest_of 0 o (length xs)) w) none_there
        ∙ rw under refl
        ∙ ap (λ o. (w, or_missing o)) (sym none_there)
  ]

  taken-counts :
      (xs : List (ℕ × ℕ)) (n i : ℕ)
      → n + i ≡ index
      → index < 2 ^ 64
      → n + length xs < 2 ^ 64
      → (fold_until taken (counted n) xs).0 ≡ rest_of n (get_elem? xs i) (length xs)
  unfolding fold_until
  taken-counts [] n i e lt short = ap counted (omega arith)
  taken-counts (x ∷ xs) n zero e lt short =
      let here : (u64 (n + 1) == u64 (index + 1)) ≡ true = ground (arith, e) in
      let size : u64 (n + 1) ≡ index + 1 = ground (arith, e, short) in
      rw (here, fold_until) (rw size refl)
  taken-counts (x ∷ xs) n (suc i) e lt short =
      let later : (u64 (n + 1) == u64 (index + 1)) ≡ false = ground (arith, e, short, lt) in
      let size : u64 (n + 1) ≡ n + 1 = ground (arith, short) in
      rw (later, fold_until)
        (rw size (
          taken-counts xs (n + 1) i (omega arith) lt (omega arith)
          ∙ rest_of-suc n (get_elem? xs i) (length xs)))

module _ {W : Type 0} (k : Kernel W) (s : Server) (d : Data) (sigs : TypeSigs) {F32 F64 : Type 0}
    (from32 : ℕ → F32) (from64 : ℕ → F64) (fuel entries : ℕ) (h : TypeHeap) (l : Layout)
    (kc vc : CommonType) (key_is : common_of h l.key_type ≡ ok kc)
    (value_is : common_of h l.value_type ≡ ok vc) (index : ℕ) where
  take_element-taken :
      (ka va : ℕ) (e : Element) (w : W)
      → take_element k s d sigs from32 from64 fuel entries h index ka va l.key_type l.value_type
          (e, w)
        ≡ (((taken kc vc index e (ka, va)).0, w), ok (taken kc vc index e (ka, va)).1)
  unfolding take_element
  take_element-taken ka va e w = elim (Bool-cases (u64 (e.count + 1) == u64 (index + 1))) [
    | inl here ↦ rw (here, take_element) (rw key_is (rw value_is refl))
    | inr later ↦ rw (later, take_element) refl
  ]

  module _ (m : ℕ → ℕ) (still : IsStill k m) (on_amd64 : s.arch ≡ amd64) where
    -- On an amd64 target that stands still MapElement gives the key and the value of the
    -- entry with the number that it is asked for, in the order in which peekMapValues meets
    -- the map's entries, or an error where there are not so many. This is for a map whose
    -- layout can be read and whose overflow pointers lead to nil, with key and value types
    -- that are not nil, with numbers that fit in 64 bits, and with more fuel than any chain
    -- has buckets.
    pub map_element-element_at :
        (u : Option ℕ) (address : ℕ) (chains olds : List (List ℕ)) (w : W)
        → map_layout k s h u address w ≡ (w, ok (some l))
        → IsArray m l l.buckets chains
        → IsArray m l l.oldbuckets olds
        → All (λ bs. length bs < fuel) chains
        → All (λ bs. length bs < fuel) olds
        → index < 2 ^ 64
        → length (entries_in_all m l chains ++ entries_in_all m l olds) < 2 ^ 64
        → map_element k s d sigs from32 from64 fuel entries h u address index w
          ≡ (w, element_at kc vc index (entries_in_all m l chains ++ entries_in_all m l olds))
    unfolding map_element peek_map_values
    map_element-element_at u address chains olds w laid c o les les' lt short =
        let xs = entries_in_all m l chains ++ entries_in_all m l olds in
        let visit : ℕ → ℕ → Option ℕ → Option ℕ → Effect (Element × W) Bool =
          take_element k s d sigs from32 from64 fuel entries h index in
        rw (laid, map_element)
          (rw
            (walk_map-entries k s h m still on_amd64 visit l (taken kc vc index) take_element-taken
              fuel chains olds (counted kc vc index 0) w c o les les')
            (rw (taken-counts kc vc index xs 0 index (omega arith) lt (omega (arith, short)))
              (answer-element_at kc vc index xs w)))
