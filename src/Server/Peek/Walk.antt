-- ===== src/Server/Peek/Walk.antt =====
-- server/peek.go: which entries of a map's buckets peekMapValues visits.
use debug.Common.{
  ltb, ◌==◌, if◌then◌else◌, Bool-cases, length, All, u64, order_uint?, ℕ, zero, suc, ◌+◌, ◌*◌, ◌%◌,
  ◌^◌, ◌<◌, ◌≡◌, refl, sym, ap, ◌∙◌, ◌≢◌, ◌⊎◌, inl, inr, Bool, true, false, not, Option, none, some,
  List, [], ◌∷◌, ◌++◌, arith,
}
use debug.Arch
use debug.Server.Breakpoints.Pokes.{bytes_at}
use debug.Server.Peek.{peek_ptr, peek_uint8}
use debug.Common.Result.{Result, ok}
use debug.Arch.{uintptr, uint_n, amd64}
use debug.Dwarf.Types.{TypeHeap}
use debug.Server.Kernel.{Kernel, ptrace_peek}
use debug.Server.Breakpoints.{Server}
use debug.Common.Effect.{Effect}
use debug.Server.Peek.Maps.{Layout, slots_loop, chain_loop, buckets_loop, bucket_array, walk_map}

-- What a function makes of some entries, one after another, until it says that it is enough.
unfoldable pub fold_until {ℓ κ} :
    {A : Type ℓ} {B : Type κ} → (A → B → A × Bool) → A → List B → A × Bool
fold_until step a [] = (a, true)
fold_until step a (x ∷ xs) =
    let r = step a x in let rest = fold_until step r.0 xs in if r.1 then rest else (r.0, false)

-- The same from what has come of the entries in front.
abbrev pub go_on {ℓ κ} :
    {A : Type ℓ} {B : Type κ} → (A → B → A × Bool) → A × Bool → List B → A × Bool
go_on step r xs = if r.1 then fold_until step r.0 xs else (r.0, false)

fold_until-append {ℓ κ} :
    {A : Type ℓ} {B : Type κ} (step : A → B → A × Bool) (a : A) (xs ys : List B)
    → fold_until step a (xs ++ ys) ≡ go_on step (fold_until step a xs) ys
unfolding fold_until
fold_until-append step a [] ys = refl
fold_until-append step a (x ∷ xs) ys = elim (Bool-cases (step a x).1) [
  | inl more ↦ rw (more, fold_until) (fold_until-append step (step a x).0 xs ys)
  | inr done ↦ rw (done, fold_until) refl
]

-- A target that stands still: every read gives what is in its memory, and changes nothing.
abbrev pub IsStill : {W : Type 0} → Kernel W → (ℕ → ℕ) → Type 0
IsStill k m = (pid a n : ℕ) (w : _) → k.ptrace_peek_text pid a n w ≡ (w, ok (n, bytes_at m a n))

-- The pointer at an address.
abbrev pub word_at : (ℕ → ℕ) → ℕ → ℕ
word_at m a = elim (Arch.uintptr amd64 (bytes_at m a 8)) [ none ↦ 0 | some x ↦ x ]

-- The byte at an address.
abbrev pub byte_at : (ℕ → ℕ) → ℕ → ℕ
byte_at m a = Arch.uint_n amd64 (bytes_at m a 1) % 2 ^ 8

-- The numbers from j on, n of them.
abbrev pub numbers : ℕ → ℕ → List ℕ
numbers j zero = []
numbers j (suc n) = j ∷ numbers (j + 1) n

module _ (m : ℕ → ℕ) (l : Layout) where
  -- An entry holds a key and a value where its hash is none of the marks.
  abbrev pub is_full : ℕ → ℕ → Bool
  is_full bucket j = not (ltb (byte_at m (u64 (bucket + l.tophash_offset + j))) 4)

  -- The addresses of the key and the value of an entry.
  abbrev pub slot : ℕ → ℕ → ℕ × ℕ
  slot bucket j = (
    u64 (bucket + l.keys_offset + j * l.keys_stride),
    u64 (bucket + l.values_offset + j * l.values_stride),
  )

  -- The full ones among some entries.
  abbrev pub full_slots : ℕ → List ℕ → List (ℕ × ℕ)
  full_slots bucket [] = []
  full_slots bucket (j ∷ js) =
      if is_full bucket j then slot bucket j ∷ full_slots bucket js else full_slots bucket js

  -- The full entries of a bucket.
  abbrev pub entries_of : ℕ → List (ℕ × ℕ)
  entries_of bucket = full_slots bucket (numbers 0 l.bucket_cnt)

  -- The overflow pointers lead through these buckets to nil.
  abbrev pub IsChain : ℕ → List ℕ → Type 0
  IsChain a [] = a ≡ 0
  IsChain a (b ∷ bs) = (a ≡ b) × (a ≢ 0) × IsChain (word_at m (u64 (a + l.overflow_offset))) bs

  -- Those of some buckets, one after another.
  abbrev pub entries_in : List ℕ → List (ℕ × ℕ)
  entries_in [] = []
  entries_in (b ∷ bs) = entries_of b ++ entries_in bs

  -- The chains of the buckets of an array from number i on.
  abbrev pub AreChains : ℕ → ℕ → List (List ℕ) → Type 0
  AreChains addr i [] = Unit {0}
  AreChains addr i (bs ∷ chains) =
      IsChain (u64 (addr + i * l.bucket_size)) bs × AreChains addr (i + 1) chains

module _ (m : ℕ → ℕ) (l : Layout) where
  abbrev pub entries_in_all : List (List ℕ) → List (ℕ × ℕ)
  entries_in_all [] = []
  entries_in_all (bs ∷ chains) = entries_in m l bs ++ entries_in_all chains

  -- An array of buckets has these chains, or is nil.
  abbrev pub IsArray : ℕ × ℕ → List (List ℕ) → Type 0
  IsArray x chains =
      ((x.0 ≡ 0) × (chains ≡ [])) ⊎ ((x.0 ≢ 0) × (length chains ≡ x.1) × AreChains m l x.0 0 chains)

module _ {W : Type 0} (k : Kernel W) (s : Server) (h : TypeHeap) (m : ℕ → ℕ) (still : IsStill k m)
    (on_amd64 : s.arch ≡ amd64) where
  peek_uint8-still : (a : ℕ) (w : W) → peek_uint8 k s h a w ≡ (w, ok (byte_at m a))
  unfolding peek_uint8 ptrace_peek
  peek_uint8-still a w = rw on_amd64 (rw (still s.stopped_pid a 1 w) refl)

  peek_ptr-still : (a : ℕ) (w : W) → peek_ptr k s h a w ≡ (w, ok (word_at m a))
  unfolding peek_ptr ptrace_peek Arch.uintptr order_uint?
  peek_ptr-still a w = rw on_amd64 (rw (still s.stopped_pid a 8 w) refl)

  module _ {A : Type 0} (visit : ℕ → ℕ → Option ℕ → Option ℕ → Effect (A × W) Bool) (l : Layout)
      (step : A → ℕ × ℕ → A × Bool)
      (does : (ka va : ℕ) (a : A) (w : W)
        → visit ka va l.key_type l.value_type (a, w)
          ≡ (((step a (ka, va)).0, w), ok (step a (ka, va)).1)) where
    abbrev gave : A × Bool → W → (A × W) × Result Bool
    gave x w = ((x.0, w), ok x.1)

    slots_loop-full :
        (n j bucket : ℕ) (a : A) (w : W)
        → slots_loop k s h visit l n j bucket (a, w)
          ≡ gave (fold_until step a (full_slots m l bucket (numbers j n))) w
    unfolding slots_loop fold_until
    slots_loop-full zero j bucket a w = refl
    slots_loop-full (suc n) j bucket a w =
        rw (peek_uint8-still (u64 (bucket + l.tophash_offset + j)) w, slots_loop)
          (elim (Bool-cases (ltb (byte_at m (u64 (bucket + l.tophash_offset + j))) 4)) [
            | inl mark ↦ rw mark (slots_loop-full n (j + 1) bucket a w)
            | inr full ↦ rw full (
                rw (does (slot m l bucket j).0 (slot m l bucket j).1 a w)
                  (elim (Bool-cases (step a (slot m l bucket j)).1) [
                    | inl more ↦
                        rw more (slots_loop-full n (j + 1) bucket (step a (slot m l bucket j)).0 w)
                    | inr done ↦ rw done refl
                  ]))
          ])

    chain_loop-entries :
        (fuel b : ℕ) (bs : List ℕ) (a : A) (w : W)
        → IsChain m l b bs
        → length bs < fuel
        → chain_loop k s h visit l fuel b (a, w) ≡ gave (fold_until step a (entries_in m l bs)) w
    unfolding chain_loop fold_until
    chain_loop-entries zero b bs a w c le = absurd (omega arith)
    chain_loop-entries (suc fuel) b [] a w c le = rw c refl
    chain_loop-entries (suc fuel) b (b' ∷ bs) a w (same, there, c) le =
        let some_bucket : (b == 0) ≡ false = ground arith in
        let next = word_at m (u64 (b + l.overflow_offset)) in
        let first = fold_until step a (entries_of m l b) in
        let all_of : fold_until step a (entries_in m l (b' ∷ bs))
            ≡ go_on step first (entries_in m l bs) =
          ap (λ y. fold_until step a (entries_of m l y ++ entries_in m l bs)) (sym same)
          ∙ fold_until-append step a (entries_of m l b) (entries_in m l bs) in
        rw some_bucket (
          rw (slots_loop-full l.bucket_cnt 0 b a w) (
            rw all_of (elim (Bool-cases first.1) [
              | inl more ↦ rw more (
                  rw (peek_ptr-still (u64 (b + l.overflow_offset)) w)
                    (chain_loop-entries fuel next bs first.0 w c (omega arith)))
              | inr done ↦ rw done refl
            ])))

    buckets_loop-entries :
        (fuel i addr : ℕ) (chains : List (List ℕ)) (a : A) (w : W)
        → AreChains m l addr i chains
        → All (λ bs. length bs < fuel) chains
        → buckets_loop k s h visit l fuel (length chains) i addr (a, w)
          ≡ gave (fold_until step a (entries_in_all m l chains)) w
    unfolding buckets_loop fold_until
    buckets_loop-entries fuel i addr [] a w c le = refl
    buckets_loop-entries fuel i addr (bs ∷ chains) a w (c, cs) (le, les) =
        let first = fold_until step a (entries_in m l bs) in
        rw (chain_loop-entries fuel (u64 (addr + i * l.bucket_size)) bs a w c le) (
          rw (fold_until-append step a (entries_in m l bs) (entries_in_all m l chains))
            (elim (Bool-cases first.1) [
              | inl more ↦ rw more (buckets_loop-entries fuel (i + 1) addr chains first.0 w cs les)
              | inr done ↦ rw done refl
            ]))

    bucket_array-entries :
        (fuel : ℕ) (x : ℕ × ℕ) (chains : List (List ℕ)) (a : A) (w : W)
        → IsArray m l x chains
        → All (λ bs. length bs < fuel) chains
        → bucket_array k s h visit l fuel x (a, w)
          ≡ gave (fold_until step a (entries_in_all m l chains)) w
    unfolding bucket_array fold_until
    bucket_array-entries fuel x chains a w (inl (nil, nothing)) les = rw nil (rw nothing refl)
    bucket_array-entries fuel x chains a w (inr (there, size, c)) les =
        let some_array : (x.0 == 0) ≡ false = ground arith in
        rw some_array (rw (← size) (buckets_loop-entries fuel 0 x.0 chains a w c les))

    -- On an amd64 target that stands still, where the overflow pointers of every bucket lead
    -- to nil, the walk over a map hands to a function the full entries of the map's buckets
    -- and then of its old buckets, each of them once and in the order of the arrays, the
    -- chains and the entries, until the function says that it is enough. The function leaves
    -- the target alone, and the fuel is more than the buckets of any chain.
    pub walk_map-entries :
        (fuel : ℕ) (chains olds : List (List ℕ)) (a : A) (w : W)
        → IsArray m l l.buckets chains
        → IsArray m l l.oldbuckets olds
        → All (λ bs. length bs < fuel) chains
        → All (λ bs. length bs < fuel) olds
        → walk_map k s h visit l fuel (a, w) ≡ (
          ((fold_until step a (entries_in_all m l chains ++ entries_in_all m l olds)).0, w),
          ok tt,
        )
    unfolding walk_map
    walk_map-entries fuel chains olds a w c o les les' =
        let first = fold_until step a (entries_in_all m l chains) in
        rw (bucket_array-entries fuel l.buckets chains a w c les) (
          rw (fold_until-append step a (entries_in_all m l chains) (entries_in_all m l olds))
            (elim (Bool-cases first.1) [
              | inl more ↦
                  rw more (rw (bucket_array-entries fuel l.oldbuckets olds first.0 w o les') refl)
              | inr done ↦ rw done refl
            ]))
