-- ===== src/Gosym/Pclntab/Funcs.antt =====
-- gosym/pclntab.go: findFunc, the binary search in the function table. Indices are uint32s.
use debug.Common.{
  ltb, leb, ◌==◌, if◌then◌else◌, length, drop, u32, Bytes, ℕ, zero, suc, ◌+◌, ◌-◌, ◌*◌, ◌/◌, Bool,
  false, Option, none, some,
}
use debug.Common.Result.{Result, ok, panic, stuck, ◌>>=◌}
use debug.Gosym.Pclntab.{LineTable, slice_from, uintptr}

-- The comparison of one round: `t.uintptr(fm) <= pc && pc < t.uintptr(fm[2*t.ptrsize:])`, which
-- reads the second PC only behind the first test.
unfoldable pub covers : LineTable → Bytes → ℕ → Result Bool
unfolding slice_from uintptr
covers t fm pc = uintptr t fm >>= λ low.
    (if ltb pc low
      then ok false
      else slice_from (2 * t.ptrsize) fm >>= λ b. (uintptr t b >>= λ high. ok (ltb pc high)))

-- `t.Data[t.uintptr(fm[t.ptrsize:]):]`
unfoldable pub func_data : LineTable → Bytes → Result Bytes
unfolding slice_from uintptr
func_data t fm = slice_from t.ptrsize fm >>= λ b. (uintptr t b >>= λ off. slice_from off t.content)

-- The loop, with fuel: every round makes nf smaller.
unfoldable pub find_loop : LineTable → ℕ → ℕ → Bytes → ℕ → Result (Option Bytes)
unfolding covers func_data slice_from uintptr
find_loop t pc zero f nf = stuck
find_loop t pc (suc fuel) f nf =
    let m = nf / 2 in
    let left_half = find_loop t pc fuel f m in
    let right_half = slice_from (u32 ((m + 1) * 2 * t.ptrsize)) f >>= λ f'.
    find_loop t pc fuel f' (nf - (m + 1)) in
    if nf == 0
    then ok none
    else slice_from (u32 (2 * t.ptrsize * m)) f >>= λ fm.
        (covers t fm pc >>= λ here.
        (if here
          then (func_data t fm >>= λ d. ok (some d))
          else uintptr t fm >>= λ low. (if ltb pc low then left_half else right_half)))

-- The first test: `pc` is below the first function.
unfoldable pub find_func : LineTable → ℕ → Result (Option Bytes)
unfolding find_loop slice_from uintptr
find_func t pc = uintptr t t.functab >>= λ first.
    (if ltb pc first
      then ok none
      else if ltb (length t.functab) t.ptrsize
      then panic
      else uintptr t (drop (length t.functab - t.ptrsize) t.functab) >>= λ last.
          (if leb last pc then ok none else find_loop t pc (suc t.nfunctab) t.functab t.nfunctab))
