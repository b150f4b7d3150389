-- ===== src/Arch/Runs.antt =====
-- Runs of the readers of arch/arch.go.
use debug.Common.{All, IsByte, Bytes, ◌-◌, ◌^◌, ◌≡◌, refl, none, [], ◌∷◌, arith}
use debug.Arch.Ints.{uint_n_lem, int_n_lem}
use debug.Arch.{uint, int_n, uint_n, amd64, arm}

abbrev three_bytes : Bytes
three_bytes = 0x34 ∷ 0x12 ∷ 0x01 ∷ []

abbrev four_bytes : Bytes
four_bytes = 0xfe ∷ 0xff ∷ 0xff ∷ 0xff ∷ []

three_bytes-IsByte : All IsByte three_bytes
three_bytes-IsByte = (omega arith, (omega arith, (omega arith, tt)))

four_bytes-IsByte : All IsByte four_bytes
four_bytes-IsByte = (omega arith, (omega arith, (omega arith, (omega arith, tt))))

uint_n_lem_example : uint_n amd64 three_bytes ≡ 0x11234
uint_n_lem_example = uint_n_lem amd64 three_bytes three_bytes-IsByte

int_n_lem_example : int_n arm four_bytes ≡ 2 ^ 64 - 2
int_n_lem_example = int_n_lem arm four_bytes four_bytes-IsByte (omega arith) (omega arith)

wrong_size : uint amd64 four_bytes ≡ none
unfolding uint
wrong_size = refl
