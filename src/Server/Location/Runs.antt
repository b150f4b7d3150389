-- ===== src/Server/Location/Runs.antt =====
-- Runs of the locations of server/dwarf.go.
use debug.Common.{Bytes, ℕ, ◌-◌, ◌^◌, ◌≡◌, refl, [], ◌∷◌, arith}
use debug.Common.Result.{ok}
use debug.Dwarf.Buf.Leb.{leb_value}
use debug.Dwarf.Buf.Sleb.{signed_word}
use debug.Server.Location.Signed.{eval_location-signed_word, sleb128_unended}
use debug.Server.Location.{uleb128, sleb128, eval_location}

-- -16 in one byte, and -128 in two.
minus_sixteen : eval_location (0x9C ∷ 0x11 ∷ 0x70 ∷ 0x22 ∷ []) ≡ ok (2 ^ 64 - 16)
unfolding eval_location
minus_sixteen = refl

abbrev minus_128 : Bytes
minus_128 = 0x80 ∷ 0x7F ∷ []

eval_location-signed_word_example :
    eval_location (0x9C ∷ 0x11 ∷ 0x80 ∷ 0x7F ∷ 0x22 ∷ [])
    ≡ ok (signed_word 14 (leb_value minus_128))
eval_location-signed_word_example = eval_location-signed_word minus_128 (omega arith)

two_bytes : signed_word 14 (leb_value minus_128) ≡ 2 ^ 64 - 128
two_bytes = refl

uleb_300 : uleb128 (0xAC ∷ 0x02 ∷ []) ≡ 300
unfolding uleb128
uleb_300 = refl

sleb128_unended_example : (s : ℕ) × (sleb128 (0x80 ∷ 0x81 ∷ []) ≡ ok (s, []))
sleb128_unended_example = sleb128_unended 0x80 (0x81 ∷ []) (omega arith)
