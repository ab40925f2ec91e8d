-- ===== src/Tests/Base.antt =====
-- Runs of src/error.rs, src/util.rs and src/net/crypto.rs.
use rusty_fusion.Error.{FfError, Outcome, build, build_dc, catch_fail, err, ok, panics, warning}
use rusty_fusion.Error.CatchFail.{IsReported, catch_fail-IsReported}
use rusty_fusion.Net.Crypto.{byte_swap_loop, decrypt_payload, encrypt_payload}
use rusty_fusion.Net.Crypto.RoundTrip.{decrypt_payload-encrypt_payload}
use rusty_fusion.Net.Crypto.Whole.{byte_swap_loop-ends}
use rusty_fusion.Prelude.{
  Bool, List, [], arith, false, if◌then◌else◌, length, suc, true, ℕ, ◌+◌, ◌<◌, ◌==◌, ◌∷◌, ◌≡◌, ◌≤◌,
  ◌⊎◌,
}
use rusty_fusion.Util.Bitfield.{Bitfield, bitfield_from_bytes, get_bit, set_bit, to_array, to_bytes}
use rusty_fusion.Util.Bitfield.GetSet.{IsValid, get_bit-set_bit}
use rusty_fusion.Util.Bitfield.RoundTrip.{bitfield_from_bytes-to_bytes, to_array_lem}

abbrev lost : FfError
lost = build_dc warning "lost"

abbrev count_up : ℕ → Outcome (Unit {0}) × ℕ
count_up n = (err (build warning "again"), suc n)

catch_fail-IsReported_example :
    ((e' : FfError) × ((catch_fail {A = ℕ} (err lost) count_up 3).0 ≡ err e') × IsReported lost e')
    ⊎ ((catch_fail {A = ℕ} (err lost) count_up 3).0 ≡ panics)
catch_fail-IsReported_example = catch_fail-IsReported lost count_up 3

abbrev a_key : List ℕ
a_key = 109 ∷ 64 ∷ 200 ∷ []

abbrev a_payload : List ℕ
a_payload = 1 ∷ 2 ∷ 3 ∷ 4 ∷ 5 ∷ 255 ∷ 0 ∷ []

decrypt_payload-encrypt_payload_example :
    (out : List ℕ) × (encrypt_payload a_payload a_key ≡ ok out)
    × (length out ≡ length a_payload)
    × (decrypt_payload out a_key ≡ ok a_payload)
decrypt_payload-encrypt_payload_example =
    decrypt_payload-encrypt_payload a_payload a_key (omega arith)
      (omega arith, (omega arith, (omega arith, tt)))
      (
        omega arith,
        (
          omega arith,
          (omega arith, (omega arith, (omega arith, (omega arith, (omega arith, tt))))),
        ),
      )

abbrev two_chunks : Bitfield
two_chunks = record { chunks = 5 ∷ 4294967295 ∷ [] }

get_bit-set_bit_example :
    (b' : Bitfield) × (changed : Bool) × (set_bit 4 two_chunks 33 false ≡ ok (b', changed))
    × (IsValid 4 b')
    × ((j : ℕ) → get_bit 4 b' j ≡ (if j == 33 then ok false else get_bit 4 two_chunks j))
    × (get_bit 4 two_chunks 33 ≡ ok (if changed then true else false))
get_bit-set_bit_example =
    get_bit-set_bit 4 (omega arith) two_chunks 33 false (omega arith, (omega arith, tt))
      (omega arith)

bitfield_from_bytes-to_bytes_example :
    bitfield_from_bytes 4 (to_bytes 4 two_chunks) 3
    ≡ ok (record { chunks = 5 ∷ 4294967295 ∷ 0 ∷ [] })
bitfield_from_bytes-to_bytes_example =
    bitfield_from_bytes-to_bytes 4 (omega arith) two_chunks 1 (omega arith, (omega arith, tt))

to_array_lem_example : to_array 4 two_chunks 1 ≡ panics
to_array_lem_example = to_array_lem 4 two_chunks 1

byte_swap_loop-ends_example :
    (buf' : List ℕ) × (num : ℕ) × (byte_swap_loop 8 3 (length a_payload) 0 0 a_payload
      ≡ ok (buf', num))
    × (length buf' ≡ length a_payload)
    × (num ≤ length a_payload)
    × (length a_payload < num + 3)
byte_swap_loop-ends_example = byte_swap_loop-ends 3 8 a_payload (omega arith) (omega arith)
