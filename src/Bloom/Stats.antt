-- ===== src/Bloom/Stats.antt =====
-- The count of print_stats.
use mtech.Prelude.{ℕ, ◌+◌, ◌*◌, ◌/◌, ◌%◌, ◌<◌, ◌≡◌, sym, ap, ◌∙◌, Bool, List, if◌then◌else◌, arith}
use mtech.Prelude.Sums.{sum, sum_ext, sum_blocks}
use mtech.Prelude.Digits.{quotient, remainder}
use mtech.Prelude.Bits.{digit, digit-le}
use mtech.Bloom.Filter.{
  bloom_size, bit_array_size, Act, BitArray, bloom_init, get_bit, perform, set_bits,
}
use mtech.Bloom.Membership.{get_bit-digit, sets, empty-perform}

abbrev pub bit : Bool → ℕ
bit b = if b then 1 else 0

at_position :
    (bits : BitArray) (i j : ℕ) → j < 8 → digit j (bits i) ≡ bit (get_bit (i * 8 + j) bits)
at_position bits i j h =
    let flag = get_bit-digit (i * 8 + j) bits in
    let byte = quotient 8 i j h in
    let place = remainder 8 i j h in
    let here : digit ((i * 8 + j) % 8) (bits ((i * 8 + j) / 8)) ≡ digit j (bits i) =
      cc (byte, place) in
    let small = digit-le j (bits i) in ground arith

-- After any acts on an empty filter, the count is the number of positions below BLOOM_SIZE that some
-- act has set.
pub set_bits-perform :
    (acts : List Act) → set_bits (perform acts bloom_init) ≡ sum bloom_size (λ p. bit (sets acts p))
unfolding set_bits
set_bits-perform acts =
    let bits = perform acts bloom_init in
    sum_ext bit_array_size (λ i. sum 8 (λ j. digit j (bits i)))
      (λ i. sum 8 (λ j. bit (sets acts (i * 8 + j))))
      (λ i hi.
        sum_ext 8 (λ j. digit j (bits i)) (λ j. bit (sets acts (i * 8 + j)))
          (λ j hj. at_position bits i j hj ∙ ap bit (empty-perform acts (i * 8 + j))))
    ∙ sym (sum_blocks bit_array_size 8 (λ p. bit (sets acts p)))
