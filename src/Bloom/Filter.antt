-- ===== src/Bloom/Filter.antt =====
-- The filter, its hash functions and its operations, as lists of what they do in order.
use mtech.Prelude.{
  ℕ, ◌+◌, ◌*◌, ◌/◌, ◌%◌, ◌^◌, Bool, not, ◌&&◌, ◌==◌, ltb, if◌then◌else◌, List, [], ◌∷◌, ◌++◌, map,
}
use mtech.Prelude.Family.{update}
use mtech.Prelude.Bits.{bitwise, differ, both, either, digit}
use mtech.Prelude.Sums.{sum}

abbrev pub bloom_size : ℕ
bloom_size = 2 ^ 24

abbrev pub bit_array_size : ℕ
bit_array_size = bloom_size / 8 + (if bloom_size % 8 == 0 then 0 else 1)

abbrev pub stripe_count : ℕ
stripe_count = 64

abbrev pub stripe_size : ℕ
stripe_size = bit_array_size / stripe_count + (if bit_array_size % stripe_count == 0 then 0 else 1)

-- 32 bits: `x ^ y`, `x * y`, `x + y`, `x >> n` and `x << n`.
abbrev xor : ℕ → ℕ → ℕ
xor x y = bitwise differ 32 x y

abbrev times : ℕ → ℕ → ℕ
times x y = x * y % 2 ^ 32

abbrev plus : ℕ → ℕ → ℕ
plus x y = (x + y) % 2 ^ 32

abbrev right : ℕ → ℕ → ℕ
right x n = x / 2 ^ n

abbrev left : ℕ → ℕ → ℕ
left x n = x * 2 ^ n % 2 ^ 32

unfoldable pub hash1 : ℕ → ℕ
unfolding bitwise
hash1 x0 =
    let x1 = times (xor (right x0 16) x0) 0x45d9f3b in
    let x2 = times (xor (right x1 16) x1) 0x45d9f3b in
    let x3 = xor (right x2 16) x2 in x3 % bloom_size

unfoldable pub hash2 : ℕ → ℕ
unfolding bitwise
hash2 x0 =
    let x1 = times (xor x0 (right x0 17)) 0xed5ad4bb in
    let x2 = times (xor x1 (right x1 11)) 0xac4c1b51 in
    let x3 = times (xor x2 (right x2 15)) 0x31848bab in
    let x4 = xor x3 (right x3 14) in x4 % bloom_size

unfoldable pub hash3 : ℕ → ℕ
unfolding bitwise
hash3 x0 =
    let x1 = xor (xor x0 61) (right x0 16) in
    let x2 = plus x1 (left x1 3) in
    let x3 = xor x2 (right x2 4) in
    let x4 = times x3 0x27d4eb2d in let x5 = xor x4 (right x4 15) in x5 % bloom_size

unfoldable pub get_stripe : ℕ → ℕ
get_stripe bit_pos = bit_pos / 8 / stripe_size

-- One call or assignment of an operation: pthread_mutex_lock or pthread_mutex_unlock of a stripe's
-- lock, `bit_array[h / 8] |= (1 << (h % 8))`, or the reading of that bit.
pub data Act : Type 0 where
  lock unlock set read : ℕ → Act

-- `bit_array`, by the byte.
abbrev pub BitArray : Type 0
BitArray = ℕ → ℕ

unfoldable pub bloom_init : BitArray
bloom_init i = 0

unfoldable pub set_bit : ℕ → BitArray → BitArray
unfolding bitwise
set_bit h bits = update bits (h / 8) (bitwise either 8 (bits (h / 8)) (2 ^ (h % 8)))

-- `bit_array[h / 8] & (1 << (h % 8))`, as a bool.
unfoldable pub get_bit : ℕ → BitArray → Bool
unfolding bitwise
get_bit h bits = not (bitwise both 8 (bits (h / 8)) (2 ^ (h % 8)) == 0)

unfoldable pub perform : List Act → BitArray → BitArray
unfolding set_bit
perform [] bits = bits
perform (lock i ∷ acts) bits = perform acts bits
perform (unlock i ∷ acts) bits = perform acts bits
perform (set h ∷ acts) bits = perform acts (set_bit h bits)
perform (read h ∷ acts) bits = perform acts bits

abbrev locks : List ℕ → List Act
locks = map lock

abbrev unlocks : List ℕ → List Act
unlocks = map unlock

abbrev pub two : ℕ → ℕ → List ℕ
two i j = i ∷ (j ∷ [])

abbrev pub three : ℕ → ℕ → ℕ → List ℕ
three i j k = i ∷ two j k

-- What `add` does around the three assignments.
unfoldable pub locked : ℕ → ℕ → ℕ → List Act → List Act
locked stripe1 stripe2 stripe3 body =
    if stripe1 == stripe2 && stripe2 == stripe3
    then lock stripe1 ∷ (body ++ (unlock stripe1 ∷ []))
    else (if stripe1 == stripe2
        then locks (two stripe1 stripe3) ++ (body ++ unlocks (two stripe3 stripe1))
        else (if stripe1 == stripe3
            then locks (two stripe1 stripe2) ++ (body ++ unlocks (two stripe2 stripe1))
            else (if stripe2 == stripe3
                then locks (two stripe2 stripe1) ++ (body ++ unlocks (two stripe1 stripe2))
                else locks (in_order stripe1 stripe2 stripe3)
                  ++ (body ++ unlocks (three stripe3 stripe2 stripe1)))))
  where
    in_order : ℕ → ℕ → ℕ → List ℕ
    in_order stripe1 stripe2 stripe3 =
        if ltb stripe1 stripe2 && ltb stripe1 stripe3
        then (if ltb stripe2 stripe3
            then three stripe1 stripe2 stripe3
            else three stripe1 stripe3 stripe2)
        else (if ltb stripe2 stripe1 && ltb stripe2 stripe3
            then (if ltb stripe1 stripe3
                then three stripe2 stripe1 stripe3
                else three stripe2 stripe3 stripe1)
            else (if ltb stripe1 stripe2
                then three stripe3 stripe1 stripe2
                else three stripe3 stripe2 stripe1))

unfoldable pub add_acts : ℕ → List Act
unfolding hash1 hash2 hash3 get_stripe locked
add_acts value =
    let h1 = hash1 value in
    let h2 = hash2 value in
    let h3 = hash3 value in
    locked (get_stripe h1) (get_stripe h2) (get_stripe h3) (set h1 ∷ (set h2 ∷ (set h3 ∷ [])))

abbrev pub add : ℕ → BitArray → BitArray
add value = perform (add_acts value)

-- What `contains` does, by the stripes and the bits.
unfoldable pub reads : ℕ → ℕ → ℕ → ℕ → ℕ → ℕ → List Act
reads stripe1 stripe2 stripe3 h1 h2 h3 =
    if stripe1 == stripe2 && stripe2 == stripe3
    then lock stripe1 ∷ (read h1 ∷ (read h2 ∷ (read h3 ∷ (unlock stripe1 ∷ []))))
    else lock stripe1
      ∷ (read h1
          ∷ (unlock stripe1
              ∷ (lock stripe2
                  ∷ (read h2
                      ∷ (unlock stripe2 ∷ (lock stripe3 ∷ (read h3 ∷ (unlock stripe3 ∷ []))))))))

unfoldable pub contains_acts : ℕ → List Act
unfolding hash1 hash2 hash3 get_stripe reads
contains_acts value =
    let h1 = hash1 value in
    let h2 = hash2 value in
    let h3 = hash3 value in reads (get_stripe h1) (get_stripe h2) (get_stripe h3) h1 h2 h3

-- `b1 && b2 && b3`, where nobody else is active.
unfoldable pub contains : BitArray → ℕ → Bool
unfolding hash1 hash2 hash3 get_bit
contains bits value =
    get_bit (hash1 value) bits && (get_bit (hash2 value) bits && get_bit (hash3 value) bits)

-- `set_bits` of print_stats.
unfoldable pub set_bits : BitArray → ℕ
unfolding digit sum
set_bits bits = sum bit_array_size (λ i. sum 8 (λ j. digit j (bits i)))
