-- ===== src/Queue/Word.antt =====
-- Packed pointers of cs636/assignment2/problem2/241110079.h: 48 bits of address and a tag of 16.
use mtech.Prelude.{ℕ, ◌+◌, ◌*◌, ◌/◌, ◌%◌, ◌^◌, ◌<◌, ◌≡◌, arith}

abbrev pub tag_shift : ℕ
tag_shift = 48

abbrev pub pointers : ℕ
pointers = 2 ^ 48

abbrev pub tags : ℕ
tags = 2 ^ 16

-- The mask of 48 bits is the remainder.
unfoldable pub extract_ptr : ℕ → ℕ
extract_ptr packed = packed % pointers

unfoldable pub extract_tag : ℕ → ℕ
extract_tag packed = packed / 2 ^ tag_shift % tags

-- The two parts have no bit in common, so that their `|` is their sum.
unfoldable pub pack_ptr : ℕ → ℕ → ℕ
pack_ptr ptr tag = tag % tags * 2 ^ tag_shift + ptr % pointers

-- `extract_tag(packed) + 1`, as a `uint16_t`
unfoldable pub next_tag : ℕ → ℕ
next_tag packed = (extract_tag packed + 1) % tags

pub extract_ptr-pack_ptr : (ptr tag : ℕ) → ptr < pointers → extract_ptr (pack_ptr ptr tag) ≡ ptr
unfolding extract_ptr pack_ptr
extract_ptr-pack_ptr ptr tag small = omega arith

pub extract_tag-pack_ptr : (ptr tag : ℕ) → tag < tags → extract_tag (pack_ptr ptr tag) ≡ tag
unfolding extract_tag pack_ptr
extract_tag-pack_ptr ptr tag small = omega arith

-- A packed pointer is not the null word.
pub pack_ptr_pos : (ptr tag : ℕ) → 0 < ptr → ptr < pointers → 0 < pack_ptr ptr tag
unfolding pack_ptr
pack_ptr_pos ptr tag positive small = omega arith

-- A word of 64 bits is its pointer and its tag.
pub pack_ptr-extract :
    (packed : ℕ) → packed < 2 ^ 64 → pack_ptr (extract_ptr packed) (extract_tag packed) ≡ packed
unfolding extract_ptr extract_tag pack_ptr
pack_ptr-extract packed small = omega arith
