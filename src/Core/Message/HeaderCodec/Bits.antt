-- ===== src/Core/Message/HeaderCodec/Bits.antt =====
-- The bits that `Header` picks and places, as arithmetic: the layout of RFC 8489, figure 3.
use mstun.Base.{
  ℕ, ◌+◌, ◌-◌, ◌*◌, ◌/◌, ◌%◌, ◌≤◌, ◌<◌, ◌≡◌, ◌∙◌, Bool, false, arith, leb, ◌==◌, if◌then◌else◌, ◌↔◌,
  ◌⊎◌, inl, inr,
}
use mstun.Base.Words.{IsU16}
use mstun.Extern.Bitvec.{Bitvec, test_bit, bit_value, value, value_cong, bit_value-test_bit}
use mstun.Core.Message.{Class, request}
use mstun.Core.Message.HeaderCodec.{
  class_of_bits, low_class_bit, high_class_bit, method_bits, method_class_bits,
}

-- The first two bytes of a message: two zero bits, method bits 11 to 7, the high class bit,
-- method bits 6 to 4, the low class bit, and method bits 3 to 0.
abbrev pub method_word : ℕ → Class → ℕ
method_word m c =
    m % 16
    + 16 * bit_value (low_class_bit c)
    + 32 * (m / 16 % 8)
    + 256 * bit_value (high_class_bit c)
    + 512 * (m / 128 % 32)

-- The method and the class of such a word.
abbrev pub word_method : ℕ → ℕ
word_method w = w % 16 + 16 * (w / 32 % 8) + 128 * (w / 512 % 32)

abbrev pub word_class : ℕ → Class
word_class w = class_of_bits (w / 256 % 2 == 1) (w / 16 % 2 == 1)

abbrev placed : (ℕ → Bool) → Class → ℕ → Bool
placed f c j =
    if leb 14 j
    then false
    else if leb 9 j
    then f (j - 9 + 7)
    else if j == 8
    then high_class_bit c
    else if leb 5 j
    then f (j - 5 + 4)
    else if j == 4
    then low_class_bit c
    else f (j - 0 + 0)

abbrev picked : (ℕ → Bool) → ℕ → Bool
picked f j =
    if leb 12 j
    then false
    else if leb 7 j
    then f (j - 7 + 9)
    else if leb 4 j
    then f (j - 4 + 5)
    else f j

value_four : (w : ℕ) → value 4 (test_bit w) ≡ w % 16
value_four w = omega (
  arith,
  bit_value-test_bit w,
  bit_value-test_bit (w / 2),
  bit_value-test_bit (w / 2 / 2),
  bit_value-test_bit (w / 2 / 2 / 2),
)

value_three : (w : ℕ) → value 3 (test_bit w) ≡ w % 8
value_three w =
    omega (arith, bit_value-test_bit w, bit_value-test_bit (w / 2), bit_value-test_bit (w / 2 / 2))

value_five : (w : ℕ) → value 5 (test_bit w) ≡ w % 32
value_five w = omega (arith, bit_value-test_bit w, value_four (w / 2))

high_bit : (w i : ℕ) → (i ≡ 14) ⊎ (i ≡ 15) → w < 16384 → test_bit w i ≡ false
high_bit w i (inl e) h = rw e (ground arith)
high_bit w i (inr e) h = rw e (ground arith)

module _ {A : Type 0} (bits : Bitvec A) where
  open bits use {
    from_word, word, bit, any, set, fill, copy_within, copy_from_bitslice, bit-from_word,
    word-value, any_iff, bit-set, bit-fill, bit-copy_within, bit-copy_from_bitslice,
  }

  bit-method_class_bits :
      (m : ℕ) (c : Class) (j : ℕ)
      → j < 16
      → bit (method_class_bits bits m c) j ≡ placed (bit (from_word m)) c j
  bit-method_class_bits m c j h =
      let from = from_word m in
      let b0 = copy_from_bitslice (from_word 0) 0 4 from 0 in
      let b1 = set b0 4 (low_class_bit c) in
      let b2 = copy_from_bitslice b1 5 8 from 4 in
      let b3 = set b2 8 (high_class_bit c) in
      let b4 = copy_from_bitslice b3 9 14 from 7 in
      ground (
        arith,
        bit-fill b4 14 16 false j h,
        bit-copy_from_bitslice b3 9 14 from 7 j h,
        bit-set b2 8 (high_class_bit c) j h,
        bit-copy_from_bitslice b1 5 8 from 4 j h,
        bit-set b0 4 (low_class_bit c) j h,
        bit-copy_from_bitslice (from_word 0) 0 4 from 0 j h,
      )

  -- The bits of `from_word`, from bit `k` on.
  value-from_word :
      (k n m : ℕ)
      → IsU16 m
      → k + n ≤ 16
      → value n (λ i. bit (from_word m) (k + i)) ≡ value n (λ i. test_bit m (k + i))
  value-from_word k n m h fits = value_cong n _ _ (λ i p. bit-from_word m (k + i) h (omega arith))

  -- The bits that encoding puts together are the layout.
  pub word-method_class_bits :
      (m : ℕ) (c : Class) → IsU16 m → word (method_class_bits bits m c) ≡ method_word m c
  word-method_class_bits m c h =
      word-value (method_class_bits bits m c)
      ∙ value_cong 16 _ (placed (bit (from_word m)) c) (bit-method_class_bits m c)
      ∙ omega (
        arith,
        value-from_word 0 4 m h (omega arith),
        value-from_word 4 3 m h (omega arith),
        value-from_word 7 5 m h (omega arith),
        value_four m,
        value_three (m / 2 / 2 / 2 / 2),
        value_five (m / 2 / 2 / 2 / 2 / 2 / 2 / 2),
      )

  bit-method_bits : (a : A) (j : ℕ) → j < 16 → bit (method_bits bits a) j ≡ picked (bit a) j
  bit-method_bits a j h =
      let once = copy_within a 5 8 4 in
      ground (
        arith,
        bit-fill (copy_within once 9 16 7) 12 16 false j h,
        bit-copy_within once 9 16 7 j h,
        bit-copy_within a 5 8 4 (j - 7 + 9),
        bit-copy_within a 5 8 4 j h,
      )

  -- The bits that decoding picks are the method.
  pub word-method_bits : (w : ℕ) → IsU16 w → word (method_bits bits (from_word w)) ≡ word_method w
  word-method_bits w h =
      word-value (method_bits bits (from_word w))
      ∙ value_cong 16 _ (picked (bit (from_word w))) (bit-method_bits (from_word w))
      ∙ omega (
        arith,
        value-from_word 0 4 w h (omega arith),
        value-from_word 5 3 w h (omega arith),
        value-from_word 9 5 w h (omega arith),
        value_four w,
        value_three (w / 2 / 2 / 2 / 2 / 2),
        value_five (w / 2 / 2 / 2 / 2 / 2 / 2 / 2 / 2 / 2),
      )

  pub bit-from_word_four : (w : ℕ) → IsU16 w → bit (from_word w) 4 ≡ (w / 16 % 2 == 1)
  bit-from_word_four w h = ground (arith, bit-from_word w 4 h (omega arith))

  pub bit-from_word_eight : (w : ℕ) → IsU16 w → bit (from_word w) 8 ≡ (w / 256 % 2 == 1)
  bit-from_word_eight w h = ground (arith, bit-from_word w 8 h (omega arith))

  -- The two highest bits are clear exactly below 2 ^ 14.
  pub any-from_word : (w : ℕ) → IsU16 w → (any (from_word w) 14 16 ≡ false) ↔ (w < 16384)
  any-from_word w h = (
    (λ e.
        let high = (any_iff (from_word w) 14 16 (omega arith)).0 e in
        ground (
          arith,
          high 14 (omega arith) (omega arith),
          high 15 (omega arith) (omega arith),
          bit-from_word w 14 h (omega arith),
          bit-from_word w 15 h (omega arith),
        )),
    (λ small.
        (any_iff (from_word w) 14 16 (omega arith)).1
          λ i p q. bit-from_word w i h q ∙ high_bit w i (omega arith) small),
  )

-- Both readings of the layout undo it.
pub word_method-method_word : (m : ℕ) (c : Class) → m < 4096 → word_method (method_word m c) ≡ m
word_method-method_word m request h = omega arith
word_method-method_word m _ h = omega arith

pub word_class-method_word : (m : ℕ) (c : Class) → word_class (method_word m c) ≡ c
word_class-method_word m request = ground arith
word_class-method_word m _ = ground arith

-- A word below 2 ^ 14 is the layout of its method and its class.
pub method_word-word_method : (w : ℕ) → w < 16384 → method_word (word_method w) (word_class w) ≡ w
method_word-word_method w h = ground arith

pub method_word-lt : (m : ℕ) (c : Class) → method_word m c < 16384
method_word-lt m request = omega arith
method_word-lt m _ = omega arith
