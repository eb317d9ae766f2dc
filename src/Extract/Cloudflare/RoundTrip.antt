-- ===== src/Extract/Cloudflare/RoundTrip.antt =====
-- Decoding undoes Cloudflare's encoding: a key byte, then each byte of the address by exclusive or.
use Prim.Native.Nat.{bit_xor, bit_xor-bitwise, digits, differ}
use email_extractor.Common.{
  ℕ, zero, suc, ◌+◌, ◌*◌, ◌/◌, ◌%◌, ◌≤◌, ◌<◌, ◌≡◌, refl, ap, ◌∙◌, Bool, true, some, [], ◌∷◌, map,
  arith, if◌then◌else◌, ltb, All, Text, strip,
}
use email_extractor.Extract.Cloudflare.{
  hex_value, pair_value, cons_byte, decode_pairs, lower_latin, checked, decode_with, decode_cf,
}

abbrev xor_digits : ℕ → ℕ → ℕ → ℕ
xor_digits n a b = digits (λ b. b) differ n a b

-- Any count of digits that covers the first number gives the same.
xor_enough : (n m a b : ℕ) → a ≤ n → a ≤ m → xor_digits n a b ≡ xor_digits m a b
xor_enough zero zero a b p q = refl
xor_enough zero (suc m) zero b p q = refl
xor_enough zero (suc m) (suc a) b p q = absurd (omega arith)
xor_enough (suc n) zero zero b p q = refl
xor_enough (suc n) zero (suc a) b p q = absurd (omega arith)
xor_enough (suc n) (suc m) zero b p q = refl
xor_enough (suc n) (suc m) (suc a) b p q =
    omega (arith, xor_enough n m (suc a / 2) (b / 2) (omega arith) (omega arith))

differ-zero : (n : ℕ) → differ 0 n ≡ n
differ-zero n = refl

bit_xor-zero : (b : ℕ) → bit_xor 0 b ≡ b
bit_xor-zero b = bit_xor-bitwise 0 b

bit_xor_step : (a b : ℕ) → bit_xor a b ≡ bit_xor (a / 2) (b / 2) * 2 + differ (a % 2) (b % 2)
bit_xor_step zero b = omega (arith, bit_xor-zero b, bit_xor-zero (b / 2))
bit_xor_step (suc a) b = omega (
  arith,
  bit_xor-bitwise (suc a) b,
  bit_xor-bitwise (suc a / 2) (b / 2),
  xor_enough a (suc a / 2) (suc a / 2) (b / 2) (omega arith) (omega arith),
)

-- Two binary digits.
differ_bits : (x y : ℕ) → x < 2 → y < 2 → (differ x y < 2) × (differ (differ x y) y ≡ x)
differ_bits zero zero p q = (omega arith, refl)
differ_bits zero (suc zero) p q = (omega arith, refl)
differ_bits (suc zero) zero p q = (omega arith, refl)
differ_bits (suc zero) (suc zero) p q = (omega arith, refl)
differ_bits zero (suc (suc y)) p q = absurd (omega arith)
differ_bits (suc zero) (suc (suc y)) p q = absurd (omega arith)
differ_bits (suc (suc x)) y p q = absurd (omega arith)

xor_twice : (n a k : ℕ) → a ≤ n → k ≤ n → bit_xor (bit_xor a k) k ≡ a
xor_twice zero a k p q =
    let ea : a ≡ 0 = omega arith in let ek : k ≡ 0 = omega arith in rw (ea, ek) refl
xor_twice (suc n) a k p q =
    let step = bit_xor_step a k in
    let bits = differ_bits (a % 2) (k % 2) (omega arith) (omega arith) in
    let half : bit_xor a k / 2 ≡ bit_xor (a / 2) (k / 2) = omega (arith, step, bits) in
    let low : bit_xor a k % 2 ≡ differ (a % 2) (k % 2) = omega (arith, step, bits) in
    let ih = xor_twice n (a / 2) (k / 2) (omega arith) (omega arith) in
    let again = bit_xor_step (bit_xor a k) k in
    let again2 : bit_xor (bit_xor a k) k ≡ a / 2 * 2 + a % 2 =
      again ∙ rw (half, low) (rw (ih, bits.1) refl) in
    omega (arith, again2)

abbrev pow2 : ℕ → ℕ
pow2 zero = 1
pow2 (suc n) = pow2 n * 2

bit_xor-lt : (n a b : ℕ) → a < pow2 n → b < pow2 n → bit_xor a b < pow2 n
bit_xor-lt zero a b p q =
    let ea : a ≡ 0 = omega arith in let eb : b ≡ 0 = omega arith in rw (ea, eb) (omega arith)
bit_xor-lt (suc n) a b p q =
    let ih = bit_xor-lt n (a / 2) (b / 2) (omega arith) (omega arith) in
    omega (arith, bit_xor_step a b, differ_bits (a % 2) (b % 2) (omega arith) (omega arith))

abbrev hex_digit : ℕ → ℕ
hex_digit d = if ltb d 10 then 48 + d else 87 + d

-- The two digits of a byte.
abbrev hex_byte : ℕ → Text → Text
hex_byte b s = hex_digit (b / 16) ∷ (hex_digit (b % 16) ∷ s)

abbrev encode_from : ℕ → Text → Text
encode_from key [] = []
encode_from key (c ∷ s) = hex_byte (bit_xor c key) (encode_from key s)

-- What Cloudflare writes for an address: the key, then each byte under the key.
unfoldable pub encode : ℕ → Text → Text
encode key s = hex_byte key (encode_from key s)

abbrev pub IsByte : ℕ → Type 0
IsByte c = c < 256

hex_value-hex_digit : (d : ℕ) → d < 16 → hex_value (hex_digit d) ≡ some d
unfolding hex_value
hex_value-hex_digit d h = ground arith

pair_value-hex_digit :
    (b : ℕ)
    → b < 256
    → pair_value (hex_value (hex_digit (b / 16))) (hex_value (hex_digit (b % 16))) ≡ some b
unfolding pair_value
pair_value-hex_digit b h =
    rw (hex_value-hex_digit (b / 16) (omega arith), hex_value-hex_digit (b % 16) (omega arith))
      (ap some (omega arith))

decode_pairs-encode_from :
    (key : ℕ) (s : Text) → key < 256 → All IsByte s → decode_pairs key (encode_from key s) ≡ some s
unfolding decode_pairs cons_byte
decode_pairs-encode_from key [] k h = refl
decode_pairs-encode_from key (c ∷ s) k h =
    rw
      (
        pair_value-hex_digit (bit_xor c key) (bit_xor-lt 8 c key h.0 k),
        decode_pairs-encode_from key s k h.1,
        xor_twice (c + key) c key (omega arith) (omega arith),
      )
      refl

-- An address of bytes with no blank at either end, that Cloudflare encoded under any key, is decoded
-- to itself in lower case.
pub decode_cf-encode :
    (is_email : Text → Bool) (key : ℕ) (s : Text)
    → key < 256
    → All IsByte s
    → strip s ≡ s
    → is_email s ≡ true
    → decode_cf is_email (encode key s) ≡ some (map lower_latin s)
unfolding decode_cf encode decode_with checked
decode_cf-encode is_email key s k h blank t =
    rw
      (
        pair_value-hex_digit key k,
        decode_with,
        decode_pairs-encode_from key s k h,
        blank,
        checked,
        t,
      )
      refl
