-- ===== src/Extract/Cloudflare.antt =====
-- app/pipeline/extract/cloudflare.py: the addresses that Cloudflare hides. `is_email` stands for
-- EMAIL_FULL. A character that is decoded is a byte, so `lower` is that of Latin-1.
pub mod RoundTrip
use Prim.Native.Nat.{bit_xor}
use email_extractor.Common.{
  ℕ, zero, suc, ◌+◌, ◌-◌, ◌*◌, Bool, true, false, not, ◌&&◌, ◌||◌, Option, none, some, List, [],
  ◌∷◌, ◌++◌, map, if◌then◌else◌, ◌==◌, leb, Text, txt, strip,
}

-- The value of a hexadecimal digit, of either case.
unfoldable pub hex_value : ℕ → Option ℕ
hex_value c =
    if leb 48 c && leb c 57
    then some (c - 48)
    else if leb 97 c && leb c 102
    then some (c - 87)
    else if leb 65 c && leb c 70
    then some (c - 55)
    else none

-- `int(pair, 16)` of the digits that the patterns let through.
unfoldable pub pair_value : Option ℕ → Option ℕ → Option ℕ
pair_value (some a) (some b) = some (a * 16 + b)
pair_value _ _ = none

-- A byte and what is decoded behind it.
unfoldable pub cons_byte : ℕ → Option ℕ → Option Text → Option Text
cons_byte key (some b) (some s) = some (bit_xor b key ∷ s)
cons_byte key _ _ = none

-- The loop over the pairs behind the key. The last one may be a single digit.
unfoldable pub decode_pairs : ℕ → Text → Option Text
unfolding hex_value pair_value cons_byte
decode_pairs key [] = some []
decode_pairs key (a ∷ []) = cons_byte key (hex_value a) (some [])
decode_pairs key (a ∷ (b ∷ s)) =
    cons_byte key (pair_value (hex_value a) (hex_value b)) (decode_pairs key s)

unfoldable pub lower_latin : ℕ → ℕ
lower_latin c =
    if (leb 65 c && leb c 90) || (leb 192 c && (leb c 222 && not (c == 215))) then c + 32 else c

-- The decoded text, if it is an address.
unfoldable pub checked : (Text → Bool) → Text → Option Text
checked is_email out = if is_email out then some (map lower_latin out) else none

unfoldable pub decode_with : (Text → Bool) → Option ℕ → Text → Option Text
unfolding decode_pairs checked
decode_with is_email none s = none
decode_with is_email (some key) s = elim (decode_pairs key s) [
  | none ↦ none
  | some out ↦ checked is_email (strip out)
]

-- `decode_cf`
unfoldable pub decode_cf : (Text → Bool) → Text → Option Text
unfolding decode_with pair_value hex_value
decode_cf is_email [] = none
decode_cf is_email (a ∷ []) = decode_with is_email (hex_value a) []
decode_cf is_email (a ∷ (b ∷ s)) = decode_with is_email (pair_value (hex_value a) (hex_value b)) s

-- `carrier` of `decode_html`: the text behind the tag that carries the address.
unfoldable pub carrier : (Text → Bool) → (tag hex : Text) → Text
unfolding decode_cf
carrier is_email tag hex = elim (decode_cf is_email hex) [
  | none ↦ tag
  | some [] ↦ tag
  | some (c ∷ email) ↦ tag ++ (32 ∷ ((c ∷ email) ++ (32 ∷ [])))
]

-- `link` of `decode_html`
unfoldable pub link : (Text → Bool) → (whole hex : Text) → Text
unfolding decode_cf
link is_email whole hex = elim (decode_cf is_email hex) [
  | none ↦ whole
  | some [] ↦ whole
  | some (c ∷ email) ↦ txt "mailto:" ++ (c ∷ email)
]
