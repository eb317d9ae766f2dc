-- ===== src/Extract/Tests.antt =====
-- The readers of a page at concrete texts.
use email_extractor.Common.{
  ◌≡◌, refl, Bool, true, false, some, [], ◌∷◌, map, leb, if◌then◌else◌, length, Text, txt, strip,
  contains, is_space, strip_left, strip_right, arith, starts_with, ◌&&◌, ◌+◌,
}
use email_extractor.Extract.Cloudflare.{lower_latin, decode_cf}
use email_extractor.Extract.Cloudflare.RoundTrip.{encode, decode_cf-encode}
use email_extractor.Extract.Blocks.{iter_blocks, blocks_from, strip_blocks}
use email_extractor.Extract.Blocks.Order.{AreOrdered, iter_blocks-AreOrdered}
use email_extractor.Extract.Blocks.Progress.{iter_blocks-ends}

abbrev address : Text
address = txt "Info@Acme.com"

abbrev has_at : Text → Bool
has_at s = contains (txt "@") s

decode_cf-encode_example : decode_cf has_at (encode 90 address) ≡ some (map lower_latin address)
unfolding strip strip_left strip_right is_space contains
decode_cf-encode_example = decode_cf-encode has_at 90 address (omega arith) (omega arith) refl refl

abbrev lower_ascii : Text → Text
lower_ascii s = map (λ c. if leb 65 c && leb c 90 then c + 32 else c) s

abbrev page : Text
page = txt "<p>a</p><SCRIPT src=x>var a;</script>b<script>"

iter_blocks-AreOrdered_example :
    AreOrdered 0 (length page) (iter_blocks lower_ascii page (txt "script"))
iter_blocks-AreOrdered_example = iter_blocks-AreOrdered lower_ascii page (txt "script") refl

iter_blocks-ends_example :
    blocks_from 100 (lower_ascii page) page (txt "script") 0
    ≡ iter_blocks lower_ascii page (txt "script")
iter_blocks-ends_example = iter_blocks-ends lower_ascii page (txt "script") 100 (omega arith)

stripped_lem : strip_blocks lower_ascii page (txt "script") (λ b body. false) ≡ txt "<p>a</p> b "
unfolding strip_blocks starts_with
stripped_lem = refl

-- `"\u0130".lower()` has two characters.
abbrev lower_dotted : Text → Text
lower_dotted [] = []
lower_dotted (c ∷ s) = elim (leb 304 c && leb c 304) [
  | true ↦ 105 ∷ (775 ∷ lower_dotted s)
  | false ↦ c ∷ lower_dotted s
]

-- Behind one such letter the scan looks at the wrong character of the page, and misses the block.
missed_lem : iter_blocks lower_dotted (304 ∷ txt "<script>var a;</script>b") (txt "script") ≡ []
unfolding iter_blocks starts_with
missed_lem = refl
