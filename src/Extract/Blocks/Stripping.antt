-- ===== src/Extract/Blocks/Stripping.antt =====
-- `strip_blocks` touches nothing but the blocks.
use email_extractor.Common.{
  ℕ, zero, suc, ◌-◌, ◌≤◌, ◌≡◌, refl, true, List, [], ◌∷◌, ◌++◌, length, take, drop, Text, arith, ap,
}
use email_extractor.Extract.Blocks.{Block, slice, iter_blocks, strip_from, strip_blocks}
use email_extractor.Extract.Blocks.Order.{AreOrdered, iter_blocks-AreOrdered}

take-drop : (n : ℕ) (s : Text) → take n s ++ drop n s ≡ s
take-drop zero s = refl
take-drop (suc n) [] = refl
take-drop (suc n) (c ∷ s) = ap (λ t. c ∷ t) (take-drop n s)

take-nil : (n : ℕ) → take {A = ℕ} n [] ≡ []
take-nil zero = refl
take-nil (suc n) = refl

slice-drop : (a b : ℕ) (s : Text) → a ≤ b → slice s a b ++ drop b s ≡ drop a s
unfolding slice
slice-drop zero b s h = let e : b - 0 ≡ b = omega arith in rw e (take-drop b s)
slice-drop (suc a) zero s h = absurd (omega arith)
slice-drop (suc a) (suc b) [] h = rw (take-nil (suc b - suc a)) refl
slice-drop (suc a) (suc b) (c ∷ s) h =
    let e : suc b - suc a ≡ b - a = omega arith in rw e (slice-drop a b s (omega arith))

strip_from-kept :
    (html : Text) (last : ℕ) (blocks : List Block)
    → AreOrdered last (length html) blocks
    → strip_from html (λ b body. true) last blocks ≡ drop last html
unfolding strip_from
strip_from-kept html last [] h = refl
strip_from-kept html last (b ∷ blocks) h =
    rw (strip_from-kept html b.stop blocks h.1, slice-drop b.start b.stop html (omega (arith, h.0)))
      (slice-drop last b.start html (omega (arith, h.0)))

-- Stripping loses nothing that it does not take for a block to be replaced: when every block is kept,
-- the page comes back as it was. This needs that lowering keeps the page's length.
pub strip_blocks-kept :
    (lower : Text → Text) (html tag : Text)
    → length (lower html) ≡ length html
    → strip_blocks lower html tag (λ b body. true) ≡ html
unfolding strip_blocks
strip_blocks-kept lower html tag same =
    strip_from-kept html 0 (iter_blocks lower html tag) (iter_blocks-AreOrdered lower html tag same)
