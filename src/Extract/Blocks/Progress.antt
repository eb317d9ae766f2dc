-- ===== src/Extract/Blocks/Progress.antt =====
-- Each round of the scan moves on, so that it ends.
use email_extractor.Common.{
  ℕ, zero, suc, ◌+◌, ◌≤◌, ◌<◌, ◌≡◌, refl, ◌&&◌, inl, inr, Bool-cases, Option-cases, Option, none,
  some, List, [], ◌∷◌, ltb, length, Text, arith, ap, sym,
}
use email_extractor.Extract.Blocks.{
  Block, find, name_goes_on, ScanRound, no_more, other_tag, last_block, next_block, open_needle,
  close_needle, close_block, behind, open_block, at_start, scan_round, go_on, blocks_from,
  iter_blocks,
}
use email_extractor.Extract.Blocks.Order.{find-le}

-- A round goes on only from within the lowered text, and to a later position.
abbrev MovesOn : (pos n : ℕ) → ScanRound → Type 0
MovesOn pos n (other_tag p) = (pos < n) × (pos < p)
MovesOn pos n (next_block b) = (pos < n) × (pos < b.stop)
MovesOn pos n no_more = Unit
MovesOn pos n (last_block b) = pos < n

module _ (low html tag : Text) where
  close_block-MovesOn :
      (pos start after gt : ℕ) (o : Option ℕ)
      → pos < length low
      → pos ≤ start
      → start < after
      → after ≤ gt
      → gt < length html
      → find (close_needle tag) low (suc gt) ≡ o
      → MovesOn pos (length low) (close_block low html tag start after gt o)
  unfolding close_block close_needle behind
  close_block-MovesOn pos start after gt none l p q r t e = l
  close_block-MovesOn pos start after gt (some close) l p q r t e =
      let closing = find-le (close_needle tag) low (suc gt) close (omega arith) e in
      elim (Option-cases (find (62 ∷ []) html (close + length (close_needle tag)))) [
        | inl none_there ↦ rw (none_there, behind) (l, omega arith)
        | inr (j, there) ↦
            let place =
              find-le (62 ∷ []) html (close + length (close_needle tag)) j (omega arith) there in
            rw (there, behind) (l, omega (arith, place, closing))
      ]

  at_start-MovesOn :
      (pos : ℕ) (o : Option ℕ)
      → find (open_needle tag) low pos ≡ o
      → MovesOn pos (length low) (at_start low html tag o)
  unfolding at_start open_needle open_block
  at_start-MovesOn pos none e = tt
  at_start-MovesOn pos (some start) e =
      let place = find-le (open_needle tag) low pos start (omega arith) e in
      let after = start + length (open_needle tag) in
      elim (Bool-cases (ltb after (length html) && name_goes_on html after)) [
        | inl t ↦ rw t (omega (arith, place), omega (arith, place))
        | inr f ↦ elim (Option-cases (find (62 ∷ []) html after)) [
          | inl nothing ↦ rw (f, nothing, open_block) tt
          | inr (gt, there) ↦
              let there_le = find-le (62 ∷ []) html after gt (omega arith) there in
              rw (f, there, open_block)
                (close_block-MovesOn pos start after gt (find (close_needle tag) low (suc gt))
                  (omega (arith, place)) place.0 (omega arith) there_le.0 (omega (arith, there_le))
                  refl)
        ]
      ]

  go_on-same :
      (pos : ℕ) (round : ScanRound) (f g : ℕ → List Block)
      → MovesOn pos (length low) round
      → ((p : ℕ) → pos < p → f p ≡ g p)
      → go_on round f ≡ go_on round g
  unfolding go_on
  go_on-same pos no_more f g m h = refl
  go_on-same pos (other_tag p) f g m h = h p m.1
  go_on-same pos (last_block b) f g m h = refl
  go_on-same pos (next_block b) f g m h = ap (λ r. b ∷ r) (h b.stop m.1)

  go_on-none :
      (pos : ℕ) (round : ScanRound) (f : ℕ → List Block)
      → length low < pos
      → MovesOn pos (length low) round
      → go_on round f ≡ []
  unfolding go_on
  go_on-none pos no_more f h m = refl
  go_on-none pos (other_tag p) f h m = absurd (omega (arith, m))
  go_on-none pos (last_block b) f h m = absurd (omega (arith, m))
  go_on-none pos (next_block b) f h m = absurd (omega (arith, m))

  blocks_from-enough :
      (fuel more pos : ℕ)
      → length low < fuel + pos
      → length low < more + pos
      → blocks_from fuel low html tag pos ≡ blocks_from more low html tag pos
  unfolding blocks_from scan_round
  blocks_from-enough zero zero pos h k = refl
  blocks_from-enough zero (suc more) pos h k = sym (
      go_on-none pos (scan_round low html tag pos) (blocks_from more low html tag) (omega arith)
        (at_start-MovesOn pos (find (open_needle tag) low pos) refl))
  blocks_from-enough (suc fuel) zero pos h k =
      go_on-none pos (scan_round low html tag pos) (blocks_from fuel low html tag) (omega arith)
        (at_start-MovesOn pos (find (open_needle tag) low pos) refl)
  blocks_from-enough (suc fuel) (suc more) pos h k =
      go_on-same pos (scan_round low html tag pos) (blocks_from fuel low html tag)
        (blocks_from more low html tag) (at_start-MovesOn pos (find (open_needle tag) low pos) refl)
        (λ p later. blocks_from-enough fuel more p (omega arith) (omega arith))

-- The scan always ends by itself: the rounds that the model allows are enough for every page, so any
-- larger number of rounds finds the same blocks, also where lowering changes the page's length.
pub iter_blocks-ends :
    (lower : Text → Text) (html tag : Text) (fuel : ℕ)
    → length (lower html) < fuel
    → blocks_from fuel (lower html) html tag 0 ≡ iter_blocks lower html tag
unfolding iter_blocks
iter_blocks-ends lower html tag fuel h =
    blocks_from-enough (lower html) html tag fuel (suc (length (lower html))) 0 (omega arith)
      (omega arith)
