-- ===== src/Extract/Blocks/Order.antt =====
-- The blocks of a page lie within it, one behind the other, and the scan comes to its end.
use email_extractor.Common.{
  ℕ, zero, suc, ◌+◌, ◌≤◌, ◌<◌, ◌≡◌, refl, true, ◌&&◌, inl, inr, Bool-cases, Option-cases, Option,
  none, some, List, [], ◌∷◌, ltb, length, length-drop, drop, Text, starts_with, arith,
}
use email_extractor.Extract.Blocks.{
  Block, find_from, find, name_goes_on, ScanRound, no_more, other_tag, last_block, next_block,
  open_needle, close_needle, close_block, behind, open_block, at_start, scan_round, go_on,
  blocks_from, iter_blocks,
}

starts_with-length : (p s : Text) → starts_with p s ≡ true → length p ≤ length s
unfolding starts_with
starts_with-length [] s h = omega arith
starts_with-length (d ∷ p) [] h = cc
starts_with-length (d ∷ p) (c ∷ s) h = ground (arith, starts_with-length p s)

find_from-le :
    (needle s : Text) (i j : ℕ)
    → find_from needle s i ≡ some j
    → (i ≤ j) × (j + length needle ≤ i + length s)
unfolding find_from
find_from-le needle [] i j h = ground (arith, starts_with-length needle [])
find_from-le needle (c ∷ s) i j h =
    ground (arith, starts_with-length needle (c ∷ s), find_from-le needle s (suc i) j)

-- A place that is found lies at or behind `pos`, and all of it in the text.
pub find-le :
    (needle s : Text) (pos j : ℕ)
    → 1 ≤ length needle
    → find needle s pos ≡ some j
    → (pos ≤ j) × (j + length needle ≤ length s)
unfolding find
find-le needle s pos j n h =
    omega (arith, find_from-le needle (drop pos s) pos j h, length-drop pos s)

-- A block behind the index `pos` of a page of `n` characters.
abbrev pub IsBlockFrom : (pos n : ℕ) → Block → Type 0
IsBlockFrom pos n b =
    (pos ≤ b.start)
    × (b.start < b.body_start)
    × (b.body_start ≤ b.body_end)
    × (b.body_end ≤ b.stop)
    × (b.stop ≤ n)

abbrev pub AreOrdered : (pos n : ℕ) → List Block → Type 0
AreOrdered pos n [] = Unit
AreOrdered pos n (b ∷ blocks) = IsBlockFrom pos n b × AreOrdered b.stop n blocks

abbrev IsRoundFrom : (pos n : ℕ) → ScanRound → Type 0
IsRoundFrom pos n no_more = Unit
IsRoundFrom pos n (other_tag p) = pos < p
IsRoundFrom pos n (last_block b) = IsBlockFrom pos n b
IsRoundFrom pos n (next_block b) = IsBlockFrom pos n b

AreOrdered-earlier :
    (pos p n : ℕ) (blocks : List Block) → pos ≤ p → AreOrdered p n blocks → AreOrdered pos n blocks
AreOrdered-earlier pos p n [] h k = tt
AreOrdered-earlier pos p n (b ∷ blocks) h k = (
  (
    omega (arith, k.0),
    omega (arith, k.0),
    omega (arith, k.0),
    omega (arith, k.0),
    omega (arith, k.0),
  ),
  k.1,
)

go_on-AreOrdered :
    (pos n : ℕ) (round : ScanRound) (later : ℕ → List Block)
    → IsRoundFrom pos n round
    → ((p : ℕ) → AreOrdered p n (later p))
    → AreOrdered pos n (go_on round later)
unfolding go_on
go_on-AreOrdered pos n no_more later h k = tt
go_on-AreOrdered pos n (other_tag p) later h k =
    AreOrdered-earlier pos p n (later p) (omega arith) (k p)
go_on-AreOrdered pos n (last_block b) later h k = (h, tt)
go_on-AreOrdered pos n (next_block b) later h k = (h, k b.stop)

module _ (low html tag : Text) (same : length low ≡ length html) where
  close_block_lem :
      (pos start after gt : ℕ) (o : Option ℕ)
      → pos ≤ start
      → start < after
      → after ≤ gt
      → gt < length html
      → find (close_needle tag) low (suc gt) ≡ o
      → IsRoundFrom pos (length html) (close_block low html tag start after gt o)
  unfolding close_block close_needle behind
  close_block_lem pos start after gt none p q r t e =
      (p, omega arith, omega arith, omega arith, omega arith)
  close_block_lem pos start after gt (some close) p q r t e =
      let closing = find-le (close_needle tag) low (suc gt) close (omega arith) e in
      elim (Option-cases (find (62 ∷ []) html (close + length (close_needle tag)))) [
        | inl none_there ↦
            rw (none_there, behind) (p, omega arith, closing.0, omega (arith, closing), omega arith)
        | inr (j, there) ↦
            let place =
              find-le (62 ∷ []) html (close + length (close_needle tag)) j (omega arith) there in
            rw (there, behind)
              (p, omega arith, closing.0, omega (arith, place), omega (arith, place))
      ]

  open_block_lem :
      (pos start after : ℕ) (o : Option ℕ)
      → pos ≤ start
      → start < after
      → find (62 ∷ []) html after ≡ o
      → IsRoundFrom pos (length html) (open_block low html tag start after o)
  unfolding open_block
  open_block_lem pos start after none p q e = tt
  open_block_lem pos start after (some gt) p q e =
      let place = find-le (62 ∷ []) html after gt (omega arith) e in
      close_block_lem pos start after gt (find (close_needle tag) low (suc gt)) p q place.0
        (omega (arith, place)) refl

  at_start_lem :
      (pos : ℕ) (o : Option ℕ)
      → find (open_needle tag) low pos ≡ o
      → IsRoundFrom pos (length html) (at_start low html tag o)
  unfolding at_start open_needle
  at_start_lem pos none e = tt
  at_start_lem pos (some start) e =
      let place = find-le (open_needle tag) low pos start (omega arith) e in
      let after = start + length (open_needle tag) in
      elim (Bool-cases (ltb after (length html) && name_goes_on html after)) [
        | inl t ↦ rw t (omega (arith, place))
        | inr f ↦
            rw f (
              open_block_lem pos start after (find (62 ∷ []) html after) place.0 (omega arith) refl)
      ]

  blocks_from-AreOrdered :
      (fuel pos : ℕ) → AreOrdered pos (length html) (blocks_from fuel low html tag pos)
  unfolding blocks_from scan_round
  blocks_from-AreOrdered zero pos = tt
  blocks_from-AreOrdered (suc fuel) pos =
      go_on-AreOrdered pos (length html) (scan_round low html tag pos)
        (blocks_from fuel low html tag) (at_start_lem pos (find (open_needle tag) low pos) refl)
        (blocks_from-AreOrdered fuel)

-- The blocks that are found lie within the page, in document order and none over another: each opens
-- behind the last one's end, its body starts behind its opening tag and ends no later than the block,
-- which ends no later than the page. This needs that lowering keeps the page's length.
pub iter_blocks-AreOrdered :
    (lower : Text → Text) (html tag : Text)
    → length (lower html) ≡ length html
    → AreOrdered 0 (length html) (iter_blocks lower html tag)
unfolding iter_blocks
iter_blocks-AreOrdered lower html tag same =
    blocks_from-AreOrdered (lower html) html tag same (suc (length (lower html))) 0
