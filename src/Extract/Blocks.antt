-- ===== src/Extract/Blocks.antt =====
-- app/pipeline/htmlscan.py: the blocks `<tag ...>...</tag>` of a page, found in one pass. `low` is
-- `html.lower()`, which Python may make longer than `html`.
pub mod Order
pub mod Progress
pub mod Stripping
use email_extractor.Common.{
  ℕ, zero, suc, ◌+◌, ◌-◌, Bool, true, false, not, ◌&&◌, Option, none, some, List, [], ◌∷◌, ◌++◌,
  if◌then◌else◌, ◌==◌, ltb, length, take, drop, any, map, Text, txt, starts_with,
}

pub record Block : Type 0 where
  pub start : ℕ
  pub body_start : ℕ
  pub body_end : ℕ
  pub stop : ℕ
  pub attrs : Text

-- The first place of `needle` in a text that begins at the index `i`.
unfoldable pub find_from : Text → Text → ℕ → Option ℕ
find_from needle [] i = if starts_with needle [] then some i else none
find_from needle (c ∷ s) i =
    let rest = find_from needle s (suc i) in if starts_with needle (c ∷ s) then some i else rest

-- `s.find(needle, pos)`
unfoldable pub find : Text → Text → ℕ → Option ℕ
unfolding find_from
find needle s pos = find_from needle (drop pos s) pos

-- `s[a:b]`
unfoldable pub slice : Text → ℕ → ℕ → Text
slice s a b = take (b - a) (drop a s)

-- `c not in " \t\r\n/>"`
unfoldable pub goes_on : ℕ → Bool
goes_on c = not (any (λ d. c == d) (32 ∷ (9 ∷ (13 ∷ (10 ∷ (47 ∷ (62 ∷ [])))))))

-- Whether the tag's name goes on at an index of the page.
unfoldable pub name_goes_on : Text → ℕ → Bool
unfolding goes_on
name_goes_on html after = elim (drop after html) [ [] ↦ false | c ∷ s ↦ goes_on c ]

-- What a round of the loop finds: nothing more, another tag, the last block or a block.
pub data ScanRound : Type 0 where
  no_more : ScanRound
  other_tag : ℕ → ScanRound
  last_block : Block → ScanRound
  next_block : Block → ScanRound

-- `"<" + tag` and `"</" + tag`
unfoldable pub open_needle : Text → Text
open_needle tag = 60 ∷ tag

unfoldable pub close_needle : Text → Text
close_needle tag = 60 ∷ (47 ∷ tag)

-- The index behind a closing tag's ">", or the end of the page.
unfoldable pub behind : Text → Option ℕ → ℕ
behind html none = length html
behind html (some close_gt) = suc close_gt

-- The part of a round behind an opening tag's ">".
unfoldable pub close_block : (low html tag : Text) → (start after gt : ℕ) → Option ℕ → ScanRound
unfolding find slice close_needle behind
close_block low html tag start after gt none = last_block (record {
  start = start;
  body_start = suc gt;
  body_end = length html;
  stop = length html;
  attrs = slice html after gt;
})
close_block low html tag start after gt (some close) = next_block (record {
  start = start;
  body_start = suc gt;
  body_end = close;
  stop = behind html (find (62 ∷ []) html (close + length (close_needle tag)));
  attrs = slice html after gt;
})

unfoldable pub open_block : (low html tag : Text) → (start after : ℕ) → Option ℕ → ScanRound
unfolding close_block find
open_block low html tag start after none = no_more
open_block low html tag start after (some gt) =
    close_block low html tag start after gt (find (close_needle tag) low (suc gt))

-- A round from an opening tag's start on.
unfoldable pub at_start : (low html tag : Text) → Option ℕ → ScanRound
unfolding open_block name_goes_on open_needle
at_start low html tag none = no_more
at_start low html tag (some start) =
    let after = start + length (open_needle tag) in
    if ltb after (length html) && name_goes_on html after
    then other_tag after
    else open_block low html tag start after (find (62 ∷ []) html after)

unfoldable pub scan_round : (low html tag : Text) → ℕ → ScanRound
unfolding at_start
scan_round low html tag pos = at_start low html tag (find (open_needle tag) low pos)

-- The blocks of a round, given those from a later position on.
unfoldable pub go_on : ScanRound → (ℕ → List Block) → List Block
go_on no_more later = []
go_on (other_tag pos) later = later pos
go_on (last_block b) later = b ∷ []
go_on (next_block b) later = b ∷ later b.stop

unfoldable pub blocks_from : (fuel : ℕ) → (low html tag : Text) → ℕ → List Block
unfolding scan_round go_on
blocks_from zero low html tag pos = []
blocks_from (suc fuel) low html tag pos =
    go_on (scan_round low html tag pos) (blocks_from fuel low html tag)

-- `iter_blocks`: each round moves on in the lowered text, which holds no more rounds than characters.
unfoldable pub iter_blocks : (lower : Text → Text) → (html tag : Text) → List Block
unfolding blocks_from
iter_blocks lower html tag = blocks_from (suc (length (lower html))) (lower html) html tag 0

-- The loop of `strip_blocks` from the index `last` on.
unfoldable pub strip_from : Text → (Block → Text → Bool) → ℕ → List Block → Text
unfolding slice
strip_from html keep last [] = drop last html
strip_from html keep last (b ∷ blocks) =
    slice html last b.start
    ++ ((if keep b (slice html b.body_start b.body_end) then slice html b.start b.stop else 32 ∷ [])
        ++ strip_from html keep b.stop blocks)

-- `strip_blocks`; without `keep` no block is kept.
unfoldable pub strip_blocks :
    (lower : Text → Text) → (html tag : Text) → (Block → Text → Bool) → Text
unfolding iter_blocks strip_from
strip_blocks lower html tag keep = strip_from html keep 0 (iter_blocks lower html tag)

-- `bodies`
unfoldable pub bodies : (lower : Text → Text) → (html tag : Text) → List Text
unfolding iter_blocks slice
bodies lower html tag =
    map (λ (b : Block). slice html b.body_start b.body_end) (iter_blocks lower html tag)
