-- ===== src/Ingest/Preview/Promise.antt =====
-- What a preview promises is what the job is made of.
use email_extractor.Common.{◌+◌, ◌≡◌, Option, List, map, length, count_if, Text, text_eq}
use email_extractor.Input.{NormalizedInput}
use email_extractor.Queue.Create.{unique_domains}
use email_extractor.Ingest.Preview.{Preview, PreparedItem}

abbrev domains : List NormalizedInput → List (Option Text)
domains ns = map (λ (n : NormalizedInput). n.domain) ns

-- What is promised of the items that a job is made of.
abbrev pub IsKept : Preview → List PreparedItem → Type 0
IsKept p items =
    (length (unique_domains (map (λ (t : PreparedItem). t.domain) items)) ≡ p.unique_domains)
    × (length items ≡ p.row_count)
    × (count_if (λ (t : PreparedItem). t.is_invalid) items ≡ p.invalid_count)
    × (p.unique_domains + p.duplicate_domains + p.invalid_count ≡ p.row_count)
