-- ===== src/Export/Stream.antt =====
-- `stream_rows` of app/jobs.py: the items of a job joined with its queue entries, in input order, and
-- the bounded cache of results that were read back. What it yields does not depend on the cache.
use email_extractor.Common.{
  ℕ, ltb, ◌≡◌, refl, sym, ◌∙◌, Bool, true, false, ◌&&◌, inl, inr, Option, none, some, List, [], ◌∷◌,
  ◌++◌, map, arith, if◌then◌else◌, Bool-cases, Option-cases, length, take, drop, All, All-append,
  All-drop, find_first, Text, txt, text_or, text_eq, eq_text, eq_text_iff, get,
}
use email_extractor.Schemas.{invalid_input, DomainResult, blank}
use email_extractor.Queue.State.{is_queued, is_done, Payload, Row, is_at}
use email_extractor.Queue.Locks.{validate}
use email_extractor.Export.{Cells}
use email_extractor.Export.Download.{Streamed}

-- A row of `job_items`. Its status is `invalid_input` or NULL.
pub record Item : Type 0 where
  pub input_value : Text
  pub domain : Option Text
  pub is_invalid : Bool
  pub reason : Option Text
  pub raw_row : Cells

-- The outer join on the job and the domain: a NULL domain matches no row.
unfoldable pub joined : ℕ → List Row → Option Text → Option Row
joined job_id rows none = none
joined job_id rows (some d) = find_first (is_at job_id d) rows

-- `parsed`, with the entry that was used last at the end.
abbrev pub Parsed : Type 0
Parsed = List (Text × Option DomainResult)

-- `PARSED_CACHE`
abbrev pub parsed_cache : ℕ
parsed_cache = 2000

unfoldable pub remove_entry : Text → Parsed → Parsed
remove_entry d [] = []
remove_entry d ((k, v) ∷ parsed) =
    let rest = remove_entry d parsed in if eq_text k d then rest else (k, v) ∷ rest

-- `parsed.move_to_end(d)`
unfoldable pub move_to_end : Text → Option DomainResult → Parsed → Parsed
unfolding remove_entry
move_to_end d result parsed = remove_entry d parsed ++ ((d, result) ∷ [])

-- A new entry, which drops the oldest one of a full cache.
unfoldable pub add_parsed : ℕ → Text → Option DomainResult → Parsed → Parsed
add_parsed size d result parsed =
    let added = parsed ++ ((d, result) ∷ []) in
    if ltb size (length added) then drop 1 added else added

-- The result of a finished row, from the cache or read back, and the cache behind it.
unfoldable pub parse_cached : ℕ → Text → Option Payload → Parsed → Option DomainResult × Parsed
unfolding move_to_end add_parsed
parse_cached size d raw parsed = elim (get d parsed) [
  | some result ↦ (result, move_to_end d result parsed)
  | none ↦ (validate raw, add_parsed size d (validate raw) parsed)
]

-- `state == "done" and raw`
unfoldable pub is_stored : Row → Bool
is_stored r = is_done r.state && elim r.result [ none ↦ false | some p ↦ true ]

-- The result that is looked up for an item's row.
unfoldable pub lookup_result :
    ℕ → (domain : Text) → Option Row → Parsed → Option DomainResult × Parsed
unfolding parse_cached is_stored
lookup_result size domain none parsed = (none, parsed)
lookup_result size domain (some r) parsed =
    if is_stored r then parse_cached size domain r.result parsed else (none, parsed)

-- `item.domain or item.input_value[:255] or "-"`
unfoldable pub shown_domain : Item → Text
shown_domain item = elim item.domain [
  | some (c ∷ d) ↦ c ∷ d
  | _ ↦ elim (take 255 item.input_value) [ [] ↦ txt "-" | c ∷ s ↦ c ∷ s ]
]

-- An item that was never queued gets a result that says why.
unfoldable pub or_invalid : Item → Option DomainResult → Option DomainResult
unfolding shown_domain
or_invalid item (some result) = some result
or_invalid item none =
    if item.is_invalid
    then some (record (blank (shown_domain item) invalid_input) { error_reason = item.reason })
    else none

-- `result is None and state == "queued" and (attempts or 0) > 0`
unfoldable pub is_retrying : Option DomainResult → Option Row → Bool
is_retrying (some result) row = false
is_retrying none none = false
is_retrying none (some r) = is_queued r.state && ltb 0 r.attempts

-- What is yielded for an item whose result is known.
unfoldable pub yielded : Item → Option Row → Option DomainResult → Streamed
unfolding or_invalid is_retrying
yielded item row result = record {
  raw_row = item.raw_row;
  result = or_invalid item result;
  pending = item.domain;
  retrying = is_retrying (or_invalid item result) row;
}

-- `stream_rows` from a given cache on.
unfoldable pub stream_from : ℕ → ℕ → List Row → Parsed → List Item → List Streamed
unfolding lookup_result yielded joined
stream_from size job_id rows parsed [] = []
stream_from size job_id rows parsed (item ∷ items) =
    let row = joined job_id rows item.domain in
    let looked = lookup_result size (text_or item.domain) row parsed in
    yielded item row looked.0 ∷ stream_from size job_id rows looked.1 items

-- `stream_rows`, over the job's items in the order of their row index.
unfoldable pub stream_rows : ℕ → List Row → List Item → List Streamed
unfolding stream_from
stream_rows job_id rows items = stream_from parsed_cache job_id rows [] items

-- The result that a row itself holds.
unfoldable pub own_result : Option Row → Option DomainResult
unfolding is_stored
own_result none = none
own_result (some r) = if is_stored r then validate r.result else none

-- What an item gets with no cache.
unfoldable pub own_row : ℕ → List Row → Item → Streamed
unfolding joined own_result yielded
own_row job_id rows item =
    let row = joined job_id rows item.domain in yielded item row (own_result row)

-- Every entry of the cache is the result of its domain's row.
abbrev IsFaithful : ℕ → List Row → Parsed → Type 0
IsFaithful job_id rows parsed =
    All (λ (e : Text × Option DomainResult). e.1 ≡ own_result (joined job_id rows (some e.0)))
      parsed

All-remove_entry {ℓ} :
    (P : Text × Option DomainResult → Type ℓ) (d : Text) (parsed : Parsed)
    → All P parsed
    → All P (remove_entry d parsed)
unfolding remove_entry
All-remove_entry P d [] h = tt
All-remove_entry P d ((k, v) ∷ parsed) h = elim (Bool-cases (eq_text k d)) [
  | inl t ↦ rw t (All-remove_entry P d parsed h.1)
  | inr f ↦ rw f (h.0, All-remove_entry P d parsed h.1)
]

All-add_parsed {ℓ} :
    (P : Text × Option DomainResult → Type ℓ) (size : ℕ) (d : Text) (v : Option DomainResult)
    (parsed : Parsed)
    → All P parsed
    → P (d, v)
    → All P (add_parsed size d v parsed)
unfolding add_parsed
All-add_parsed P size d v parsed h k =
    let kept = All-append P parsed ((d, v) ∷ []) h (k, tt) in
    elim (Bool-cases (ltb size (length (parsed ++ ((d, v) ∷ []))))) [
      | inl t ↦ rw t (All-drop P 1 _ kept)
      | inr f ↦ rw f kept
    ]

get-IsFaithful :
    (job_id : ℕ) (rows : List Row) (d : Text) (v : Option DomainResult) (parsed : Parsed)
    → IsFaithful job_id rows parsed
    → get d parsed ≡ some v
    → v ≡ own_result (joined job_id rows (some d))
get-IsFaithful job_id rows d v [] h e = cc
get-IsFaithful job_id rows d v ((k, w) ∷ parsed) h e = elim (Bool-cases (eq_text k d)) [
  | inl t ↦ ground (arith, (eq_text_iff k d).0 t, h.0)
  | inr f ↦ get-IsFaithful job_id rows d v parsed h.1 (ground arith)
]

parse_cached-IsFaithful :
    (size job_id : ℕ) (rows : List Row) (d : Text) (r : Row) (parsed : Parsed)
    → IsFaithful job_id rows parsed
    → joined job_id rows (some d) ≡ some r
    → is_stored r ≡ true
    → ((parse_cached size d r.result parsed).0 ≡ validate r.result)
      × IsFaithful job_id rows (parse_cached size d r.result parsed).1
unfolding parse_cached
parse_cached-IsFaithful size job_id rows d r parsed h e t =
    let own : own_result (joined job_id rows (some d)) ≡ validate r.result =
      unfold own_result in rw e (rw t refl) in
    elim (Option-cases (get d parsed)) [
      | inl f ↦
          rw (f, parse_cached)
            (refl, All-add_parsed _ size d (validate r.result) parsed h (sym own))
      | inr (v, f) ↦
          let same = get-IsFaithful job_id rows d v parsed h f in
          rw (f, parse_cached)
            (
              same ∙ own,
              All-append _ (remove_entry d parsed) ((d, v) ∷ []) (All-remove_entry _ d parsed h)
                  (same, tt),
            )
    ]

lookup_result-IsFaithful :
    (size job_id : ℕ) (rows : List Row) (d : Option Text) (parsed : Parsed)
    → IsFaithful job_id rows parsed
    → ((lookup_result size (text_or d) (joined job_id rows d) parsed).0
        ≡ own_result (joined job_id rows d))
      × IsFaithful job_id rows (lookup_result size (text_or d) (joined job_id rows d) parsed).1
unfolding lookup_result own_result joined
lookup_result-IsFaithful size job_id rows none parsed h = (refl, h)
lookup_result-IsFaithful size job_id rows (some d) parsed h =
    elim (Option-cases (joined job_id rows (some d))) [
      | inl e ↦ rw e (refl, h)
      | inr (r, e) ↦ elim (Bool-cases (is_stored r)) [
        | inl t ↦
            rw (e, lookup_result, own_result, t)
              (parse_cached-IsFaithful size job_id rows d r parsed h e t)
        | inr f ↦ rw (e, lookup_result, own_result, f) (refl, h)
      ]
    ]

stream_from-own_row :
    (size job_id : ℕ) (rows : List Row) (items : List Item) (parsed : Parsed)
    → IsFaithful job_id rows parsed
    → stream_from size job_id rows parsed items ≡ map (own_row job_id rows) items
unfolding stream_from own_row
stream_from-own_row size job_id rows [] parsed h = refl
stream_from-own_row size job_id rows (item ∷ items) parsed h =
    let ok = lookup_result-IsFaithful size job_id rows item.domain parsed h in
    ground (
      arith,
      ok.0,
      stream_from-own_row size job_id rows items
          (lookup_result size (text_or item.domain) (joined job_id rows item.domain) parsed).1 ok.1,
    )

-- The bounded cache changes nothing: whatever its size drops, a download yields for each item, in
-- input order, what the item's own queue entry holds, as if every result were read back afresh.
pub stream_rows-own_row :
    (job_id : ℕ) (rows : List Row) (items : List Item)
    → stream_rows job_id rows items ≡ map (own_row job_id rows) items
unfolding stream_rows
stream_rows-own_row job_id rows items = stream_from-own_row parsed_cache job_id rows items [] tt
