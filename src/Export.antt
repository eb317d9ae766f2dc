-- ===== src/Export.antt =====
-- app/jobs.py: the rows of a job's download. A result's cells are texts under the names of
-- `RESULT_FIELDS`; a confidence is counted in thousandths, which is the precision that is written.
pub mod Download
pub mod Stream
pub mod Counts
mod Tests
use email_extractor.Common.{
  ℕ, ◌+◌, ◌/◌, ◌%◌, Bool, true, false, ◌||◌, Option, none, some, List, [], ◌∷◌, ◌++◌, map,
  if◌then◌else◌, ◌==◌, Text, txt, text_eq, text_or, join, decimal, get, put, or_else,
}
use email_extractor.Schemas.{
  Status, invalid_input, fetch_failed, parked_or_for_sale, no_business_email, found, form_only,
  no_contact_info, Source, EmailCandidateOut, DomainResult,
}

-- `EX_PREFIX`
abbrev pub ex_prefix : Text
ex_prefix = txt "ex_"

-- `SOCIAL_FIELDS`
abbrev pub social_fields : List Text
social_fields =
    txt "facebook"
    ∷ (txt "instagram"
        ∷ (txt "linkedin" ∷ (txt "x" ∷ (txt "youtube" ∷ (txt "tiktok" ∷ (txt "yelp" ∷ []))))))

-- `RESULT_FIELDS`
abbrev pub result_fields : List Text
result_fields =
    txt "domain"
    ∷ (txt "final_domain"
        ∷ (txt "status"
            ∷ (txt "best_email"
                ∷ (txt "best_email_source"
                    ∷ (txt "confidence"
                        ∷ (txt "needs_review"
                            ∷ (txt "business_emails"
                                ∷ (txt "all_emails"
                                    ∷ (txt "phones"
                                        ∷ (txt "contact_form_url"
                                            ∷ (txt "facebook"
                                                ∷ (txt "instagram"
                                                    ∷ (txt "linkedin"
                                                        ∷ (txt "x"
                                                            ∷ (txt "youtube"
                                                            ∷ (txt "tiktok"
                                                            ∷ (txt "yelp"
                                                            ∷ (txt "mx_provider"
                                                            ∷ (txt "site_status"
                                                            ∷ (txt "pages_fetched"
                                                            ∷ (txt "error_reason"
                                                            ∷ (txt "retrying"
                                                            ∷ []))))))))))))))))))))))

abbrev pub status_text : Status → Text
status_text invalid_input = txt "invalid_input"
status_text fetch_failed = txt "fetch_failed"
status_text parked_or_for_sale = txt "parked_or_for_sale"
status_text no_business_email = txt "no_business_email"
status_text found = txt "found"
status_text form_only = txt "form_only"
status_text no_contact_info = txt "no_contact_info"

abbrev pub source_text : Option Source → Text
source_text none = []
source_text (some Source.typesafe) = txt "typesafe"
source_text (some Source.rules) = txt "rules"

abbrev pub bool_text : Bool → Text
bool_text b = if b then txt "true" else txt "false"

-- `f"{confidence:.3f}"`
unfoldable pub confidence_text : Option ℕ → Text
unfolding decimal
confidence_text none = []
confidence_text (some c) =
    decimal (c / 1000) ++ (46 ∷ ((48 + c / 100 % 10) ∷ ((48 + c / 10 % 10) ∷ ((48 + c % 10) ∷ []))))

abbrev pub Cells : Type 0
Cells = List (Text × Text)

abbrev separator : Text
separator = txt ", "

abbrev pub email_of : EmailCandidateOut → Text
email_of c = c.email

-- The loop of `result_cells` over the networks.
unfoldable pub add_socials : List (Text × Text) → List Text → Cells → Cells
add_socials socials [] cells = cells
add_socials socials (network ∷ networks) cells =
    add_socials socials networks (put network (or_else (get network socials) []) cells)

-- `result_cells`
unfoldable pub result_cells :
    Option DomainResult → (pending_domain : Option Text) → (retrying : Bool) → Cells
unfolding add_socials confidence_text join
result_cells none pending_domain retrying =
    (txt "domain", text_or pending_domain)
    ∷ ((txt "status", txt "pending") ∷ ((txt "retrying", bool_text retrying) ∷ []))
result_cells (some r) pending_domain retrying = add_socials r.socials social_fields (
    (txt "domain", r.domain)
    ∷ ((txt "final_domain", text_or r.final_domain)
        ∷ ((txt "status", status_text r.status)
            ∷ ((txt "best_email", text_or r.best_email)
                ∷ ((txt "best_email_source", source_text r.best_email_source)
                    ∷ ((txt "confidence", confidence_text r.confidence)
                        ∷ ((txt "needs_review", bool_text r.needs_review)
                            ∷ ((txt "business_emails", join separator r.business_emails)
                                ∷ ((txt "all_emails", join separator (map email_of r.all_emails))
                                    ∷ ((txt "phones", join separator r.phones)
                                        ∷ ((txt "contact_form_url", text_or r.contact_form_url)
                                            ∷ ((txt "mx_provider", text_or r.mx_provider)
                                                ∷ ((txt "site_status", text_or r.site_status)
                                                    ∷ ((
                                                      txt "pages_fetched",
                                                      join separator r.pages_fetched,
                                                    )
                                                        ∷ ((
                                                          txt "error_reason",
                                                          text_or r.error_reason,
                                                        )
                                                            ∷ ((txt "retrying", bool_text retrying)
                                                            ∷ []))))))))))))))))

-- `_FORMULA`: equals, plus, minus, at, tab and carriage return.
unfoldable pub is_formula_char : ℕ → Bool
is_formula_char c = c == 61 || (c == 43 || (c == 45 || (c == 64 || (c == 9 || c == 13))))

-- `value.startswith(_FORMULA)`
unfoldable pub is_formula : Text → Bool
is_formula [] = false
is_formula (c ∷ s) = is_formula_char c

-- `csv_safe`
unfoldable pub csv_safe : Text → Text
csv_safe value = if is_formula value then 39 ∷ value else value

-- `output_header`
unfoldable pub output_header : List Text → List Text
output_header source_columns =
    map csv_safe source_columns ++ map (λ f. ex_prefix ++ f) result_fields

-- `csv_safe(str(cells.get(f, "") or ""))`
unfoldable pub cell_at : Cells → Text → Text
cell_at cells f = csv_safe (or_else (get f cells) [])

-- `output_row`
unfoldable pub output_row :
    List Text
    → (raw_row : Cells) → Option DomainResult
    → (pending_domain : Option Text) → Bool
    → List Text
unfolding cell_at result_cells
output_row source_columns raw_row result pending_domain retrying =
    let cells = result_cells result pending_domain retrying in
    map (cell_at raw_row) source_columns ++ map (cell_at cells) result_fields

-- The update of `json_line`'s payload by the result's cells.
unfoldable pub add_cells : Cells → Cells → Cells
add_cells payload [] = payload
add_cells payload ((k, v) ∷ cells) = add_cells (put (ex_prefix ++ k) v payload) cells

-- The file's own columns in `json_line`'s payload.
unfoldable pub add_columns : Cells → List Text → Cells → Cells
add_columns raw_row [] payload = payload
add_columns raw_row (c ∷ cs) payload =
    add_columns raw_row cs (put c (or_else (get c raw_row) []) payload)

-- The object that `json_line` writes.
unfoldable pub json_payload :
    List Text
    → (raw_row : Cells) → Option DomainResult
    → (pending_domain : Option Text) → Bool
    → Cells
unfolding add_cells add_columns result_cells
json_payload source_columns raw_row result pending_domain retrying =
    add_cells (add_columns raw_row source_columns []) (result_cells result pending_domain retrying)
