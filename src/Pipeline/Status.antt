-- ===== src/Pipeline/Status.antt =====
-- app/pipeline/status.py: the one status of a domain.
use email_extractor.Common.{
  ◌≡◌, ◌≢◌, ◌↔◌, Bool, true, false, not, ◌&&◌, ◌||◌, Option, List, [], ◌∷◌, arith, if◌then◌else◌,
  Text, is_truthy,
}
use email_extractor.Schemas.{
  Status, invalid_input, fetch_failed, parked_or_for_sale, no_business_email, found, form_only,
  no_contact_info,
}

-- `StatusInputs`; no list of addresses and an empty one are the same to the code.
pub record StatusInputs : Type 0 where
  pub invalid : Bool
  pub failed : Bool
  pub parked : Bool
  pub typesafe_said_none : Bool
  pub best_email : Option Text
  pub business_emails : List Text
  pub contact_form_url : Option Text

abbrev pub is_some_item {ℓ} : {A : Type ℓ} → List A → Bool
is_some_item [] = false
is_some_item (_ ∷ _) = true

-- `assign_status`
unfoldable pub assign_status : StatusInputs → Status
assign_status s =
    if s.invalid
    then invalid_input
    else if s.failed
    then fetch_failed
    else if s.parked && not (is_truthy s.best_email)
    then parked_or_for_sale
    else if s.typesafe_said_none && not (is_some_item s.business_emails || is_truthy s.best_email)
    then no_business_email
    else if is_truthy s.best_email
    then found
    else if is_truthy s.contact_form_url
    then form_only
    else no_contact_info

-- A domain that was processed is found exactly when it has a best address: no verdict on the site
-- and no contact form hides that address.
pub assign_status-found :
    (s : StatusInputs)
    → s.invalid ≡ false
    → s.failed ≡ false
    → (assign_status s ≡ found) ↔ (is_truthy s.best_email ≡ true)
unfolding assign_status
assign_status-found s hi hf = ground arith

-- A domain with business addresses or a best address is never reported as having none.
pub assign_status-keeps :
    (s : StatusInputs)
    → is_some_item s.business_emails || is_truthy s.best_email ≡ true
    → assign_status s ≢ no_business_email
unfolding assign_status
assign_status-keeps s h = ground arith
