-- ===== src/Pipeline/Rank.antt =====
-- app/pipeline/filter_rank.py: the classes of the addresses and their order. `second_level` is the
-- registrable label that tldextract gives, and `dropped` tells the addresses that `should_drop`
-- filters out.
use email_extractor.Common.{
  ℕ, ◌+◌, ◌≡◌, max, Bool, true, false, not, ◌&&◌, ◌||◌, Option, none, some, List, [], ◌∷◌, ◌++◌,
  ltb, leb, ◌==◌, if◌then◌else◌, Text, txt, text_eq, mem_text, ends_with, contains, length, take,
  get, or_else,
}
use email_extractor.Schemas.{Method, mailto, jsonld}
use email_extractor.Pipeline.Candidate.{EmailCandidate, RankedEmail, lower}
use email_extractor.Pipeline.Discovery.{leb_text}
pub mod Order

abbrev pub max_candidates : ℕ
max_candidates = 50

abbrev pub sibling_min_label : ℕ
sibling_min_label = 5

-- `ROLE_LOCALS`
abbrev pub role_locals : List Text
role_locals =
    txt "info"
    ∷ txt "hello"
    ∷ txt "contact"
    ∷ txt "sales"
    ∷ txt "support"
    ∷ txt "office"
    ∷ txt "admin"
    ∷ txt "team"
    ∷ txt "service"
    ∷ txt "help"
    ∷ txt "inquiries"
    ∷ txt "enquiries"
    ∷ txt "inquiry"
    ∷ txt "enquiry"
    ∷ txt "mail"
    ∷ txt "reception"
    ∷ txt "booking"
    ∷ txt "bookings"
    ∷ txt "appointments"
    ∷ txt "estimates"
    ∷ txt "quotes"
    ∷ txt "marketing"
    ∷ txt "hr"
    ∷ txt "careers"
    ∷ txt "jobs"
    ∷ txt "billing"
    ∷ txt "accounts"
    ∷ txt "privacy"
    ∷ txt "legal"
    ∷ txt "media"
    ∷ txt "press"
    ∷ txt "webmaster"
    ∷ []

-- `FREE_LABELS`
abbrev pub free_labels : List Text
free_labels =
    txt "gmail"
    ∷ txt "yahoo"
    ∷ txt "hotmail"
    ∷ txt "outlook"
    ∷ txt "aol"
    ∷ txt "icloud"
    ∷ txt "msn"
    ∷ txt "live"
    ∷ txt "comcast"
    ∷ txt "att"
    ∷ txt "sbcglobal"
    ∷ txt "verizon"
    ∷ txt "bellsouth"
    ∷ txt "me"
    ∷ txt "ymail"
    ∷ txt "protonmail"
    ∷ txt "proton"
    ∷ txt "mail"
    ∷ txt "gmx"
    ∷ txt "zoho"
    ∷ txt "yandex"
    ∷ []

-- `email.rpartition("@")`, where there is an at sign.
unfoldable pub last_at : Text → Option (Text × Text)
last_at [] = none
last_at (c ∷ s) = elim (last_at s) [
  | none ↦ if c == 64 then some ([], s) else none
  | some p ↦ some (c ∷ p.0, p.1)
]

-- `local_and_domain`
unfoldable pub local_and_domain : Text → Text × Text
local_and_domain email = elim (last_at email) [
  | none ↦ ([], lower email)
  | some p ↦ (lower p.0, lower p.1)
]

-- The rank of `classify`.
abbrev pub rank_of : (own role free : Bool) → ℕ
rank_of own role free =
    if own && not role then 1 else if own && role then 2 else if free then 3 else 4

module _ (second_level : Text → Text) where
  -- `is_own`
  unfoldable pub is_own : (email_domain site_domain : Text) → Bool
  is_own email_domain [] = false
  is_own email_domain (x ∷ domain) =
      let site = lower (x ∷ domain) in
      let host = lower email_domain in
      let a = lower (second_level host) in
      let b = lower (second_level site) in
      if text_eq.beq host site || ends_with (txt "." ++ site) host
      then true
      else if mem_text a free_labels
      then false
      else leb sibling_min_label (length a)
        && leb sibling_min_label (length b)
        && (contains a b || contains b a)

  -- `is_free`
  unfoldable pub is_free : Text → Bool
  is_free email_domain = mem_text (lower (second_level email_domain)) free_labels

  -- `classify`, with the candidate that it is about.
  unfoldable pub classify : (site_domain : Text) → EmailCandidate → RankedEmail
  classify site_domain c =
      let (local, domain) = local_and_domain c.email in
      let own = is_own domain site_domain in
      let role = mem_text local role_locals in
      let free = is_free domain in
      record { candidate = c; rank = rank_of own role free; own = own; role = role; free = free }

-- The part of the key that puts the precise methods first.
unfoldable pub method_key : Method → ℕ
method_key mailto = 0
method_key jsonld = 0
method_key _ = 1

-- `best_page_score`
unfoldable pub best_score : List (Text × ℕ) → List Text → ℕ
best_score scores [] = 0
best_score scores (u ∷ us) = max (or_else (get u scores) 0) (best_score scores us)

-- The key of the sort: `a` may stand before `b`.
unfoldable pub ranks_before : List (Text × ℕ) → RankedEmail → RankedEmail → Bool
ranks_before scores a b =
    let ma = method_key a.candidate.method in
    let mb = method_key b.candidate.method in
    let sa = best_score scores a.candidate.source_urls in
    let sb = best_score scores b.candidate.source_urls in
    let oa = a.candidate.order in
    let ob = b.candidate.order in
    ltb a.rank b.rank
    || (a.rank == b.rank
        && (ltb ma mb
            || (ma == mb
                && (ltb sb sa
                    || (sa == sb
                        && (ltb oa ob
                            || (oa == ob && leb_text a.candidate.email b.candidate.email)))))))

unfoldable pub insert_ranked : List (Text × ℕ) → RankedEmail → List RankedEmail → List RankedEmail
insert_ranked scores r [] = r ∷ []
insert_ranked scores r (s ∷ ss) =
    let rest = insert_ranked scores r ss in if ranks_before scores r s then r ∷ s ∷ ss else s ∷ rest

-- The classified candidates that are not dropped, in order.
unfoldable pub sort_ranked :
    (second_level : Text → Text)
    → (dropped : Text → Bool) → (site_domain : Text) → List (Text × ℕ)
    → List EmailCandidate
    → List RankedEmail
sort_ranked second_level dropped site_domain scores [] = []
sort_ranked second_level dropped site_domain scores (c ∷ cs) =
    let rest = sort_ranked second_level dropped site_domain scores cs in
    let r = classify second_level site_domain c in
    if dropped c.email then rest else insert_ranked scores r rest

-- `rank_candidates`
unfoldable pub rank_candidates :
    (second_level : Text → Text)
    → (dropped : Text → Bool) → (site_domain : Text) → List (Text × ℕ)
    → List EmailCandidate
    → List RankedEmail
rank_candidates second_level dropped site_domain scores cs =
    take max_candidates (sort_ranked second_level dropped site_domain scores cs)
