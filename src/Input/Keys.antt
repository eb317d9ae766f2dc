-- ===== src/Input/Keys.antt =====
-- The key of an accepted cell is the address of a site of its own.
use email_extractor.Common.{
  ◌≡◌, ◌⊎◌, Bool, true, false, none, some, [], ◌∷◌, Text, eq_text, mem_text, ends_with,
}
use email_extractor.Input.{
  Library, site_builder_suffixes, Reason, NormalizedInput, is_text, is_social, site_builder_suffix,
}
use email_extractor.Input.Normalize.{host_of_key, is_ok}
use email_extractor.Input.Outcome.{IsCoded}

-- tldextract's registered domain of a host that the codec gave, where there is one, is that host or its
-- end behind a dot.
abbrev pub HasRegistered : Library → Type 0
HasRegistered lib =
    (h : Text)
    → IsCoded lib h
    → is_text (lib.registered h) ≡ true
    → (lib.registered h ≡ h) ⊎ (ends_with (46 ∷ lib.registered h) h ≡ true)

-- A listed suffix is found as itself.
abbrev finds_itself : Text → Bool
finds_itself host = elim (site_builder_suffix host) [ none ↦ false | some s ↦ eq_text host s ]

-- What is said of an outcome: a key with its host, or a reason.
abbrev pub IsSettled : NormalizedInput → Type 0
IsSettled n =
    ((d : Text) × (n.domain ≡ some d)
      × (is_text d ≡ true)
      × (is_ok n ≡ true)
      × (n.reason ≡ none)
      × (is_social (host_of_key d) [] ≡ false)
      × (mem_text (host_of_key d) site_builder_suffixes ≡ false))
    ⊎ ((r : Reason) × (n.domain ≡ none) × (is_ok n ≡ false) × (n.reason ≡ some r))
