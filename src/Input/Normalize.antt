-- ===== src/Input/Normalize.antt =====
-- `normalize_input` of app/pipeline/normalize.py: what an input cell comes to, the first fragment and
-- the first token that decide it.
use email_extractor.Common.{
  Bool, true, false, not, ◌&&◌, ◌||◌, Option, none, some, List, [], ◌∷◌, ◌++◌, if◌then◌else◌, ◌==◌,
  leb, length, Text, txt, eq_text, mem_text, starts_with, contains, strip, strip_left, strip_right,
}
use email_extractor.Input.Hosts.{is_ipv4, without_www}
use email_extractor.Input.{
  Library, null_tokens, path_scoped_suffixes, free_email_labels, Reason, empty, not_a_url,
  social_or_directory, free_email_only, DomainSource, website, email, NormalizedInput, fragments,
  is_text, tokens, host_and_path, to_punycode, site_builder_suffix, is_social,
}

-- What stands before the next slash.
unfoldable pub segment_behind : Text → Text
segment_behind [] = []
segment_behind (c ∷ s) = let rest = segment_behind s in if c == 47 then [] else c ∷ rest

-- `next((s for s in path.split("/") if s), "")`
unfoldable pub first_segment : Text → Text
unfolding segment_behind strip_left
first_segment path = segment_behind (strip_left (λ c. c == 47) path)

-- An outcome that is refused, and one that has a key.
abbrev pub refuse : Text → Bool → DomainSource → Reason → NormalizedInput
refuse display multiple source reason = record {
  domain = none;
  display = display;
  is_invalid = true;
  reason = some reason;
  domain_source = source;
  multiple_values = multiple;
}

abbrev pub accept : Text → Bool → DomainSource → Text → NormalizedInput
accept display multiple source key = record {
  domain = some key;
  display = display;
  is_invalid = false;
  reason = none;
  domain_source = source;
  multiple_values = multiple;
}

-- The key of a host under a site builder's suffix.
unfoldable pub site_key : (host path suffix : Text) → Text
unfolding first_segment
site_key host path suffix =
    if mem_text suffix path_scoped_suffixes && is_text (first_segment path)
    then host ++ (47 ∷ first_segment path)
    else host

-- What a host in its ASCII form comes to, or none to go on with the next token.
unfoldable pub judge_host :
    Library
    → (display : Text) → (multiple : Bool) → DomainSource
    → (host path : Text) → Option NormalizedInput
unfolding is_social site_builder_suffix site_key
judge_host lib display multiple source host path =
    if is_social host path
    then some (refuse display multiple website social_or_directory)
    else elim (site_builder_suffix host) [
      | some suffix ↦
          if eq_text host suffix
          then some (refuse display multiple website social_or_directory)
          else some (accept display multiple source (site_key host path suffix))
      | none ↦
          if is_text (lib.registered host)
          then some (accept display multiple source (lib.registered host))
          else none
    ]

-- The loop over the tokens, of a host that was read.
unfoldable pub judge_ascii :
    Library
    → (display : Text) → (multiple : Bool) → DomainSource
    → Option Text
    → (path : Text) → Option NormalizedInput
unfolding judge_host
judge_ascii lib display multiple source none path = none
judge_ascii lib display multiple source (some host) path =
    if is_text host && contains (txt ".") host
    then judge_host lib display multiple source host path
    else none

unfoldable pub judge_token :
    Library
    → (display : Text) → (multiple : Bool) → DomainSource
    → Option (Text × Text)
    → Option NormalizedInput
unfolding judge_ascii to_punycode
judge_token lib display multiple source none = none
judge_token lib display multiple source (some (host, path)) =
    if is_ipv4 lib.is_digit host
    then some (refuse display multiple website not_a_url)
    else judge_ascii lib display multiple source (to_punycode lib (without_www lib.is_digit host))
        path

unfoldable pub judge_tokens :
    Library
    → (display : Text) → (multiple : Bool) → DomainSource
    → List Text
    → Option NormalizedInput
unfolding judge_token host_and_path
judge_tokens lib display multiple source [] = none
judge_tokens lib display multiple source (token ∷ rest) =
    elim (judge_token lib display multiple source (host_and_path lib token)) [
      | some result ↦ some result
      | none ↦ judge_tokens lib display multiple source rest
    ]

-- `work.rpartition("@")`, where there is an "@".
unfoldable pub rpartition : Text → Option (Text × Text)
rpartition [] = none
rpartition (c ∷ s) = elim (rpartition s) [
  | some (local, rest) ↦ some (c ∷ local, rest)
  | none ↦ if c == 64 then some ([], s) else none
]

unfoldable pub is_url : Library → Text → Bool
is_url lib work =
    starts_with (txt "http://") (lib.lower work) || starts_with (txt "https://") (lib.lower work)

-- The label of an address's domain.
unfoldable pub label_of : Library → Text → Text
label_of lib rest = lib.label (strip_right (λ c. c == 46) (lib.lower (strip rest)))

-- A fragment that may be an address: its domain is read, unless it is a free provider's.
unfoldable pub judge_address :
    Library
    → (display : Text) → (multiple : Bool) → Text
    → Option (Text × Text)
    → Option NormalizedInput
unfolding judge_tokens tokens label_of
judge_address lib display multiple work none =
    judge_tokens lib display multiple website (tokens work)
judge_address lib display multiple work (some (local, rest)) =
    if is_text local && contains (txt ".") rest
    then if mem_text (label_of lib rest) free_email_labels
      then some (refuse display multiple email free_email_only)
      else judge_tokens lib display multiple email (tokens rest)
    else judge_tokens lib display multiple website (tokens work)

-- `_normalize_fragment`
unfoldable pub normalize_fragment :
    Library → (fragment display : Text) → (multiple : Bool) → Option NormalizedInput
unfolding judge_address rpartition is_url
normalize_fragment lib fragment display multiple =
    if is_url lib fragment
    then judge_tokens lib display multiple website (tokens fragment)
    else judge_address lib display multiple fragment (rpartition fragment)

-- The loop over the fragments.
unfoldable pub normalize_fragments :
    Library → (display : Text) → (multiple : Bool) → List Text → NormalizedInput
unfolding normalize_fragment
normalize_fragments lib display multiple [] = refuse display multiple website not_a_url
normalize_fragments lib display multiple (fragment ∷ rest) =
    elim (normalize_fragment lib fragment display multiple) [
      | some result ↦ result
      | none ↦ normalize_fragments lib display multiple rest
    ]

unfoldable pub normalize_parts : Library → (display : Text) → List Text → NormalizedInput
unfolding normalize_fragments
normalize_parts lib display [] = refuse display false website empty
normalize_parts lib display (part ∷ parts) =
    normalize_fragments lib display (leb 2 (length (part ∷ parts))) (part ∷ parts)

-- `normalize_input`
unfoldable pub normalize_input : Library → Text → NormalizedInput
unfolding normalize_parts fragments
normalize_input lib raw =
    let value = strip raw in
    if mem_text (lib.lower value) null_tokens
    then refuse value false website empty
    else normalize_parts lib value (fragments value)

-- `NormalizedInput.ok`
unfoldable pub is_ok : NormalizedInput → Bool
is_ok n = elim n.domain [ none ↦ false | some d ↦ not n.is_invalid ]

-- `domain.partition("/")[2]`
unfoldable pub path_of_key : Text → Text
path_of_key [] = []
path_of_key (c ∷ s) = let rest = path_of_key s in if c == 47 then s else rest

-- `host_of_key`
unfoldable pub host_of_key : Text → Text
unfolding segment_behind
host_of_key domain = segment_behind domain

-- `crawl_url`
unfoldable pub crawl_url : (domain scheme : Text) → (www : Bool) → Text
unfolding host_of_key path_of_key
crawl_url domain scheme www =
    scheme
    ++ (txt "://"
        ++ ((if www then txt "www." else [])
            ++ (host_of_key domain
                ++ (txt "/"
                    ++ (if is_text (path_of_key domain)
                        then path_of_key domain ++ txt "/"
                        else [])))))
