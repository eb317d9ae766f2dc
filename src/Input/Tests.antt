-- ===== src/Input/Tests.antt =====
-- `normalize_input` with concrete functions for the libraries.
use email_extractor.Common.{
  ◌≡◌, refl, ◌&&◌, Option, none, some, if◌then◌else◌, leb, mem_text, starts_with, contains,
  ends_with, Text, txt, drop,
}
use email_extractor.Input.{Library}
use email_extractor.Input.Hosts.{is_valid_host, is_ipv4, without_www}
use email_extractor.Input.Normalize.{normalize_input, segment_behind, path_of_key}
use email_extractor.Input.Outcome.{has_slash}

abbrev idna : Text → Option Text
idna h = if has_slash h then none else some h

abbrev library : Library
library = record {
  lower = λ s. s;
  is_digit = λ c. leb 48 c && leb c 57;
  url_parts = λ s. some (segment_behind (drop 7 s), path_of_key (drop 7 s));
  idna = idna;
  label = λ s. s;
  registered = λ s. s;
}

normalized_lem :
    (normalize_input library (txt "www.acme.com/contact")).domain ≡ some (txt "acme.com")
unfolding normalize_input mem_text starts_with contains is_valid_host is_ipv4 without_www ends_with
normalized_lem = refl
