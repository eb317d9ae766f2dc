-- ===== src/Input/Hosts.antt =====
-- The patterns of app/pipeline/normalize.py over hosts.
use email_extractor.Common.{
  ℕ, zero, suc, ◌+◌, ◌-◌, min, Bool, true, false, ◌&&◌, ◌||◌, Option, none, some, List, [], ◌∷◌,
  if◌then◌else◌, ◌==◌, leb, take, Text,
}

-- A letter of ASCII, or a character from U+00A1 to U+FFFF.
unfoldable pub is_letter : ℕ → Bool
is_letter c = (leb 65 c && leb c 90) || ((leb 97 c && leb c 122) || (leb 161 c && leb c 65535))

-- Such a letter or a digit.
unfoldable pub is_word : ℕ → Bool
unfolding is_letter
is_word c = (leb 48 c && leb c 57) || is_letter c

-- Such a character, a dot, an underscore or a dash.
unfoldable pub is_host_char : ℕ → Bool
unfolding is_word
is_host_char c = is_word c || (c == 46 || (c == 95 || c == 45))

unfoldable pub letters : Text → ℕ
unfolding is_letter
letters [] = 0
letters (c ∷ s) = let rest = letters s in if is_letter c then suc rest else 0

-- The end of the longest match of `_HOSTISH` with its last dot here or later; `n` characters stand
-- before, and `closed` tells whether the last of them may stand before the dot.
unfoldable pub match_end : (closed : Bool) → (n : ℕ) → Text → Option ℕ
unfolding is_host_char letters is_word
match_end closed n [] = none
match_end closed n (c ∷ s) =
    let later = match_end (is_word c) (suc n) s in
    if is_host_char c
    then elim later [
      | some k ↦ some k
      | none ↦
          if c == 46 && (closed && leb 2 (letters s))
          then some (suc n + min 24 (letters s))
          else none
    ]
    else none

-- The length of the match of `_HOSTISH` at the start of a text.
unfoldable pub host_at : Text → Option ℕ
unfolding match_end
host_at [] = none
host_at (c ∷ s) = if is_word c then match_end true 1 s else none

-- `_HOSTISH.finditer`: `skip` characters belong to the last match.
unfoldable pub hosts_from : (skip : ℕ) → Text → List Text
unfolding host_at
hosts_from skip [] = []
hosts_from (suc skip) (c ∷ s) = hosts_from skip s
hosts_from zero (c ∷ s) = elim (host_at (c ∷ s)) [
  | none ↦ hosts_from zero s
  | some n ↦ take n (c ∷ s) ∷ hosts_from (n - 1) s
]

unfoldable pub hosts_in : Text → List Text
unfolding hosts_from
hosts_in fragment = hosts_from 0 fragment

-- The same in lower case.
unfoldable pub is_lower_word : ℕ → Bool
is_lower_word c = (leb 97 c && leb c 122) || ((leb 48 c && leb c 57) || (leb 161 c && leb c 65535))

-- The rest of `_VALID_HOST`, where `closed` tells whether the text may end here.
unfoldable pub is_host_rest : (closed : Bool) → Text → Bool
unfolding is_lower_word
is_host_rest closed [] = closed
is_host_rest closed (c ∷ s) =
    (is_lower_word c || (c == 46 || c == 45)) && is_host_rest (is_lower_word c) s

-- `_VALID_HOST`
unfoldable pub is_valid_host : Text → Bool
unfolding is_host_rest
is_valid_host [] = false
is_valid_host (c ∷ s) = is_lower_word c && is_host_rest true s

-- `_IPV4` from a part on: `parts` more are to come, and the open one has `n` digits.
unfoldable pub is_ipv4_from : (is_digit : ℕ → Bool) → (parts n : ℕ) → Text → Bool
is_ipv4_from is_digit parts n [] = parts == 0 && leb 1 n
is_ipv4_from is_digit parts n (c ∷ s) =
    let digit = is_digit c in
    (if digit then leb (suc n) 3 else c == 46 && (leb 1 n && leb 1 parts))
    && is_ipv4_from is_digit (if digit then parts else parts - 1) (if digit then suc n else 0) s

-- `_IPV4`
unfoldable pub is_ipv4 : (is_digit : ℕ → Bool) → Text → Bool
unfolding is_ipv4_from
is_ipv4 is_digit host = is_ipv4_from is_digit 3 0 host

-- `\d*\.` and what stands behind it.
unfoldable pub behind_digits : (is_digit : ℕ → Bool) → Text → Option Text
behind_digits is_digit [] = none
behind_digits is_digit (c ∷ s) =
    if c == 46 then some s else if is_digit c then behind_digits is_digit s else none

-- `_WWW.sub("", host)`
unfoldable pub without_www : (is_digit : ℕ → Bool) → Text → Text
unfolding behind_digits
without_www is_digit (a ∷ (b ∷ (c ∷ s))) =
    if a == 119 && (b == 119 && c == 119)
    then elim (behind_digits is_digit s) [ none ↦ a ∷ (b ∷ (c ∷ s)) | some rest ↦ rest ]
    else a ∷ (b ∷ (c ∷ s))
without_www is_digit host = host
