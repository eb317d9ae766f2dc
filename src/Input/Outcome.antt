-- ===== src/Input/Outcome.antt =====
-- What holds of every outcome of `normalize_input` follows from what holds of the refusals and of the
-- keys that a host gives.
use email_extractor.Common.{
  ℕ, ◌≡◌, refl, inl, inr, Bool, true, false, ◌&&◌, Bool-cases, Option-cases, Option, none, some,
  List, [], ◌∷◌, ◌==◌, arith, any, leb, length, Text, txt, mem_text, contains, strip, strip_right,
}
use email_extractor.Input.Hosts.{
  is_lower_word, is_host_rest, is_valid_host, is_ipv4, behind_digits, without_www,
}
use email_extractor.Input.{
  Library, null_tokens, free_email_labels, Reason, empty, not_a_url, free_email_only, DomainSource,
  website, email, NormalizedInput, fragments, is_text, tokens, host_and_path, checked_host,
  candidate, to_punycode,
}
use email_extractor.Input.Normalize.{
  refuse, judge_host, judge_ascii, judge_token, judge_tokens, judge_address, normalize_fragment,
  normalize_fragments, normalize_parts, normalize_input, rpartition, is_url, label_of,
}

abbrev pub has_slash : Text → Bool
has_slash s = any (λ c. c == 47) s

is_host_rest-no_slash :
    (closed : Bool) (s : Text) → is_host_rest closed s ≡ true → has_slash s ≡ false
unfolding is_host_rest is_lower_word
is_host_rest-no_slash closed [] h = refl
is_host_rest-no_slash closed (c ∷ s) h = ground (arith, is_host_rest-no_slash (is_lower_word c) s)

is_valid_host-no_slash : (s : Text) → is_valid_host s ≡ true → has_slash s ≡ false
unfolding is_valid_host is_lower_word
is_valid_host-no_slash [] h = refl
is_valid_host-no_slash (c ∷ s) h = ground (arith, is_host_rest-no_slash true s)

behind_digits-no_slash :
    (p : ℕ → Bool) (s t : Text)
    → behind_digits p s ≡ some t
    → has_slash s ≡ false
    → has_slash t ≡ false
unfolding behind_digits
behind_digits-no_slash p [] t e h = cc
behind_digits-no_slash p (c ∷ s) t e h = ground (arith, behind_digits-no_slash p s t)

without_www-no_slash :
    (p : ℕ → Bool) (s : Text) → has_slash s ≡ false → has_slash (without_www p s) ≡ false
unfolding without_www
without_www-no_slash p [] h = refl
without_www-no_slash p (a ∷ []) h = h
without_www-no_slash p (a ∷ (b ∷ [])) h = h
without_www-no_slash p (a ∷ (b ∷ (c ∷ s))) h = elim (Option-cases (behind_digits p s)) [
  | inl e ↦ ground arith
  | inr (t, e) ↦ ground (arith, behind_digits-no_slash p s t e)
]

-- A host that was read from some token.
abbrev pub IsRead : Library → Text → Type 0
IsRead lib h = (token : Text) × (path : Text) × (host_and_path lib token ≡ some (h, path))

-- A host as the codec gives it, for a host that was read and has lost its `www.`.
abbrev pub IsCoded : Library → Text → Type 0
IsCoded lib a = (h : Text) × IsRead lib h × (to_punycode lib (without_www lib.is_digit h) ≡ some a)

-- The codec's answer for a host that was read from a URL holds no slash: urlsplit refuses a host with a
-- character that the codec would turn into one.
abbrev pub HasPlainIdna : Library → Type 0
HasPlainIdna lib =
    (h a : Text)
    → IsRead lib h
    → lib.idna (without_www lib.is_digit h) ≡ some a
    → has_slash a ≡ false

checked_host-no_slash :
    (lib : Library) (parts : Text × Text) (h path : Text)
    → checked_host lib parts ≡ some (h, path)
    → has_slash h ≡ false
unfolding checked_host
checked_host-no_slash lib (hostname, p) h path e =
    let host = strip_right (λ c. c == 46) (lib.lower (strip hostname)) in
    elim (Bool-cases (is_valid_host host)) [
      | inl t ↦ ground (arith, is_valid_host-no_slash host t)
      | inr f ↦ ground arith
    ]

-- A host that was read holds no slash.
host_and_path-no_slash :
    (lib : Library) (token h path : Text)
    → host_and_path lib token ≡ some (h, path)
    → has_slash h ≡ false
unfolding host_and_path
host_and_path-no_slash lib token h path e = elim (Option-cases (lib.url_parts (candidate token))) [
  | inl n ↦ ground arith
  | inr (parts, s) ↦ ground (arith, checked_host-no_slash lib parts h path)
]

-- Nor does it as the codec gives it.
pub IsCoded-no_slash :
    (lib : Library) (a : Text) → HasPlainIdna lib → IsCoded lib a → has_slash a ≡ false
unfolding to_punycode
IsCoded-no_slash lib a plain (h, (token, path, read), e) =
    let named = without_www lib.is_digit h in
    let free = without_www-no_slash lib.is_digit h (host_and_path-no_slash lib token h path read) in
    elim (Option-cases (lib.idna named)) [
      | inl n ↦ ground arith
      | inr (b, s) ↦ ground (arith, plain h b (token, path, read) s)
    ]

-- A property of the outcome, if there is one.
abbrev pub IfSome {ℓ} : {A : Type ℓ} → (A → Type 0) → Option A → Type 0
IfSome P none = Unit
IfSome P (some a) = P a

module _ (lib : Library) (P : NormalizedInput → Type 0)
    (refused : (display : Text) (multiple : Bool) (source : DomainSource) (reason : Reason)
      → P (refuse display multiple source reason))
    (judged : (display : Text) (multiple : Bool) (source : DomainSource) (host path : Text)
      → IsCoded lib host
      → is_text host ≡ true
      → IfSome P (judge_host lib display multiple source host path)) where
  judge_ascii-all :
      (display : Text) (multiple : Bool) (source : DomainSource) (o : Option Text) (path : Text)
      → IfSome (IsCoded lib) o
      → IfSome P (judge_ascii lib display multiple source o path)
  unfolding judge_ascii
  judge_ascii-all display multiple source none path h = tt
  judge_ascii-all display multiple source (some host) path h =
      elim (Bool-cases (is_text host && contains (txt ".") host)) [
        | inl t ↦ rw t (judged display multiple source host path h (ground arith))
        | inr f ↦ rw f tt
      ]

  to_punycode-all :
      (h : Text)
      → IsRead lib h
      → IfSome (IsCoded lib) (to_punycode lib (without_www lib.is_digit h))
  to_punycode-all h read = elim (Option-cases (to_punycode lib (without_www lib.is_digit h))) [
    | inl e ↦ rw e tt
    | inr (a, e) ↦ rw e (h, read, e)
  ]

  judge_token-all :
      (display : Text) (multiple : Bool) (source : DomainSource) (o : Option (Text × Text))
      → IfSome (λ (r : Text × Text). IsRead lib r.0) o
      → IfSome P (judge_token lib display multiple source o)
  unfolding judge_token
  judge_token-all display multiple source none h = tt
  judge_token-all display multiple source (some (host, path)) h =
      elim (Bool-cases (is_ipv4 lib.is_digit host)) [
        | inl t ↦ rw t (refused display multiple website not_a_url)
        | inr f ↦
            let named = without_www lib.is_digit host in
            rw f (
              judge_ascii-all display multiple source (to_punycode lib named) path
                (to_punycode-all host h))
      ]

  judge_tokens-all :
      (display : Text) (multiple : Bool) (source : DomainSource) (tokens : List Text)
      → IfSome P (judge_tokens lib display multiple source tokens)
  unfolding judge_tokens
  judge_tokens-all display multiple source [] = tt
  judge_tokens-all display multiple source (t ∷ ts) =
      let read : IfSome (λ (r : Text × Text). IsRead lib r.0) (host_and_path lib t) =
        elim (Option-cases (host_and_path lib t)) [
          | inl e ↦ rw e tt
          | inr (r, e) ↦ rw e (t, r.1, e)
        ] in
      let this = judge_token-all display multiple source (host_and_path lib t) read in
      let later = judge_tokens-all display multiple source ts in
      elim (Option-cases (judge_token lib display multiple source (host_and_path lib t))) [
        | inl e ↦ rw (e, judge_tokens) later
        | inr (n, e) ↦ rw (e, judge_tokens) (rw e at this)
      ]

  judge_address-all :
      (display : Text) (multiple : Bool) (work : Text) (o : Option (Text × Text))
      → IfSome P (judge_address lib display multiple work o)
  unfolding judge_address
  judge_address-all display multiple work none =
      judge_tokens-all display multiple website (tokens work)
  judge_address-all display multiple work (some (local, rest)) =
      elim (Bool-cases (is_text local && contains (txt ".") rest)) [
        | inl t ↦ elim (Bool-cases (mem_text (label_of lib rest) free_email_labels)) [
          | inl u ↦ rw (t, u) (refused display multiple email free_email_only)
          | inr v ↦ rw (t, v) (judge_tokens-all display multiple email (tokens rest))
        ]
        | inr f ↦ rw f (judge_tokens-all display multiple website (tokens work))
      ]

  normalize_fragment-all :
      (fragment display : Text) (multiple : Bool)
      → IfSome P (normalize_fragment lib fragment display multiple)
  unfolding normalize_fragment
  normalize_fragment-all fragment display multiple = elim (Bool-cases (is_url lib fragment)) [
    | inl t ↦ rw t (judge_tokens-all display multiple website (tokens fragment))
    | inr f ↦ rw f (judge_address-all display multiple fragment (rpartition fragment))
  ]

  normalize_fragments-all :
      (display : Text) (multiple : Bool) (parts : List Text)
      → P (normalize_fragments lib display multiple parts)
  unfolding normalize_fragments
  normalize_fragments-all display multiple [] = refused display multiple website not_a_url
  normalize_fragments-all display multiple (part ∷ parts) =
      let this = normalize_fragment-all part display multiple in
      let later = normalize_fragments-all display multiple parts in
      elim (Option-cases (normalize_fragment lib part display multiple)) [
        | inl e ↦ rw (e, normalize_fragments) later
        | inr (n, e) ↦ rw (e, normalize_fragments) (rw e at this)
      ]

  normalize_parts-all : (display : Text) (parts : List Text) → P (normalize_parts lib display parts)
  unfolding normalize_parts
  normalize_parts-all display [] = refused display false website empty
  normalize_parts-all display (part ∷ parts) =
      normalize_fragments-all display (leb 2 (length (part ∷ parts))) (part ∷ parts)

  pub normalize_input-all : (raw : Text) → P (normalize_input lib raw)
  unfolding normalize_input
  normalize_input-all raw = elim (Bool-cases (mem_text (lib.lower (strip raw)) null_tokens)) [
    | inl t ↦ rw t (refused (strip raw) false website empty)
    | inr f ↦ rw f (normalize_parts-all (strip raw) (fragments (strip raw)))
  ]
