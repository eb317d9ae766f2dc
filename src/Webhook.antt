-- ===== src/Webhook.antt =====
-- app/netguard.py and app/webhook.py: which addresses a webhook may reach, and its delivery. What
-- ipaddress says of an address, what a lookup finds and what the receiver answers are given.
pub mod Guarded
mod Tests
use email_extractor.Common.{
  ℕ, suc, ◌+◌, Bool, true, false, not, ◌&&◌, ◌||◌, Option, none, some, List, [], ◌∷◌, map,
  if◌then◌else◌, ◌==◌, leb, all, Text, txt, eq_text,
}

pub record Ipv4 : Type 0 where
  pub is_global : Bool
  pub is_multicast : Bool
  pub text : Text

-- `mapped` is `ipv4_mapped`, `is_embedding` whether it lies in a network of `_EMBEDDED_V4`.
pub record Ipv6 : Type 0 where
  pub mapped : Option Ipv4
  pub is_embedding : Bool
  pub is_global : Bool
  pub is_multicast : Bool
  pub text : Text

pub data Address : Type 0 where
  v4 : Ipv4 → Address
  v6 : Ipv6 → Address

-- `str(a)`
abbrev pub address_text : Address → Text
address_text (v4 a) = a.text
address_text (v6 a) = a.text

unfoldable pub is_public_v4 : Ipv4 → Bool
is_public_v4 a = a.is_global && not a.is_multicast

-- `is_public`
unfoldable pub is_public : Address → Bool
unfolding is_public_v4
is_public (v4 a) = is_public_v4 a
is_public (v6 a) = elim a.mapped [
  | some b ↦ is_public_v4 b
  | none ↦ not a.is_embedding && (a.is_global && not a.is_multicast)
]

-- The addresses of a host; PrivateAddress and OSError.
pub data Resolved : Type 0 where
  addresses : List Address → Resolved
  private_address : Resolved
  unresolved : Resolved

unfoldable pub check_addresses : List Address → Resolved
unfolding is_public
check_addresses [] = unresolved
check_addresses (a ∷ addrs) =
    if all is_public (a ∷ addrs) then addresses (a ∷ addrs) else private_address

-- `netguard.resolve_public`: a literal address, or what the lookup finds.
unfoldable pub resolve_host :
    (literal : Option Address) → (found : Option (List Address)) → Resolved
unfolding check_addresses
resolve_host (some a) found = check_addresses (a ∷ [])
resolve_host none none = unresolved
resolve_host none (some addrs) = check_addresses addrs

-- The port of a URL: none given, a number, or a ValueError.
pub data Port : Type 0 where
  no_port : Port
  port_number : ℕ → Port
  invalid_port : Port

-- What urlsplit gives; `literal` is the host read as an address.
pub record UrlParts : Type 0 where
  pub scheme : Text
  pub has_credentials : Bool
  pub hostname : Text
  pub port : Port
  pub literal : Option Address

pub data Rejection : Type 0 where
  not_http must_use_https has_credentials no_host bad_port not_public no_address : Rejection

-- The address that is connected to, or why the URL is rejected.
pub data Target : Type 0 where
  rejected : Rejection → Target
  target : (ip : Address) → (port : ℕ) → Target

-- `parts.port or (443 if parts.scheme == "https" else 80)`
unfoldable pub port_of : Text → Port → Option ℕ
port_of scheme invalid_port = none
port_of scheme no_port = some (if eq_text scheme (txt "https") then 443 else 80)
port_of scheme (port_number n) =
    some (if n == 0 then (if eq_text scheme (txt "https") then 443 else 80) else n)

unfoldable pub pick_address : (port : ℕ) → Resolved → Target
pick_address port (addresses []) = rejected no_address
pick_address port (addresses (a ∷ addrs)) = target a port
pick_address port private_address = rejected not_public
pick_address port unresolved = rejected no_address

unfoldable pub resolve_at : UrlParts → (found : Option (List Address)) → Option ℕ → Target
unfolding pick_address resolve_host
resolve_at parts found none = rejected bad_port
resolve_at parts found (some port) = pick_address port (resolve_host parts.literal found)

-- What is wrong with a URL itself.
unfoldable pub url_problem : (allow_http : Bool) → UrlParts → Option Rejection
url_problem allow_http parts =
    let https = eq_text parts.scheme (txt "https") in
    let http = eq_text parts.scheme (txt "http") in
    if not (https || http)
    then some not_http
    else if http && not allow_http
    then some must_use_https
    else if parts.has_credentials
    then some has_credentials
    else elim parts.hostname [ [] ↦ some no_host | c ∷ s ↦ none ]

unfoldable pub resolve_checked :
    UrlParts → (found : Option (List Address)) → Option Rejection → Target
unfolding resolve_at port_of
resolve_checked parts found (some why) = rejected why
resolve_checked parts found none = resolve_at parts found (port_of parts.scheme parts.port)

-- `resolve_public` of app/webhook.py.
unfoldable pub resolve_public :
    (allow_http : Bool) → UrlParts → (found : Option (List Address)) → Target
unfolding resolve_checked url_problem
resolve_public allow_http parts found = resolve_checked parts found (url_problem allow_http parts)

-- What the world does in an attempt: the lookup's addresses, and the status of the answer or none for
-- an HTTP error.
pub record DeliveryTry : Type 0 where
  pub found : Option (List Address)
  pub answer : Option ℕ

-- A request that was sent.
pub record Post : Type 0 where
  pub ip : Address
  pub port : ℕ
  pub answer : Option ℕ

-- `200 <= r.status_code < 300`
unfoldable pub is_delivered : Option ℕ → Bool
is_delivered none = false
is_delivered (some status) = leb 200 status && leb status 299

-- The retries behind a post that did or did not succeed.
unfoldable pub after_post : Post → (Bool × List Post) → Bool × List Post
unfolding is_delivered
after_post post (delivered, later) =
    if is_delivered post.answer then (true, post ∷ []) else (delivered, post ∷ later)

unfoldable pub try_post : Target → (answer : Option ℕ) → (Bool × List Post) → Bool × List Post
unfolding after_post
try_post (rejected why) answer later = (false, [])
try_post (target ip port) answer later =
    after_post (record { ip = ip; port = port; answer = answer }) later

-- The loop of `deliver` over the attempts: whether it succeeded, and the requests that were sent.
unfoldable pub deliver_from : (allow_http : Bool) → UrlParts → List DeliveryTry → Bool × List Post
unfolding try_post resolve_public
deliver_from allow_http parts [] = (false, [])
deliver_from allow_http parts (a ∷ attempts) =
    try_post (resolve_public allow_http parts a.found) a.answer
      (deliver_from allow_http parts attempts)

-- `(0.0, *backoff)` in seconds
abbrev pub delays : List ℕ
delays = 0 ∷ (2 ∷ (8 ∷ (30 ∷ [])))

-- `deliver`: `world` tells what each attempt meets.
unfoldable pub deliver :
    (allow_http : Bool) → UrlParts → (world : ℕ → DeliveryTry) → Bool × List Post
unfolding deliver_from
deliver allow_http parts world = deliver_from allow_http parts (map world delays)
