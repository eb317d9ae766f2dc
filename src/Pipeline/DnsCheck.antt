-- ===== src/Pipeline/DnsCheck.antt =====
-- app/pipeline/dns_check.py: whether a domain's name resolves, who takes its mail, and its name servers.
use email_extractor.Common.{
  Bool, true, false, not, ◌&&◌, ◌||◌, Option, none, some, List, [], ◌∷◌, ◌++◌, map, select,
  if◌then◌else◌, ◌==◌, any, Text, txt, ends_with, contains, strip_right, is_space,
}
use email_extractor.Input.Normalize.{host_of_key}
use email_extractor.Pipeline.Fetch.{ErrorClass}
use email_extractor.Pipeline.Sitemaps.{split_at, is_full, last_of}

-- What a resolver raises: that the name does not exist, or another exception by its name.
pub data Failure : Type 0 where
  no_such_name : Failure
  other_failure : Text → Failure

pub data Answer : Type 0 where
  answered : List Text → Answer
  raised : Failure → Answer

-- The resolver: what a lookup of a name, for a type of record, comes to.
abbrev pub Resolver : Type 0
Resolver = (name rdtype : Text) → Answer

-- `DnsResult`
pub record DnsResult : Type 0 where
  pub resolves : Bool
  pub a_domain : Bool
  pub a_www : Bool
  pub mx_provider : Text
  pub ns_hosts : List Text
  pub nxdomain : Bool
  pub error : Option Text

-- `DnsResult.error_class`
unfoldable pub error_class : DnsResult → Option ErrorClass
error_class r =
    if r.resolves
    then none
    else if r.nxdomain
    then some ErrorClass.permanent
    else some ErrorClass.transient

-- `h.lower().rstrip(".")`
unfoldable pub bare_host : (lower : Text → Text) → Text → Text
bare_host lower h = strip_right (λ c. c == 46) (lower h)

unfoldable pub is_google : Text → Bool
is_google h = ends_with (txt "google.com") h || ends_with (txt "googlemail.com") h

unfoldable pub is_microsoft : Text → Bool
is_microsoft h = ends_with (txt "outlook.com") h || contains (txt "protection.outlook") h

-- `classify_mx`
unfoldable pub classify_mx : (lower : Text → Text) → List Text → Text
unfolding bare_host is_google is_microsoft
classify_mx lower [] = txt "none"
classify_mx lower (h ∷ hosts) =
    if any (λ m. is_google (bare_host lower m)) (h ∷ hosts)
    then txt "google"
    else if any (λ m. is_microsoft (bare_host lower m)) (h ∷ hosts)
    then txt "microsoft"
    else txt "other"

-- `_query`
unfoldable pub query : Resolver → (name rdtype : Text) → List Text × Option Failure
query resolve name rdtype = elim (resolve name rdtype) [
  | answered values ↦ (map (strip_right (λ c. c == 46)) values, none)
  | raised e ↦ ([], some e)
]

abbrev pub is_nxdomain : Option Failure → Bool
is_nxdomain (some no_such_name) = true
is_nxdomain _ = false

-- What the lookup of one type comes to: an address, an end, or a turn for the next type.
unfoldable pub address_or :
    List Text × Option Failure → Bool × Option Failure → Bool × Option Failure
address_or ([], e) next = if is_nxdomain e then (false, e) else next
address_or (v ∷ vs, e) next = (true, none)

-- `any_address`
unfoldable pub any_address : Resolver → Text → Bool × Option Failure
unfolding query address_or
any_address resolve name =
    let v6 = query resolve name (txt "AAAA") in
    address_or (query resolve name (txt "A")) (address_or v6 (false, v6.1))

-- `[v.split()[-1] for v in mx if v.split()]`
unfoldable pub mail_hosts : List Text → List Text
mail_hosts [] = []
mail_hosts (v ∷ vs) = elim (last_of (select is_full (split_at is_space [] v))) [
  | none ↦ mail_hosts vs
  | some h ↦ h ∷ mail_hosts vs
]

-- `type(e1).__name__ if e1 else "no_address"`
unfoldable pub error_name : Option Failure → Text
error_name none = txt "no_address"
error_name (some no_such_name) = txt "NXDOMAIN"
error_name (some (other_failure name)) = name

-- `e2 is None or isinstance(e2, NXDOMAIN)`
abbrev pub is_none_or_nxdomain : Option Failure → Bool
is_none_or_nxdomain none = true
is_none_or_nxdomain (some e) = is_nxdomain (some e)

-- `check_domain`
unfoldable pub check_domain : (lower : Text → Text) → Resolver → (domain : Text) → DnsResult
unfolding any_address query mail_hosts error_name classify_mx host_of_key
check_domain lower resolve domain =
    let host = host_of_key domain in
    let bare = any_address resolve host in
    let www = any_address resolve (txt "www." ++ host) in
    let resolves = bare.0 || www.0 in
    record {
      resolves = resolves;
      a_domain = bare.0;
      a_www = www.0;
      mx_provider = classify_mx lower (mail_hosts (query resolve host (txt "MX")).0);
      ns_hosts = map lower (query resolve host (txt "NS")).0;
      nxdomain = not resolves && is_nxdomain bare.1 && is_none_or_nxdomain www.1;
      error = if resolves then none else some (error_name bare.1);
    }
