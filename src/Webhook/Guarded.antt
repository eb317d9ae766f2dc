-- ===== src/Webhook/Guarded.antt =====
-- A delivery reaches public addresses only, and stops.
use email_extractor.Common.{
  ℕ, ◌≤◌, ◌≡◌, refl, ◌⊎◌, inl, inr, Bool, true, false, Bool-cases, Option, none, some, List, [],
  ◌∷◌, map, arith, all, any, length,
}
use email_extractor.Webhook.{
  Address, is_public, check_addresses, resolve_host, UrlParts, Rejection, Target, rejected, target,
  port_of, pick_address, resolve_at, url_problem, resolve_checked, resolve_public, DeliveryTry,
  Post, is_delivered, after_post, try_post, deliver_from, delays, deliver,
}

-- A target is a public address.
abbrev IsPublicTarget : Target → Type 0
IsPublicTarget (rejected why) = Unit
IsPublicTarget (target ip port) = is_public ip ≡ true

pick_checked :
    (port : ℕ) (addrs : List Address) → IsPublicTarget (pick_address port (check_addresses addrs))
unfolding pick_address check_addresses
pick_checked port [] = tt
pick_checked port (a ∷ addrs) = elim (Bool-cases (all is_public (a ∷ addrs))) [
  | inl t ↦ rw t (ground arith)
  | inr f ↦ rw f tt
]

pick_resolved :
    (port : ℕ) (literal : Option Address) (found : Option (List Address))
    → IsPublicTarget (pick_address port (resolve_host literal found))
unfolding resolve_host
pick_resolved port (some a) found = pick_checked port (a ∷ [])
pick_resolved port none none = unfold pick_address in tt
pick_resolved port none (some addrs) = pick_checked port addrs

resolve_at-public :
    (parts : UrlParts) (found : Option (List Address)) (port : Option ℕ)
    → IsPublicTarget (resolve_at parts found port)
unfolding resolve_at
resolve_at-public parts found none = tt
resolve_at-public parts found (some port) = pick_resolved port parts.literal found

resolve_checked-public :
    (parts : UrlParts) (found : Option (List Address)) (why : Option Rejection)
    → IsPublicTarget (resolve_checked parts found why)
unfolding resolve_checked
resolve_checked-public parts found (some why) = tt
resolve_checked-public parts found none =
    resolve_at-public parts found (port_of parts.scheme parts.port)

-- No request stands behind one that succeeded.
abbrev pub StopsAtSuccess : List Post → Type 0
StopsAtSuccess [] = Unit
StopsAtSuccess (p ∷ posts) = ((is_delivered p.answer ≡ false) ⊎ (posts ≡ [])) × StopsAtSuccess posts

-- The requests are those of the first attempts, one for each: to the address that the attempt's own
-- lookup gave, which is a public one, and with the answer that it met.
abbrev pub AreSent : (allow_http : Bool) → UrlParts → List DeliveryTry → List Post → Type 0
AreSent allow_http parts attempts [] = Unit
AreSent allow_http parts [] (p ∷ posts) = ⊥
AreSent allow_http parts (a ∷ attempts) (p ∷ posts) =
    (resolve_public allow_http parts a.found ≡ target p.ip p.port)
    × (is_public p.ip ≡ true)
    × (p.answer ≡ a.answer)
    × AreSent allow_http parts attempts posts

-- What is said of a delivery over some attempts.
abbrev pub IsGuarded : (allow_http : Bool) → UrlParts → List DeliveryTry → Bool × List Post → Type 0
IsGuarded allow_http parts attempts (delivered, posts) =
    (length posts ≤ length attempts)
    × AreSent allow_http parts attempts posts
    × (any (λ (p : Post). is_delivered p.answer) posts ≡ delivered)
    × StopsAtSuccess posts

after_post-IsGuarded :
    (allow_http : Bool) (parts : UrlParts) (a : DeliveryTry) (attempts : List DeliveryTry)
    (ip : Address) (port : ℕ) (later : Bool × List Post)
    → resolve_public allow_http parts a.found ≡ target ip port
    → is_public ip ≡ true
    → IsGuarded allow_http parts attempts later
    → IsGuarded allow_http parts
        (a ∷ attempts)
        (after_post (record { ip = ip; port = port; answer = a.answer }) later)
unfolding after_post
after_post-IsGuarded allow_http parts a attempts ip port (delivered, posts) e p
      (short, safe, exact, once) =
    elim (Bool-cases (is_delivered a.answer)) [
      | inl t ↦ rw t (omega arith, (e, p, refl, tt), ground arith, (inr refl, tt))
      | inr f ↦ rw f (omega arith, (e, p, refl, safe), ground arith, (inl f, once))
    ]

try_post-IsGuarded :
    (allow_http : Bool) (parts : UrlParts) (a : DeliveryTry) (attempts : List DeliveryTry)
    (where_to : Target) (later : Bool × List Post)
    → resolve_public allow_http parts a.found ≡ where_to
    → IsPublicTarget where_to
    → IsGuarded allow_http parts attempts later
    → IsGuarded allow_http parts (a ∷ attempts) (try_post where_to a.answer later)
unfolding try_post
try_post-IsGuarded allow_http parts a attempts (rejected why) later e h k =
    (omega arith, tt, refl, tt)
try_post-IsGuarded allow_http parts a attempts (target ip port) later e h k =
    after_post-IsGuarded allow_http parts a attempts ip port later e h k

resolve_public-public :
    (allow_http : Bool) (parts : UrlParts) (found : Option (List Address))
    → IsPublicTarget (resolve_public allow_http parts found)
unfolding resolve_public
resolve_public-public allow_http parts found =
    resolve_checked-public parts found (url_problem allow_http parts)

deliver_from-IsGuarded :
    (allow_http : Bool) (parts : UrlParts) (attempts : List DeliveryTry)
    → IsGuarded allow_http parts attempts (deliver_from allow_http parts attempts)
unfolding deliver_from
deliver_from-IsGuarded allow_http parts [] = (omega arith, tt, refl, tt)
deliver_from-IsGuarded allow_http parts (a ∷ attempts) =
    try_post-IsGuarded allow_http parts a attempts (resolve_public allow_http parts a.found)
      (deliver_from allow_http parts attempts) refl (resolve_public-public allow_http parts a.found)
      (deliver_from-IsGuarded allow_http parts attempts)

-- Whatever the lookups and the receiver do, also from one attempt to the next, a delivery sends at most
-- one request in each of its four attempts, to the address that this attempt's own lookup gave, which is a
-- public one; it reports success exactly when one of them was answered by a 2xx status, and sends nothing
-- after that one.
pub deliver-IsGuarded :
    (allow_http : Bool) (parts : UrlParts) (world : ℕ → DeliveryTry)
    → IsGuarded allow_http parts (map world delays) (deliver allow_http parts world)
unfolding deliver
deliver-IsGuarded allow_http parts world =
    deliver_from-IsGuarded allow_http parts (map world delays)
