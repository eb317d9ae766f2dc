-- ===== src/Webhook/Tests.antt =====
-- A delivery that is retried once.
use email_extractor.Common.{
  ℕ, ◌≡◌, refl, true, false, none, some, [], ◌∷◌, map, if◌then◌else◌, ◌==◌, txt, eq_text,
}
use email_extractor.Webhook.{Ipv4, v4, no_port, UrlParts, DeliveryTry, delays, deliver}
use email_extractor.Webhook.Guarded.{IsGuarded, deliver-IsGuarded}

abbrev receiver : Ipv4
receiver = record { is_global = true; is_multicast = false; text = txt "93.184.216.34" }

abbrev parts : UrlParts
parts = record {
  scheme = txt "https";
  has_credentials = false;
  hostname = txt "hooks.acme.com";
  port = no_port;
  literal = none;
}

abbrev world : ℕ → DeliveryTry
world i = record { found = some (v4 receiver ∷ []); answer = if i == 0 then none else some 204 }

deliver-IsGuarded_example : IsGuarded false parts (map world delays) (deliver false parts world)
deliver-IsGuarded_example = deliver-IsGuarded false parts world

retried_lem : (deliver false parts world).0 ≡ true
unfolding deliver eq_text
retried_lem = refl
