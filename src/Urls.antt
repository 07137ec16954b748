-- ===== src/Urls.antt =====
-- src/urls.rs: the base of a request, the issuer and the endpoint URLs.
use nano_mockidp.Base.{
  ℕ, String, Bool, Option, none, some, List, [], ◌∷◌, ◌==◌, if◌then◌else◌, ◌||◌, ◌&&◌, not, is_some,
  or_else, unwrap_or, non_empty,
}
use nano_mockidp.Base.Text.{◌⊕◌, trim, trim_end_slashes, split_by, has_char, ◌=ᶜ◌}
use nano_mockidp.Config.{Config, issuer}
use nano_mockidp.Crates.{Url}
use nano_mockidp.Http.{Headers}

abbrev first_part : List String → String
first_part [] = ""
first_part (s ∷ ss) = s

-- The closure `header`: the first element of a comma-separated header, if it is not empty.
unfoldable pub header_element : Headers → String → Option String
header_element headers name = elim (headers name) [
  | none ↦ none
  | some v ↦ non_empty (some (trim (first_part (split_by (λ c. c =ᶜ b',') v))))
]

-- `host[host.rfind(c)..]`, if the character stands in the text
unfoldable pub from_last : ℕ → String → Option String
from_last n String.[] = none
from_last n (String.◌∷◌ c s) =
    or_else (from_last n s) (if c =ᶜ n then some (String.◌∷◌ c s) else none)

unfoldable pub host_has_port : String → Bool
unfolding from_last
host_has_port host = elim (from_last b']' host) [
  | some literal ↦ has_char b':' literal
  | none ↦ has_char b':' host
]

abbrev pub is_default_port : String → String → Bool
is_default_port scheme port = scheme == "http" && port == "80" || scheme == "https" && port == "443"

abbrev with_port : String → String → Option String → String
with_port scheme host none = host
with_port scheme host (some port) = if is_default_port scheme port then host else host ⊕ ":" ⊕ port

-- `RequestBase::from_request_parts`
unfoldable pub request_base : Headers → String
unfolding header_element host_has_port
request_base headers =
    let scheme = unwrap_or (header_element headers "x-forwarded-proto") "http" in
    let forwarded_host = header_element headers "x-forwarded-host" in
    let host = unwrap_or (or_else forwarded_host (header_element headers "host")) "localhost" in
    scheme
    ⊕ "://"
    ⊕ (if is_some forwarded_host && not (host_has_port host)
        then with_port scheme host (header_element headers "x-forwarded-port")
        else host)

unfoldable pub issuer_for : Config → Option String → String
issuer_for cfg none = issuer cfg
issuer_for cfg (some base) =
    if cfg.issuer_from_request_host then trim_end_slashes base ⊕ cfg.issuer_path else issuer cfg

pub record Endpoints : Type 0 where
  pub issuer : String
  pub authorization : String
  pub end_session : String
  pub token : String
  pub jwks : String
  pub userinfo : String
  pub introspection : String
  pub revocation : String
  pub registration : String

-- The base of the backend-facing URLs.
unfoldable pub internal_base : Config → Option Url → Option String → String
unfolding issuer_for
internal_base cfg (some u) base = trim_end_slashes u.text
internal_base cfg none none = issuer_for cfg none
internal_base cfg none (some base) =
    if cfg.endpoints_from_request_host
    then trim_end_slashes base ⊕ cfg.issuer_path
    else issuer_for cfg (some base)

-- `Endpoints::resolve`
unfoldable pub resolve : Config → Option String → Endpoints
unfolding issuer_for internal_base
resolve cfg base =
    let public = issuer_for cfg base in
    let internal = internal_base cfg cfg.internal_url base in
    record {
      issuer = public;
      authorization = public ⊕ "/authorize";
      end_session = public ⊕ "/end_session";
      token = internal ⊕ "/token";
      jwks = internal ⊕ "/jwks";
      userinfo = internal ⊕ "/userinfo";
      introspection = internal ⊕ "/introspect";
      revocation = internal ⊕ "/revoke";
      registration = internal ⊕ "/register";
    }
