-- ===== src/GrpcUrl.antt =====
-- crates/zbag-engine/src/grpc_url.rs: the validation of a gRPC endpoint. `Url::parse` of the crate
-- `url` is the argument `parse`; a parsed URL has the parts that its accessors return. Addresses
-- are their numbers of 32 and 128 bits, with the loopback tests of `std::net` written out.
pub mod Accepted
use zbag_app_tauri.Base.{
  ℕ, ◌/◌, ◌%◌, ◌^◌, Bool, true, false, not, ◌&&◌, ◌||◌, List, [], ◌∷◌, Option, none, some, Text,
  text, trim, after_first, text_eq, ascii_lowercase, ◌==◌, if◌then◌else◌,
}

pub data GrpcUrlPolicy : Type 0 where
  release debug : GrpcUrlPolicy

pub data Host : Type 0 where
  domain : Text → Host
  ipv4 : ℕ → Host
  ipv6 : ℕ → Host

pub record Url : Type 0 where
  pub scheme : Text
  pub username : Text
  pub password : Option Text
  pub query : Option Text
  pub fragment : Option Text
  pub port : Option ℕ
  pub host : Option Host

pub data ParseError : Type 0 where
  empty_host relative_url_without_base other_error : ParseError

pub data Parsed : Type 0 where
  url : Url → Parsed
  failed : ParseError → Parsed

-- The distinct messages; each goes out under the code `INVALID_REQUEST`.
pub data GrpcUrlError : Type 0 where
  expected_absolute missing_host invalid_url credentials query_not_allowed : GrpcUrlError
  fragment_not_allowed port_zero only_https only_https_or_loopback : GrpcUrlError

unfoldable pub https : Text
https = text "https"

unfoldable pub http : Text
http = text "http"

unfoldable pub localhost : Text
localhost = text "localhost"

unfoldable pub is_loopback_v4 : ℕ → Bool
is_loopback_v4 ip = ip / 2 ^ 24 == 127

unfoldable pub is_loopback_v6 : ℕ → Bool
unfolding is_loopback_v4
is_loopback_v6 ip = (ip == 1) || (ip / 2 ^ 32 == 65535 && is_loopback_v4 (ip % 2 ^ 32))

unfoldable pub is_localhost : Option Host → Bool
unfolding is_loopback_v6
is_localhost none = false
is_localhost (some (domain d)) = text_eq (ascii_lowercase d) localhost
is_localhost (some (ipv4 ip)) = is_loopback_v4 ip
is_localhost (some (ipv6 ip)) = is_loopback_v6 ip

abbrev pub is_some {ℓ} : {A : Type ℓ} → Option A → Bool
is_some none = false
is_some (some a) = true

abbrev pub is_empty : Text → Bool
is_empty [] = true
is_empty (c ∷ s) = false

abbrev pub is_zero_port : Option ℕ → Bool
is_zero_port none = false
is_zero_port (some p) = p == 0

-- `none` is success.
unfoldable pub check_scheme : GrpcUrlPolicy → Url → Option GrpcUrlError
check_scheme release u = if text_eq u.scheme https then none else some only_https
check_scheme debug u =
    if text_eq u.scheme https
    then none
    else (if not (text_eq u.scheme http) || not (is_localhost u.host)
        then some only_https_or_loopback
        else none)

unfoldable pub check_parsed : GrpcUrlPolicy → Parsed → Option GrpcUrlError
unfolding check_scheme
check_parsed policy (failed empty_host) = some missing_host
check_parsed policy (failed relative_url_without_base) = some expected_absolute
check_parsed policy (failed other_error) = some invalid_url
check_parsed policy (url u) =
    if not (is_empty u.username) || is_some u.password
    then some credentials
    else (if is_some u.query
        then some query_not_allowed
        else (if is_some u.fragment
            then some fragment_not_allowed
            else (if is_zero_port u.port then some port_zero else check_scheme policy u)))

-- The part after `://` is not empty and does not begin with a slash.
abbrev pub check_authority : Option Text → Option GrpcUrlError
check_authority none = some expected_absolute
check_authority (some []) = some missing_host
check_authority (some (c ∷ s)) = if c == b'/' then some missing_host else none

unfoldable pub separator : Text
separator = text "://"

abbrev pub or_check : Option GrpcUrlError → Option GrpcUrlError → Option GrpcUrlError
or_check (some e) next = some e
or_check none next = next

module _ (parse : Text → Parsed) where
  unfoldable pub validate_grpc_url_with_policy : Text → GrpcUrlPolicy → Option GrpcUrlError
  unfolding check_parsed
  validate_grpc_url_with_policy grpc_url policy =
      let trimmed = trim grpc_url in
      or_check (check_authority (after_first separator trimmed))
        (check_parsed policy (parse trimmed))
