-- ===== src/Examples/Nodes.antt =====
-- Servers and endpoint URLs.
use zbag_app_tauri.Base.{
  ℕ, ◌≤◌, ◌≡◌, ◌≢◌, ◌↔◌, refl, true, false, List, [], ◌∷◌, none, some, Text, text, after_first,
  trim, text_eq, arith, if◌then◌else◌,
}
use zbag_app_tauri.Base.Int.{pos}
use zbag_app_tauri.Servers.{
  mainnet, testnet, ServerInfo, switched, endpoint, set_default_server, try_failover_server,
  resolve_grpc_url_with_dev_override,
}
use zbag_app_tauri.Servers.Table.{count_id}
use zbag_app_tauri.Servers.Switch.{try_failover_server-resolves}
use zbag_app_tauri.GrpcUrl.{
  release, Url, domain, Parsed, url, failed, other_error, https, separator,
  validate_grpc_url_with_policy,
}
use zbag_app_tauri.GrpcUrl.Accepted.{HasAuthority, IsPlain, AllowedScheme, validate-none_iff}

abbrev url_a : Text
url_a = text "https://a.example"

abbrev url_b : Text
url_b = text "https://b.example"

abbrev server_a : ServerInfo
server_a = record {
  id = 1;
  name = text "a";
  grpc_url = url_a;
  network = mainnet;
  is_default = true;
  last_success_at = none;
}

abbrev server_b : ServerInfo
server_b = record {
  id = 2;
  name = text "b";
  grpc_url = url_b;
  network = mainnet;
  is_default = false;
  last_success_at = none;
}

abbrev servers : List ServerInfo
servers = server_a ∷ server_b ∷ []

abbrev switched_servers : List ServerInfo
switched_servers =
    record server_a { is_default = false } ∷ record server_b { is_default = true } ∷ []

count_id_small : (id : ℕ) → count_id id servers ≤ 1
count_id_small id = ground arith

set_default_server_b : set_default_server servers 2 ≡ some switched_servers
unfolding set_default_server
set_default_server_b = refl

mainnet_ne_testnet : mainnet ≢ testnet
mainnet_ne_testnet e = cc

abbrev after_failover : List ServerInfo
after_failover =
    record server_a { is_default = false }
    ∷ record server_b { is_default = true; last_success_at = some (pos 7) }
    ∷ []

failover_to_b :
    try_failover_server (λ u. true) (text_eq url_b) servers mainnet url_a (pos 7)
    ≡ switched after_failover url_b
unfolding try_failover_server text_eq
failover_to_b = refl

try_failover_server-resolves_example :
    (true ≡ true)
    × (text_eq url_b url_b ≡ true)
    × (resolve_grpc_url_with_dev_override (λ u. true) true after_failover mainnet none
        ≡ endpoint url_b)
try_failover_server-resolves_example =
    try_failover_server-resolves (λ u. true) (text_eq url_b) servers after_failover mainnet url_a
      url_b (pos 7) true count_id_small failover_to_b

-- A parser that knows one URL.
abbrev parsed_a : Url
parsed_a = record {
  scheme = https;
  username = [];
  password = none;
  query = none;
  fragment = none;
  port = none;
  host = some (domain (text "a.example"));
}

abbrev parse : Text → Parsed
parse s = if text_eq s url_a then url parsed_a else failed other_error

validate-none_iff_example : (validate_grpc_url_with_policy parse url_a release ≡ none) ↔ (
    HasAuthority url_a
    × ((u : Url) × (parse (trim url_a) ≡ url u) × IsPlain u × AllowedScheme release u))
validate-none_iff_example = validate-none_iff parse url_a release

release_accepts : validate_grpc_url_with_policy parse url_a release ≡ none
unfolding validate_grpc_url_with_policy https separator trim after_first text_eq
release_accepts = refl
