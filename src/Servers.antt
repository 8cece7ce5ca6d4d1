-- ===== src/Servers.antt =====
-- The table of lightwalletd servers (crates/zbag-engine/src/db/server_meta.rs), the endpoint that
-- the wallet uses (server_resolver.rs) and the failover of tx_service.rs. The table is the list of
-- its rows in the order of `created_at`; an id is its primary key. An `UPDATE` that SQLite refuses
-- is not modelled, nor is the `validation_error` that a listing adds for the display. `validate` is
-- `validate_grpc_url` at the build's policy, and `probe` is the answer of
-- `probe_server_for_failover`, which asks the network.
pub mod Table
pub mod Search
pub mod Switch
use zbag_app_tauri.Base.{
  ℕ, Bool, true, false, not, ◌&&◌, ◌||◌, List, [], ◌∷◌, ◌++◌, Option, none, some, Text, text_eq,
  trim, length, ltb, ◌==◌, if◌then◌else◌,
}
use zbag_app_tauri.Base.Int.{ℤ}

pub data Network : Type 0 where
  mainnet testnet : Network

abbrev pub network_eq : Network → Network → Bool
network_eq mainnet mainnet = true
network_eq mainnet testnet = false
network_eq testnet mainnet = false
network_eq testnet testnet = true

pub record ServerInfo : Type 0 where
  pub id : ℕ
  pub name : Text
  pub grpc_url : Text
  pub network : Network
  pub is_default : Bool
  pub last_success_at : Option ℤ

abbrev pub filter_servers : (ServerInfo → Bool) → List ServerInfo → List ServerInfo
filter_servers p [] = []
filter_servers p (s ∷ rest) = let kept = filter_servers p rest in if p s then s ∷ kept else kept

abbrev pub find_server : (ServerInfo → Bool) → List ServerInfo → Option ServerInfo
find_server p [] = none
find_server p (s ∷ rest) = let later = find_server p rest in if p s then some s else later

abbrev pub is_default_of : Network → ServerInfo → Bool
is_default_of net s = network_eq s.network net && s.is_default

abbrev pub is_other_of : Network → ServerInfo → Bool
is_other_of net s = network_eq s.network net && not s.is_default

-- `ORDER BY network ASC, is_default DESC, created_at ASC`.
unfoldable pub list_servers : List ServerInfo → List ServerInfo
list_servers rows =
    filter_servers (is_default_of mainnet) rows
    ++ (filter_servers (is_other_of mainnet) rows
        ++ (filter_servers (is_default_of testnet) rows
            ++ filter_servers (is_other_of testnet) rows))

-- `UPDATE servers SET is_default = 0 WHERE network = ?1`, then `= 1 WHERE id = ?1`.
abbrev pub clear_default : Network → List ServerInfo → List ServerInfo
clear_default net [] = []
clear_default net (s ∷ rest) =
    (if network_eq s.network net then record s { is_default = false } else s)
    ∷ clear_default net rest

abbrev pub raise_default : ℕ → List ServerInfo → List ServerInfo
raise_default id [] = []
raise_default id (s ∷ rest) =
    (if s.id == id then record s { is_default = true } else s) ∷ raise_default id rest

abbrev pub switch_default : ℕ → List ServerInfo → Option ServerInfo → Option (List ServerInfo)
switch_default id rows none = none
switch_default id rows (some s) = some (raise_default id (clear_default s.network rows))

-- `none` where no row has the id: `query_row` fails, and the transaction is rolled back.
unfoldable pub set_default_server : List ServerInfo → ℕ → Option (List ServerInfo)
set_default_server rows id = switch_default id rows (find_server (λ s. s.id == id) rows)

unfoldable pub update_last_success_at : List ServerInfo → ℕ → ℤ → List ServerInfo
update_last_success_at [] id t = []
update_last_success_at (s ∷ rest) id t =
    (if s.id == id then record s { last_success_at = some t } else s)
    ∷ update_last_success_at rest id t

abbrev pub is_nonempty : Text → Bool
is_nonempty [] = false
is_nonempty (c ∷ s) = true

-- Why no endpoint was resolved.
pub data Resolved : Type 0 where
  endpoint : Text → Resolved
  invalid_override invalid_default no_default : Resolved

abbrev pub or_default : Option ServerInfo → Option ServerInfo → Option ServerInfo
or_default (some s) d = some s
or_default none d = d

-- A failover switches, finds nothing to switch to, or meets an error of the database.
pub data Failover : Type 0 where
  not_switched switch_failed : Failover
  switched : List ServerInfo → Text → Failover

module _ (validate : Text → Bool) where
  abbrev pub check_default : Option ServerInfo → Resolved
  check_default none = no_default
  check_default (some s) = if validate s.grpc_url then endpoint s.grpc_url else invalid_default

  abbrev pub resolve_override : Option Text → Resolved → Resolved
  resolve_override none default = default
  resolve_override (some raw_url) default =
      let override_url = trim raw_url in
      if is_nonempty override_url
      then (if validate override_url then endpoint override_url else invalid_override)
      else default

  -- `debug_build` is `cfg!(debug_assertions)`.
  unfoldable pub resolve_grpc_url_with_dev_override :
      Bool → List ServerInfo → Network → Option Text → Resolved
  unfolding list_servers
  resolve_grpc_url_with_dev_override debug_build rows network dev_override =
      let default = check_default (find_server (is_default_of network) (list_servers rows)) in
      resolve_override (if debug_build then dev_override else none) default

  module _ (probe : Text → Bool) where
    -- The first candidate that answers the probe.
    abbrev pub first_alive : Option ServerInfo → List ServerInfo → Option ServerInfo
    first_alive none servers = none
    first_alive (some from) servers =
        find_server (λ s. not (s.id == from.id) && probe s.grpc_url) servers

    abbrev pub commit_failover : List ServerInfo → ℤ → Option ServerInfo → Failover
    commit_failover rows now_ms none = not_switched
    commit_failover rows now_ms (some s) = elim (set_default_server rows s.id) [
      | none ↦ switch_failed
      | some rows' ↦ switched (update_last_success_at rows' s.id now_ms) s.grpc_url
    ]

    -- The table and the endpoint after a failover from the current endpoint.
    unfoldable pub try_failover_server : List ServerInfo → Network → Text → ℤ → Failover
    unfolding list_servers set_default_server update_last_success_at
    try_failover_server rows network current_grpc_url now_ms =
        let network_servers =
          filter_servers (λ s. network_eq s.network network && validate s.grpc_url)
            (list_servers rows) in
        let from =
          or_default (find_server (λ s. text_eq s.grpc_url current_grpc_url) network_servers)
            (find_server (λ s. s.is_default) network_servers) in
        if ltb (length network_servers) 2
        then not_switched
        else commit_failover rows now_ms (first_alive from network_servers)
