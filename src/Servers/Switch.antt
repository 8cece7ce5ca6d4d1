-- ===== src/Servers/Switch.antt =====
-- What a failover switches to, and that the wallet then resolves to it.
use zbag_app_tauri.Base.{
  ℕ, ◌≤◌, ◌≡◌, ◌∙◌, refl, Bool, true, not, ◌&&◌, List, [], ◌∷◌, Option, none, some, Text, text_eq,
  arith, ◌==◌,
}
use zbag_app_tauri.Base.Int.{ℤ}
use zbag_app_tauri.Servers.{
  Network, network_eq, ServerInfo, switched, endpoint, filter_servers, find_server, is_default_of,
  list_servers, clear_default, raise_default, update_last_success_at, or_default, first_alive,
  commit_failover, try_failover_server, resolve_grpc_url_with_dev_override,
}
use zbag_app_tauri.Servers.Table.{
  count_id, OfNetwork, find_server-OfNetwork, set_default_server-found,
}
use zbag_app_tauri.Servers.Search.{
  In, In-find_server, In-filter_servers, In-list_servers, find_server-In, find_server-list_servers,
}

abbrev url_of : Option ServerInfo → Option Text
url_of none = none
url_of (some s) = some s.grpc_url

find_server-raise_clear :
    (id : ℕ) (net : Network) (rows : List ServerInfo)
    → OfNetwork id net rows
    → url_of (find_server (is_default_of net) (raise_default id (clear_default net rows)))
      ≡ url_of (find_server (λ r. r.id == id) rows)
find_server-raise_clear id net [] o = refl
find_server-raise_clear id net (s ∷ rows) o =
    ground (arith, o.0, find_server-raise_clear id net rows o.1)

find_server-update_last_success_at :
    (net : Network) (rows : List ServerInfo) (id : ℕ) (t : ℤ)
    → url_of (find_server (is_default_of net) (update_last_success_at rows id t))
      ≡ url_of (find_server (is_default_of net) rows)
unfolding update_last_success_at
find_server-update_last_success_at net [] id t = refl
find_server-update_last_success_at net (s ∷ rows) id t =
    ground (arith, find_server-update_last_success_at net rows id t)

module _ (validate probe : Text → Bool) where
  first_alive-In :
      (from : Option ServerInfo) (servers : List ServerInfo) (s : ServerInfo)
      → first_alive validate probe from servers ≡ some s
      → In s servers × (probe s.grpc_url ≡ true)
  first_alive-In none servers s h = cc
  first_alive-In (some r) servers s h =
      let found = In-find_server (λ t. not (t.id == r.id) && probe t.grpc_url) servers s h in
      (found.0, ground (arith, found.1))

  commit_failover-default :
      (rows rows' : List ServerInfo) (s : ServerInfo) (now_ms : ℤ) (url : Text)
      → count_id s.id rows ≤ 1
      → In s rows
      → commit_failover validate probe rows now_ms (some s) ≡ switched rows' url
      → (s.grpc_url ≡ url) × (url_of (find_server (is_default_of s.network) rows') ≡ some url)
  commit_failover-default rows rows' s now_ms url u i h =
      let f : find_server (λ r. r.id == s.id) rows ≡ some s = find_server-In rows s u i in
      let e = set_default_server-found rows s.id s f in
      let raised = raise_default s.id (clear_default s.network rows) in
      let h' : switched (update_last_success_at raised s.id now_ms) s.grpc_url
          ≡ switched rows' url =
        ground (arith, e, h) in
      let r : update_last_success_at raised s.id now_ms ≡ rows' = cc h' in
      let v : s.grpc_url ≡ url = cc h' in
      (
        v,
        rw (← r) (
            find_server-update_last_success_at s.network raised s.id now_ms
            ∙ find_server-raise_clear s.id s.network rows (find_server-OfNetwork s.id rows s u f)
            ∙ rw f (rw v refl)),
      )

  resolve-default :
      (debug_build : Bool) (rows : List ServerInfo) (net : Network) (url : Text)
      → url_of (find_server (is_default_of net) rows) ≡ some url
      → validate url ≡ true
      → resolve_grpc_url_with_dev_override validate debug_build rows net none ≡ endpoint url
  unfolding resolve_grpc_url_with_dev_override
  resolve-default debug_build rows net url h v = ground (arith, find_server-list_servers net rows)

  abbrev network_servers : List ServerInfo → Network → List ServerInfo
  network_servers rows net =
      filter_servers (λ s. network_eq s.network net && validate s.grpc_url) (list_servers rows)

  commit_failover-some :
      (rows rows' : List ServerInfo) (now_ms : ℤ) (url : Text) (o : Option ServerInfo)
      → commit_failover validate probe rows now_ms o ≡ switched rows' url
      → (s : ServerInfo) × (o ≡ some s)
  commit_failover-some rows rows' now_ms url none h = cc
  commit_failover-some rows rows' now_ms url (some s) h = (s, refl)

  -- A switch is the commit of the first candidate that is alive.
  try_failover_server-commit :
      (rows rows' : List ServerInfo) (net : Network) (current url : Text) (now_ms : ℤ)
      → try_failover_server validate probe rows net current now_ms ≡ switched rows' url
      → (from : Option ServerInfo) × (commit_failover validate probe rows now_ms
            (first_alive validate probe from (network_servers rows net))
          ≡ switched rows' url)
  unfolding try_failover_server
  try_failover_server-commit rows rows' net current url now_ms h = (
    or_default (find_server (λ s. text_eq s.grpc_url current) (network_servers rows net))
        (find_server (λ s. s.is_default) (network_servers rows net)),
    ground arith,
  )

  -- Let ids be keys. If a failover switches from `current` to `url`, then `url` passed the
  -- validation and answered the probe, and with no override it is what the wallet resolves to in
  -- that network from then on.
  pub try_failover_server-resolves :
      (rows rows' : List ServerInfo) (net : Network) (current url : Text) (now_ms : ℤ)
      (debug_build : Bool)
      → ((id : ℕ) → count_id id rows ≤ 1)
      → try_failover_server validate probe rows net current now_ms ≡ switched rows' url
      → (validate url ≡ true)
        × (probe url ≡ true)
        × (resolve_grpc_url_with_dev_override validate debug_build rows' net none ≡ endpoint url)
  try_failover_server-resolves rows rows' net current url now_ms debug_build u h =
      let (from, c) = try_failover_server-commit rows rows' net current url now_ms h in
      let (s, e) = commit_failover-some rows rows' now_ms url _ c in
      let alive = first_alive-In from (network_servers rows net) s e in
      let inside =
        In-filter_servers (λ t. network_eq t.network net && validate t.grpc_url) (list_servers rows)
          s alive.0 in
      let c' : commit_failover validate probe rows now_ms (some s) ≡ switched rows' url =
        rw e at c in
      let (v, d) =
        commit_failover-default rows rows' s now_ms url (u s.id) (In-list_servers rows s inside.0)
          c' in
      let valid : validate url ≡ true = ground (arith, inside.1, v) in
      let n : s.network ≡ net = ground (arith, inside.1) in
      (
        valid,
        ground (arith, alive.1, v),
        resolve-default debug_build rows' net url (rw n at d) valid,
      )
