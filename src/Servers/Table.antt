-- ===== src/Servers/Table.antt =====
-- The table keeps one default server to a network.
use zbag_app_tauri.Base.{
  ℕ, suc, ◌≤◌, ◌<◌, ◌≡◌, ◌≢◌, refl, inl, inr, Bool, true, ◌&&◌, List, [], ◌∷◌, some, arith, ◌==◌,
  if◌then◌else◌, Bool-cases,
}
use zbag_app_tauri.Servers.{
  Network, network_eq, ServerInfo, find_server, clear_default, raise_default, set_default_server,
}

-- How many rows of a network are marked as the default.
abbrev pub defaults : Network → List ServerInfo → ℕ
defaults net [] = 0
defaults net (s ∷ rest) =
    let later = defaults net rest in
    if network_eq s.network net && s.is_default then suc later else later

-- How many rows have an id.
abbrev pub count_id : ℕ → List ServerInfo → ℕ
count_id id [] = 0
count_id id (s ∷ rest) = let later = count_id id rest in if s.id == id then suc later else later

find_server-holds :
    (p : ServerInfo → Bool) (rows : List ServerInfo) (s : ServerInfo)
    → find_server p rows ≡ some s
    → p s ≡ true
find_server-holds p [] s h = cc
find_server-holds p (r ∷ rows) s h = elim (Bool-cases (p r)) [
  | inl e ↦ ground (arith, e)
  | inr e ↦ find_server-holds p rows s (ground (arith, e))
]

-- Every row with the id is of the network.
abbrev pub OfNetwork : ℕ → Network → List ServerInfo → Type 0
OfNetwork id net [] = Unit {0}
OfNetwork id net (s ∷ rest) = ((s.id == id) ≡ true → s.network ≡ net) × OfNetwork id net rest

count_id-zero :
    (id : ℕ) (net : Network) (rows : List ServerInfo) → count_id id rows ≡ 0 → OfNetwork id net rows
count_id-zero id net [] h = tt
count_id-zero id net (s ∷ rows) h =
    (λ e. ground (arith, e), count_id-zero id net rows (ground arith))

-- An id is a key: the row that is found under it is the only one.
pub find_server-OfNetwork :
    (id : ℕ) (rows : List ServerInfo) (s : ServerInfo)
    → count_id id rows ≤ 1
    → find_server (λ r. r.id == id) rows ≡ some s
    → OfNetwork id s.network rows
find_server-OfNetwork id [] s u h = tt
find_server-OfNetwork id (r ∷ rows) s u h = elim (Bool-cases (r.id == id)) [
  | inl e ↦ (λ _. ground (arith, e), count_id-zero id s.network rows (ground (arith, e)))
  | inr e ↦ (λ d. cc, find_server-OfNetwork id rows s (ground (arith, e)) (ground (arith, e)))
]

-- The two updates leave as many defaults in the network as there are rows with the id.
defaults-raise_clear :
    (id : ℕ) (net : Network) (rows : List ServerInfo)
    → OfNetwork id net rows
    → defaults net (raise_default id (clear_default net rows)) ≡ count_id id rows
defaults-raise_clear id net [] o = refl
defaults-raise_clear id net (s ∷ rows) o = ground (arith, o.0, defaults-raise_clear id net rows o.1)

defaults-raise_clear_other :
    (id : ℕ) (net other : Network) (rows : List ServerInfo)
    → net ≢ other
    → OfNetwork id net rows
    → defaults other (raise_default id (clear_default net rows)) ≡ defaults other rows
defaults-raise_clear_other id net other [] ne o = refl
defaults-raise_clear_other id net other (s ∷ rows) ne o =
    ground (arith, o.0, ne, defaults-raise_clear_other id net other rows ne o.1)

pub count_id-pos :
    (id : ℕ) (rows : List ServerInfo) (s : ServerInfo)
    → find_server (λ r. r.id == id) rows ≡ some s
    → 0 < count_id id rows
count_id-pos id [] s h = cc
count_id-pos id (r ∷ rows) s h = ground (arith, count_id-pos id rows s)

pub set_default_server-found :
    (rows : List ServerInfo) (id : ℕ) (s : ServerInfo)
    → find_server (λ r. r.id == id) rows ≡ some s
    → set_default_server rows id ≡ some (raise_default id (clear_default s.network rows))
unfolding set_default_server
set_default_server-found rows id s f = rw f

-- Where an id is the key of one row, making that server the default leaves its network with that
-- one default, whatever it had before, and every other network with as many as it had.
pub set_default_server_unique :
    (rows rows' : List ServerInfo) (id : ℕ) (s : ServerInfo) (other : Network)
    → count_id id rows ≤ 1
    → find_server (λ r. r.id == id) rows ≡ some s
    → s.network ≢ other
    → set_default_server rows id ≡ some rows'
    → (defaults s.network rows' ≡ 1) × (defaults other rows' ≡ defaults other rows)
set_default_server_unique rows rows' id s other u f ne h =
    let only : OfNetwork id s.network rows = find_server-OfNetwork id rows s u f in
    let e : raise_default id (clear_default s.network rows) ≡ rows' =
      cc (set_default_server-found rows id s f) in
    (
      rw (← e)
          (omega (arith, defaults-raise_clear id s.network rows only, count_id-pos id rows s f)),
      rw (← e) (defaults-raise_clear_other id s.network other rows ne only),
    )
