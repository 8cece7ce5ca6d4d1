-- ===== src/Servers/Search.antt =====
-- Searches through the table of servers and through what a listing makes of it.
use zbag_app_tauri.Base.{
  ◌≤◌, ◌<◌, ◌≡◌, refl, ◌⊎◌, inl, inr, Bool, true, false, List, [], ◌∷◌, ◌++◌, Option, none, some,
  arith, ◌==◌, ==_refl, Bool-cases,
}
use zbag_app_tauri.Servers.{
  Network, mainnet, testnet, ServerInfo, filter_servers, find_server, is_default_of, is_other_of,
  list_servers, or_default,
}
use zbag_app_tauri.Servers.Table.{count_id}

pub or_default-none : (o : Option ServerInfo) → or_default o none ≡ o
or_default-none none = refl
or_default-none (some s) = refl

module _ (p : ServerInfo → Bool) where
  pub find_server-append :
      (xs ys : List ServerInfo)
      → find_server p (xs ++ ys) ≡ or_default (find_server p xs) (find_server p ys)
  find_server-append [] ys = refl
  find_server-append (x ∷ xs) ys = ground (arith, find_server-append xs ys)

  -- A filter that keeps what is searched for does not change what is found.
  pub find_server-filter :
      (q : ServerInfo → Bool)
      → ((s : ServerInfo) → p s ≡ true → q s ≡ true)
      → (xs : List ServerInfo) → find_server p (filter_servers q xs) ≡ find_server p xs
  find_server-filter q keeps [] = refl
  find_server-filter q keeps (x ∷ xs) = ground (arith, keeps x, find_server-filter q keeps xs)

  pub find_server-filter_none :
      (q : ServerInfo → Bool)
      → ((s : ServerInfo) → p s ≡ true → q s ≡ false)
      → (xs : List ServerInfo) → find_server p (filter_servers q xs) ≡ none
  find_server-filter_none q drops [] = refl
  find_server-filter_none q drops (x ∷ xs) =
      ground (arith, drops x, find_server-filter_none q drops xs)

-- Occurs in the table.
abbrev pub In : ServerInfo → List ServerInfo → Type 0
In s [] = ⊥
In s (r ∷ rows) = (r ≡ s) ⊎ In s rows

pub In-find_server :
    (p : ServerInfo → Bool) (rows : List ServerInfo) (s : ServerInfo)
    → find_server p rows ≡ some s
    → In s rows × (p s ≡ true)
In-find_server p [] s h = cc
In-find_server p (r ∷ rows) s h = elim (Bool-cases (p r)) [
  | inl e ↦ let q : r ≡ s = ground (arith, e) in (inl q, rw (← q) e)
  | inr e ↦ let ih = In-find_server p rows s (ground (arith, e)) in (inr ih.0, ih.1)
]

pub In-filter_servers :
    (p : ServerInfo → Bool) (rows : List ServerInfo) (s : ServerInfo)
    → In s (filter_servers p rows)
    → In s rows × (p s ≡ true)
In-filter_servers p [] s h = elim h [ ]
In-filter_servers p (r ∷ rows) s h = ground (arith, In-filter_servers p rows s)

pub In-filter_append :
    (p : ServerInfo → Bool) (rows ys : List ServerInfo) (s : ServerInfo)
    → In s (filter_servers p rows ++ ys)
    → In s rows ⊎ In s ys
In-filter_append p [] ys s h = inr h
In-filter_append p (r ∷ rows) ys s h = ground (arith, In-filter_append p rows ys s)

pub In-list_servers :
    (rows : List ServerInfo) (s : ServerInfo) → In s (list_servers rows) → In s rows
unfolding list_servers
In-list_servers rows s h =
    elim (In-filter_append (is_default_of mainnet) rows
      (filter_servers (is_other_of mainnet) rows
        ++ (filter_servers (is_default_of testnet) rows
            ++ filter_servers (is_other_of testnet) rows))
      s h) [
        | inl a ↦ a
        | inr b ↦
            elim (In-filter_append (is_other_of mainnet) rows
              (filter_servers (is_default_of testnet) rows
                ++ filter_servers (is_other_of testnet) rows)
              s b) [
                | inl c ↦ c
                | inr d ↦
                    elim (In-filter_append (is_default_of testnet) rows
                      (filter_servers (is_other_of testnet) rows) s d) [
                        | inl e ↦ e
                        | inr f ↦ (In-filter_servers (is_other_of testnet) rows s f).0
                      ]
              ]
      ]

pub In-count_id : (rows : List ServerInfo) (s : ServerInfo) → In s rows → 0 < count_id s.id rows
In-count_id [] s h = elim h [ ]
In-count_id (r ∷ rows) s (inl e) = ground (arith, e, ==_refl s.id)
In-count_id (r ∷ rows) s (inr h) = ground (arith, In-count_id rows s h)

-- A row is the one that is found under its id.
pub find_server-In :
    (rows : List ServerInfo) (s : ServerInfo)
    → count_id s.id rows ≤ 1
    → In s rows
    → find_server (λ r. r.id == s.id) rows ≡ some s
find_server-In [] s u h = elim h [ ]
find_server-In (r ∷ rows) s u (inl e) = ground (arith, e, ==_refl s.id)
find_server-In (r ∷ rows) s u (inr h) = ground (arith, In-count_id rows s h, find_server-In rows s)

-- The order of `list_servers` does not change which default is found.
pub find_server-list_servers :
    (net : Network) (rows : List ServerInfo)
    → find_server (is_default_of net) (list_servers rows) ≡ find_server (is_default_of net) rows
unfolding list_servers
find_server-list_servers mainnet rows = simp (
  find_server-append,
  find_server-filter (is_default_of mainnet) (is_default_of mainnet) (λ s h. h) rows,
  find_server-filter_none (is_default_of mainnet) (is_other_of mainnet) (λ s h. ground arith) rows,
  find_server-filter_none (is_default_of mainnet) (is_default_of testnet) (λ s h. ground arith)
      rows,
  find_server-filter_none (is_default_of mainnet) (is_other_of testnet) (λ s h. ground arith) rows,
  or_default-none,
)
find_server-list_servers testnet rows = simp (
  find_server-append,
  find_server-filter_none (is_default_of testnet) (is_default_of mainnet) (λ s h. ground arith)
      rows,
  find_server-filter_none (is_default_of testnet) (is_other_of mainnet) (λ s h. ground arith) rows,
  find_server-filter (is_default_of testnet) (is_default_of testnet) (λ s h. h) rows,
  find_server-filter_none (is_default_of testnet) (is_other_of testnet) (λ s h. ground arith) rows,
  or_default-none,
)
