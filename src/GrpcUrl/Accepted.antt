-- ===== src/GrpcUrl/Accepted.antt =====
-- Which URLs the two policies accept.
use zbag_app_tauri.Base.{
  ℕ, refl, inl, inr, ◌≡◌, ◌≢◌, ◌⊎◌, ◌↔◌, true, [], ◌∷◌, Option, none, some, Text, trim, after_first,
  text_eq→eq, text_eq_refl, arith,
}
use zbag_app_tauri.GrpcUrl.{
  GrpcUrlPolicy, release, debug, Url, Parsed, url, failed, empty_host, relative_url_without_base,
  other_error, check_scheme, check_authority, or_check, GrpcUrlError, https, http, is_localhost,
  check_parsed, separator, validate_grpc_url_with_policy,
}

-- An absolute URL with a host and none of the parts that are not allowed.
pub record IsPlain (u : Url) : Type 0 where
  pub no_username : u.username ≡ []
  pub no_password : u.password ≡ none
  pub no_query : u.query ≡ none
  pub no_fragment : u.fragment ≡ none
  pub no_port_zero : u.port ≢ some 0

-- The schemes that a policy lets through.
abbrev pub AllowedScheme : GrpcUrlPolicy → Url → Type 0
AllowedScheme release u = u.scheme ≡ https
AllowedScheme debug u = (u.scheme ≡ https) ⊎ ((u.scheme ≡ http) × (is_localhost u.host ≡ true))

scheme_of_none :
    (policy : GrpcUrlPolicy) (u : Url) → check_scheme policy u ≡ none → AllowedScheme policy u
unfolding check_scheme
scheme_of_none release u h = ground (arith, text_eq→eq u.scheme https)
scheme_of_none debug u h = ground (arith, text_eq→eq u.scheme https, text_eq→eq u.scheme http)

none_of_scheme :
    (policy : GrpcUrlPolicy) (u : Url) → AllowedScheme policy u → check_scheme policy u ≡ none
unfolding check_scheme
none_of_scheme release u h = rw (h, text_eq_refl https)
none_of_scheme debug u (inl h) = rw (h, text_eq_refl https)
none_of_scheme debug u (inr (h, l)) = rw (h, text_eq_refl http, l) (ground arith)

check_parsed-none :
    (policy : GrpcUrlPolicy) (p : Parsed)
    → check_parsed policy p ≡ none
    → (u : Url) × (p ≡ url u) × IsPlain u × AllowedScheme policy u
unfolding check_parsed
check_parsed-none policy (failed empty_host) h = cc
check_parsed-none policy (failed relative_url_without_base) h = cc
check_parsed-none policy (failed other_error) h = cc
check_parsed-none policy (url u) h = (
  u,
  refl,
  record {
    no_username = ground arith;
    no_password = ground arith;
    no_query = ground arith;
    no_fragment = ground arith;
    no_port_zero = λ e. ground arith;
  },
  scheme_of_none policy u (ground arith),
)

none_of_check_parsed :
    (policy : GrpcUrlPolicy) (u : Url)
    → IsPlain u
    → AllowedScheme policy u
    → check_parsed policy (url u) ≡ none
unfolding check_parsed
none_of_check_parsed policy u plain allowed =
    rw (plain.no_username, plain.no_password, plain.no_query, plain.no_fragment)
      (ground (arith, none_of_scheme policy u allowed, plain.no_port_zero))

-- The text has `://`, and then a host's first character.
abbrev pub HasAuthority : Text → Type 0
HasAuthority s =
    (c : ℕ) × (rest : Text) × (after_first separator (trim s) ≡ some (c ∷ rest)) × (c ≢ b'/')

authority_of_none :
    (o : Option Text)
    → check_authority o ≡ none
    → (c : ℕ) × (rest : Text) × (o ≡ some (c ∷ rest)) × (c ≢ b'/')
authority_of_none none h = cc
authority_of_none (some []) h = cc
authority_of_none (some (c ∷ rest)) h = (c, rest, refl, λ e. ground arith)

or_check-none : (a b : Option GrpcUrlError) → or_check a b ≡ none → (a ≡ none) × (b ≡ none)
or_check-none none b h = (refl, h)
or_check-none (some e) b h = cc

-- Validation accepts a text exactly if, trimmed, it has an authority after `://` and parses to a
-- URL with no user name, password, query, fragment or port 0, whose scheme the policy allows:
-- https, or in a debug build also http to a loopback host.
pub validate-none_iff :
    (parse : Text → Parsed) (s : Text) (policy : GrpcUrlPolicy)
    → (validate_grpc_url_with_policy parse s policy ≡ none) ↔ (
        HasAuthority s
        × ((u : Url) × (parse (trim s) ≡ url u) × IsPlain u × AllowedScheme policy u))
unfolding validate_grpc_url_with_policy
validate-none_iff parse s policy = (accepted, λ h. conditions h.0 h.1)
  where
    accepted :
        validate_grpc_url_with_policy parse s policy ≡ none
        → HasAuthority s
          × ((u : Url) × (parse (trim s) ≡ url u) × IsPlain u × AllowedScheme policy u)
    accepted h =
        let (a, b) = or_check-none _ _ h in
        (authority_of_none _ a, check_parsed-none policy (parse (trim s)) b)

    conditions :
        HasAuthority s
        → ((u : Url) × (parse (trim s) ≡ url u) × IsPlain u × AllowedScheme policy u)
        → validate_grpc_url_with_policy parse s policy ≡ none
    conditions (c, rest, e, ne) (u, p, plain, allowed) =
        rw (e, p) (ground (arith, none_of_check_parsed policy u plain allowed))

-- What a release build accepts a debug build accepts too.
pub validate-release_debug :
    (parse : Text → Parsed) (s : Text)
    → validate_grpc_url_with_policy parse s release ≡ none
    → validate_grpc_url_with_policy parse s debug ≡ none
validate-release_debug parse s h =
    let (authority, (u, p, plain, allowed)) = (validate-none_iff parse s release).0 h in
    (validate-none_iff parse s debug).1 (authority, (u, p, plain, inl allowed))
