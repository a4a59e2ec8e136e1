-- ===== src/Credentials/Mcp.antt =====
-- Which inline MCP configurations pass.
use lightspeed_cloud_agents.Prelude.{
  String, ◌≡◌, refl, sym, subst, ◌≢◌, ◌↔◌, ◌⊎◌, inl, inr, Bool, true, false, not, ◌&&◌, some, List,
  [], ◌∷◌, arith, eq_iff, ◌==◌, Bool-cases, All, codes, lower, starts_with, contains, same_text,
  Dict, lookup,
}
use lightspeed_cloud_agents.Json.{Value, text, truthy}
use lightspeed_cloud_agents.Errors.{
  Error, credentialed_url, secret_header, secret_like_header, credential_header_value,
  ungated_credentials, secret_bearing_key, Result, ok, err, ◌>>◌, refuse,
}
use lightspeed_cloud_agents.Steps.{McpEntry, named, inline}
use lightspeed_cloud_agents.Credentials.{
  mcp_secret_key_markers, mcp_forbidden_plaintext_headers, secret_value_prefixes,
  looks_like_secret_value, is_secret_key, sanitized, netloc_userinfo, schemeless_userinfo,
  credentialed, secret_text, forbidden_header, check_headers, headers_of, value_or_null, gated_key,
  check_keys, check_inline, check_entries, reject_secret_bearing_mcp,
}
use lightspeed_cloud_agents.Credentials.Infixes.{
  refuted, any_refuted, IsPrefix, IsInfix, starts_with_iff, contains_iff, same_text_iff,
}
use lightspeed_cloud_agents.Credentials.Urls.{HasUser, netloc_userinfo_iff}
use lightspeed_cloud_agents.Credentials.Passwords.{HasPassword, schemeless_userinfo_iff}

-- An address without a user name, neither as `urlparse` reads it nor as a plain text.
abbrev pub IsOpen : Value → Type 0
IsOpen (text url) = (¬ HasUser (sanitized (codes url))) × (¬ HasPassword (codes url))
IsOpen _ = Unit

-- No marker of secrets stands in the name, in any case.
abbrev pub IsHarmless : String → Type 0
IsHarmless name = All (λ m. ¬ IsInfix (codes m) (lower (codes name))) mcp_secret_key_markers

abbrev pub IsPlain : Value → Type 0
IsPlain (text value) = All (λ p. ¬ IsPrefix (codes p) (lower (codes value))) secret_value_prefixes
IsPlain _ = Unit

-- A header whose name is neither forbidden nor one of a secret, and whose value does not look like
-- one.
abbrev pub IsHeaderClean : String × Value → Type 0
IsHeaderClean (name, value) =
    All (λ h. lower (codes name) ≢ codes h) mcp_forbidden_plaintext_headers
    × IsHarmless name
    × IsPlain value

-- A key of a secret's name is one of the four that are looked at on their own, or has no value.
abbrev pub IsKeyClean : String × Value → Type 0
IsKeyClean (key, value) =
    IsHarmless key
    ⊎ ((key ≡ "secret_headers") ⊎ ((key ≡ "headers") ⊎ ((key ≡ "url") ⊎ (key ≡ "name"))))
    ⊎ (truthy value ≡ false)

pub record IsClean (config : Dict Value) : Type 0 where
  pub url : IsOpen (value_or_null (lookup "url" config))
  pub headers : All IsHeaderClean (headers_of (lookup "headers" config))
  pub no_credentials : truthy (value_or_null (lookup "credentials_secret" config)) ≡ false
  pub keys : All IsKeyClean config

abbrev pub IsEntryClean : McpEntry → Type 0
IsEntryClean (named name) = Unit
IsEntryClean (inline config) = IsClean config

is_secret_key_iff : (name : String) → (is_secret_key (codes name) ≡ false) ↔ IsHarmless name
unfolding is_secret_key
is_secret_key_iff name =
    any_refuted _ (λ m. contains (lower (codes name)) (codes m))
      (λ m.
        refuted (contains (lower (codes name)) (codes m))
          (contains_iff (lower (codes name)) (codes m)))
      mcp_secret_key_markers

secret_text_iff : (v : Value) → (secret_text v ≡ false) ↔ IsPlain v
unfolding looks_like_secret_value
secret_text_iff (text value) =
    any_refuted _ (λ p. starts_with (lower (codes value)) (codes p))
      (λ p.
        refuted (starts_with (lower (codes value)) (codes p))
          (starts_with_iff (lower (codes value)) (codes p)))
      secret_value_prefixes
secret_text_iff v = (λ h. tt, λ h. refl)

forbidden_iff :
    (name : String)
    → (forbidden_header name ≡ false)
      ↔ All (λ h. lower (codes name) ≢ codes h) mcp_forbidden_plaintext_headers
forbidden_iff name =
    any_refuted _ (λ h. same_text (lower (codes name)) (codes h))
      (λ h.
        refuted (same_text (lower (codes name)) (codes h))
          (same_text_iff (lower (codes name)) (codes h)))
      mcp_forbidden_plaintext_headers

credentialed_iff : (v : Value) → (credentialed v ≡ false) ↔ IsOpen v
unfolding credentialed
credentialed_iff (text url) =
    let net = refuted (netloc_userinfo (codes url)) (netloc_userinfo_iff (codes url)) in
    let bare =
      refuted (schemeless_userinfo false (codes url)) (schemeless_userinfo_iff (codes url)) in
    (
      λ h. (net.0 (ground (arith, h)), bare.0 (ground (arith, h))),
      λ h. let a = net.1 h.0 in let b = bare.1 h.1 in ground (arith, a, b),
    )
credentialed_iff v = (λ h. tt, λ h. refl)

gated_iff :
    (key : String)
    → (gated_key key ≡ true)
      ↔ ((key ≡ "secret_headers") ⊎ ((key ≡ "headers") ⊎ ((key ≡ "url") ⊎ (key ≡ "name"))))
gated_iff key = (
  λ h. elim (Bool-cases ("secret_headers" == key)) [
    | inl a ↦ inl (sym ((eq_iff "secret_headers" key).0 a))
    | inr a ↦ elim (Bool-cases ("headers" == key)) [
      | inl b ↦ inr (inl (sym ((eq_iff "headers" key).0 b)))
      | inr b ↦ elim (Bool-cases ("url" == key)) [
        | inl c ↦ inr (inr (inl (sym ((eq_iff "url" key).0 c))))
        | inr c ↦ inr (inr (inr (sym ((eq_iff "name" key).0 (ground (arith, h, a, b, c))))))
      ]
    ]
  ],
  λ h. elim h [
    | inl a ↦ subst (λ k. gated_key k ≡ true) (sym a) refl
    | inr (inl b) ↦ subst (λ k. gated_key k ≡ true) (sym b) refl
    | inr (inr (inl c)) ↦ subst (λ k. gated_key k ≡ true) (sym c) refl
    | inr (inr (inr d)) ↦ subst (λ k. gated_key k ≡ true) (sym d) refl
  ],
)

key_iff :
    (key : String) (value : Value)
    → ((is_secret_key (codes key) && not (gated_key key) && truthy value) ≡ false)
      ↔ IsKeyClean (key, value)
key_iff key value = (
  λ h. elim (Bool-cases (is_secret_key (codes key))) [
    | inr a ↦ inl ((is_secret_key_iff key).0 a)
    | inl a ↦ elim (Bool-cases (gated_key key)) [
      | inl b ↦ inr (inl ((gated_iff key).0 b))
      | inr b ↦ inr (inr (ground (arith, h, a, b)))
    ]
  ],
  λ h. elim h [
    | inl a ↦ let seen = (is_secret_key_iff key).1 a in rw seen refl
    | inr (inl b) ↦ let seen = (gated_iff key).1 b in ground (arith, seen)
    | inr (inr c) ↦ ground (arith, c)
  ],
)

-- A check that passes exactly when a statement holds.
abbrev Decides {ℓ} : Result (Unit {0}) → Type ℓ → Type ℓ
Decides m S = (m ≡ ok tt) ↔ S

refuse-Decides :
    (t : Bool) (e : Error) (k : Result (Unit {0})) (S T : Type 0)
    → (t ≡ false) ↔ S
    → Decides k T
    → Decides (refuse t e >> k) (S × T)
refuse-Decides true e k S T s d = (λ h. cc, λ h. let no_ = s.1 h.0 in ground (arith, no_))
refuse-Decides false e k S T s d = (λ h. (s.0 refl, d.0 h), λ h. d.1 h.1)

bind-Decides :
    (m k : Result (Unit {0})) (S T : Type 0) → Decides m S → Decides k T → Decides (m >> k) (S × T)
bind-Decides (ok tt) k S T d e = (λ h. (d.0 refl, e.0 h), λ h. e.1 h.1)
bind-Decides (err x) k S T d e = (λ h. cc, λ h. cc (d.1 h.0))

regroup : (m : Result (Unit {0})) (S T : Type 0) → Decides m S → (S → T) → (T → S) → Decides m T
regroup m S T d f g = (λ h. f (d.0 h), λ h. d.1 (g h))

check_headers-Decides :
    (headers : Dict Value) → Decides (check_headers headers) (All IsHeaderClean headers)
unfolding check_headers
check_headers-Decides [] = (λ h. tt, λ h. refl)
check_headers-Decides ((name, value) ∷ headers) =
    regroup _ _ _
      (refuse-Decides (forbidden_header name) secret_header _ _ _ (forbidden_iff name) (
        refuse-Decides (is_secret_key (codes name)) secret_like_header _ _ _
          (is_secret_key_iff name)
          (refuse-Decides (secret_text value) credential_header_value (check_headers headers) _ _
            (secret_text_iff value) (check_headers-Decides headers))))
      (λ (a, (b, (c, d))). ((a, b, c), d)) (λ ((a, b, c), d). (a, (b, (c, d))))

check_keys-Decides : (config : Dict Value) → Decides (check_keys config) (All IsKeyClean config)
unfolding check_keys
check_keys-Decides [] = (λ h. tt, λ h. refl)
check_keys-Decides ((key, value) ∷ rest) =
    refuse-Decides (is_secret_key (codes key) && not (gated_key key) && truthy value)
      secret_bearing_key (check_keys rest) _ _ (key_iff key value) (check_keys-Decides rest)

check_inline-Decides : (config : Dict Value) → Decides (check_inline config) (IsClean config)
unfolding check_inline
check_inline-Decides config =
    regroup _ _ _
      (refuse-Decides (credentialed (value_or_null (lookup "url" config))) credentialed_url _ _ _
        (credentialed_iff (value_or_null (lookup "url" config)))
        (bind-Decides (check_headers headers) _ _ _ (check_headers-Decides headers) (
          refuse-Decides (truthy (value_or_null (lookup "credentials_secret" config)))
            ungated_credentials (check_keys config)
            (truthy (value_or_null (lookup "credentials_secret" config)) ≡ false) _ (λ h. h, λ h. h)
            (check_keys-Decides config))))
      (λ (a, (b, (c, d))). record { url = a; headers = b; no_credentials = c; keys = d })
      (λ r. (r.url, (r.headers, (r.no_credentials, r.keys))))
  where
    headers : Dict Value
    headers = headers_of (lookup "headers" config)

check_entries-Decides :
    (servers : List McpEntry) → Decides (check_entries servers) (All IsEntryClean servers)
unfolding check_entries
check_entries-Decides [] = (λ h. tt, λ h. refl)
check_entries-Decides (named name ∷ servers) =
    let rest = check_entries-Decides servers in (λ h. (tt, rest.0 h), λ h. rest.1 h.1)
check_entries-Decides (inline config ∷ servers) =
    bind-Decides (check_inline config) (check_entries servers) _ _ (check_inline-Decides config)
      (check_entries-Decides servers)

pub reject_secret_bearing_mcp_iff :
    (servers : List McpEntry)
    → (reject_secret_bearing_mcp (some servers) ≡ ok (some servers)) ↔ All IsEntryClean servers
unfolding reject_secret_bearing_mcp
reject_secret_bearing_mcp_iff servers = (
  λ h. (check_entries-Decides servers).0 (passed (check_entries servers) h),
  λ h. rw ((check_entries-Decides servers).1 h) refl,
)
  where
    passed : (m : Result (Unit {0})) → (m >> ok (some servers)) ≡ ok (some servers) → m ≡ ok tt
    passed (ok tt) h = refl
    passed (err e) h = cc
