-- ===== src/Credentials.antt =====
-- Secret references and secret values: `validate_credential_reference` and
-- `reject_secret_bearing_mcp` of src/cloud_agents/workflow/core/execution.py. Texts are ASCII; a URL
-- has no bracket, which `urlparse` may refuse.
pub mod References
pub mod Infixes
pub mod Urls
pub mod Passwords
pub mod Mcp
mod Tests
use lightspeed_cloud_agents.Prelude.{
  ℕ, String, Bool, true, false, not, ◌&&◌, ◌||◌, Option, none, some, List, [], ◌∷◌, ltb, leb,
  nat_eq, ◌==◌, if◌then◌else◌, length, is_empty, any, all, mem_text, codes, lower, is_word,
  starts_with, contains, same_text, keep_if, Dict, lookup,
}
use lightspeed_cloud_agents.Json.{Value, null, text, object, truthy, entries}
use lightspeed_cloud_agents.Steps.{McpEntry, named, inline}
use lightspeed_cloud_agents.Errors.{
  bad_credential_reference, secret_value, credentialed_url, secret_header, secret_like_header,
  credential_header_value, ungated_credentials, secret_bearing_key, Result, ok, err, ◌>>=◌, ◌>>◌,
  refuse,
}

-- MCP_SECRET_KEY_MARKERS.
abbrev pub mcp_secret_key_markers : List String
mcp_secret_key_markers =
    "secret" ∷ "credentials_secret" ∷ "api_key" ∷ "apikey" ∷ "token" ∷ "password" ∷ "authorization"
    ∷ []

-- MCP_FORBIDDEN_PLAINTEXT_HEADERS.
abbrev pub mcp_forbidden_plaintext_headers : List String
mcp_forbidden_plaintext_headers =
    "authorization" ∷ "proxy-authorization" ∷ "cookie" ∷ "set-cookie" ∷ "x-api-key" ∷ []

-- SECRET_VALUE_PREFIXES.
abbrev pub secret_value_prefixes : List String
secret_value_prefixes =
    "sk-" ∷ "bearer " ∷ "akia" ∷ "xoxb-" ∷ "xoxp-" ∷ "xoxa-" ∷ "xoxr-" ∷ "xoxs-" ∷ "ghp_" ∷ "gho_"
    ∷ "ghs_" ∷ "-----begin" ∷ []

abbrev pub is_alnum : ℕ → Bool
is_alnum c = (leb b'a' c && leb c b'z') || (leb b'A' c && leb c b'Z') || (leb b'0' c && leb c b'9')

-- `[A-Za-z0-9_.\-]`.
abbrev pub reference_char : ℕ → Bool
reference_char c = is_alnum c || nat_eq c b'_' || nat_eq c b'.' || nat_eq c b'-'

-- `CREDENTIAL_REFERENCE_PATTERN.fullmatch(ref) is not None`.
pub matches_reference : List ℕ → Bool
matches_reference [] = false
matches_reference (c ∷ s) = is_alnum c && leb (length s) 253 && all reference_char s

-- `any(lowered.startswith(prefix) for prefix in SECRET_VALUE_PREFIXES)`; also
-- `_looks_like_secret_value`.
pub looks_like_secret_value : List ℕ → Bool
looks_like_secret_value value = any (λ p. starts_with (lower value) (codes p)) secret_value_prefixes

unfoldable pub validate_credential_reference : Value → Result String
unfolding matches_reference looks_like_secret_value
validate_credential_reference (text ref) =
    if ref == ""
    then err bad_credential_reference
    else if ltb 254 (length (codes ref)) || not (matches_reference (codes ref))
    then err bad_credential_reference
    else if looks_like_secret_value (codes ref)
    then err secret_value
    else ok ref
validate_credential_reference _ = err bad_credential_reference

pub is_secret_key : List ℕ → Bool
is_secret_key key = any (λ m. contains (lower key) (codes m)) mcp_secret_key_markers

-- `[\w.%+\-]`.
abbrev pub user_char : ℕ → Bool
user_char c = is_word c || nat_eq c b'.' || nat_eq c b'%' || nat_eq c b'+' || nat_eq c b'-'

-- `[^@/]+@` at the front; the flag says that a character was read.
pub password_at : Bool → List ℕ → Bool
password_at seen [] = false
password_at seen (c ∷ s) =
    let more = password_at true s in
    if nat_eq c b'@' then seen else if nat_eq c b'/' then false else more

-- `re.match(r"^[\w.%+\-]+:[^@/]+@", url)`.
pub schemeless_userinfo : Bool → List ℕ → Bool
unfolding password_at
schemeless_userinfo seen [] = false
schemeless_userinfo seen (c ∷ s) =
    let more = schemeless_userinfo true s in
    if nat_eq c b':' then seen && password_at false s else if user_char c then more else false

abbrev pub is_alpha : ℕ → Bool
is_alpha c = (leb b'a' c && leb c b'z') || (leb b'A' c && leb c b'Z')

abbrev pub scheme_char : ℕ → Bool
scheme_char c = is_alnum c || nat_eq c b'+' || nat_eq c b'-' || nat_eq c b'.'

-- The text behind a scheme and its colon, if the text goes on with one.
pub after_scheme : List ℕ → Option (List ℕ)
after_scheme [] = none
after_scheme (c ∷ s) =
    let more = after_scheme s in
    if nat_eq c b':' then some s else if scheme_char c then more else none

pub without_scheme : List ℕ → List ℕ
unfolding after_scheme
without_scheme [] = []
without_scheme (c ∷ s) =
    if is_alpha c then (elim (after_scheme s) [ none ↦ c ∷ s | some t ↦ t ]) else c ∷ s

-- The network location's characters before the first `@`, if it has one.
pub userinfo : List ℕ → Option (List ℕ)
userinfo [] = none
userinfo (c ∷ s) =
    let rest = userinfo s in
    if nat_eq c b'@'
    then some []
    else if nat_eq c b'/' || nat_eq c b'?' || nat_eq c b'#'
    then none
    else (elim rest [ none ↦ none | some u ↦ some (c ∷ u) ])

abbrev pub is_filled : Option (List ℕ) → Bool
is_filled none = false
is_filled (some u) = not (is_empty u)

abbrev pub behind_slashes : List ℕ → Bool
behind_slashes [] = false
behind_slashes (a ∷ []) = false
behind_slashes (a ∷ b ∷ s) = nat_eq a b'/' && nat_eq b b'/' && is_filled (userinfo s)

-- What `urlparse` does first: it strips control characters and spaces in front, and drops every
-- tab, line feed and carriage return.
unfoldable pub strip_controls : List ℕ → List ℕ
strip_controls [] = []
strip_controls (c ∷ s) = let rest = strip_controls s in if leb c 32 then rest else c ∷ s

abbrev pub is_dropped : ℕ → Bool
is_dropped c = nat_eq c 9 || nat_eq c 10 || nat_eq c 13

abbrev pub sanitized : List ℕ → List ℕ
sanitized url = keep_if (λ c. not (is_dropped c)) (strip_controls url)

-- `urlparse(url).netloc.split("@", 1)` has two parts, the first not empty.
pub netloc_userinfo : List ℕ → Bool
unfolding without_scheme userinfo strip_controls
netloc_userinfo url = behind_slashes (without_scheme (sanitized url))

pub credentialed : Value → Bool
unfolding netloc_userinfo schemeless_userinfo
credentialed (text url) = netloc_userinfo (codes url) || schemeless_userinfo false (codes url)
credentialed _ = false

abbrev pub secret_text : Value → Bool
secret_text (text value) = looks_like_secret_value (codes value)
secret_text _ = false

abbrev pub forbidden_header : String → Bool
forbidden_header name =
    any (λ h. same_text (lower (codes name)) (codes h)) mcp_forbidden_plaintext_headers

-- The loop over an entry's headers.
pub check_headers : Dict Value → Result (Unit {0})
unfolding looks_like_secret_value is_secret_key
check_headers [] = ok tt
check_headers ((name, value) ∷ headers) = do
  refuse (forbidden_header name) secret_header
  refuse (is_secret_key (codes name)) secret_like_header
  refuse (secret_text value) credential_header_value
  check_headers headers

abbrev pub headers_of : Option Value → Dict Value
headers_of (some (object fs)) = entries fs
headers_of _ = []

abbrev pub value_or_null : Option Value → Value
value_or_null none = null
value_or_null (some v) = v

-- The keys that may have a secret's name.
abbrev pub gated_key : String → Bool
gated_key key = mem_text key ("secret_headers" ∷ "headers" ∷ "url" ∷ "name" ∷ [])

-- The loop over an entry's keys.
pub check_keys : Dict Value → Result (Unit {0})
unfolding is_secret_key
check_keys [] = ok tt
check_keys ((key, value) ∷ rest) = do
  refuse (is_secret_key (codes key) && not (gated_key key) && truthy value) secret_bearing_key
  check_keys rest

pub check_inline : Dict Value → Result (Unit {0})
unfolding credentialed check_headers check_keys lookup entries
check_inline config = do
  refuse (credentialed (value_or_null (lookup "url" config))) credentialed_url
  check_headers (headers_of (lookup "headers" config))
  refuse (truthy (value_or_null (lookup "credentials_secret" config))) ungated_credentials
  check_keys config

-- The loop over the entries of a list.
pub check_entries : List McpEntry → Result (Unit {0})
unfolding check_inline
check_entries [] = ok tt
check_entries (named name ∷ servers) = check_entries servers
check_entries (inline config ∷ servers) = do check_inline config; check_entries servers

unfoldable pub reject_secret_bearing_mcp : Option (List McpEntry) → Result (Option (List McpEntry))
unfolding check_entries
reject_secret_bearing_mcp none = ok none
reject_secret_bearing_mcp (some servers) = do check_entries servers; ok (some servers)
