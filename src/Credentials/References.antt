-- ===== src/Credentials/References.antt =====
-- What passes as the name of a secret.
use lightspeed_cloud_agents.Prelude.{
  ℕ, ◌≤◌, String, ◌≡◌, refl, sym, ◌∙◌, subst, ◌≢◌, inl, inr, Bool, true, false, not, ◌||◌, List, [],
  ◌∷◌, ◌++◌, arith, eq_iff, ltb, ◌==◌, if◌then◌else◌, Bool-cases, length, any, all, mem_text, codes,
  lower, starts_with, starts_with_self, lower-append,
}
use lightspeed_cloud_agents.Json.{Value, text}
use lightspeed_cloud_agents.Errors.{Error, ok, err}
use lightspeed_cloud_agents.Credentials.{
  secret_value_prefixes, reference_char, matches_reference, looks_like_secret_value,
  validate_credential_reference,
}

-- What an accepted reference looks like.
pub record IsReference (v : Value) (r : String) : Type 0 where
  pub unchanged : v ≡ text r
  pub filled : 1 ≤ length (codes r)
  pub bounded : length (codes r) ≤ 254
  pub characters : all reference_char (codes r) ≡ true
  pub no_secret : looks_like_secret_value (codes r) ≡ false

matches_reference-bounds :
    (s : List ℕ)
    → matches_reference s ≡ true
    → (1 ≤ length s) × (length s ≤ 254) × (all reference_char s ≡ true)
unfolding matches_reference
matches_reference-bounds [] h = cc
matches_reference-bounds (c ∷ s) h = ground arith

-- A chain of three refusals that returned.
accepted :
    (a b c : Bool) (d e f : Error) (s r : String)
    → (if a then err d else if b then err e else if c then err f else ok s) ≡ ok r
    → (b ≡ false) × (c ≡ false) × (s ≡ r)
accepted a b c d e f s r h = ground arith

matched : (n : ℕ) (m : Bool) → (ltb 254 n || not m) ≡ false → m ≡ true
matched n m h = ground arith

IsReference-of :
    (s r : String)
    → matches_reference (codes s) ≡ true
    → looks_like_secret_value (codes s) ≡ false
    → s ≡ r
    → IsReference (text s) r
IsReference-of s r m p e =
    let (lo, hi, chars) = matches_reference-bounds (codes s) m in
    subst (λ t. IsReference (text s) t) e
      (record { unchanged = refl; filled = lo; bounded = hi; characters = chars; no_secret = p })

-- A value that is accepted is a text of 1 to 254 letters, digits, `_`, `.` and `-` without the
-- prefix of a secret value, and it is returned as it is.
pub validate_credential_reference-IsReference :
    (v : Value) (r : String) → validate_credential_reference v ≡ ok r → IsReference v r
unfolding validate_credential_reference
validate_credential_reference-IsReference (text s) r h =
    let (b, c, e) = accepted (s == "") _ (looks_like_secret_value (codes s)) _ _ _ s r h in
    IsReference-of s r (matched (length (codes s)) _ b) c e
validate_credential_reference-IsReference _ r h = cc

any_prefix :
    (p : String) (ps : List String) (s : List ℕ)
    → mem_text p ps ≡ true
    → starts_with s (codes p) ≡ true
    → any (λ q. starts_with s (codes q)) ps ≡ true
any_prefix p [] s h e = cc
any_prefix p (q ∷ ps) s h e = elim (Bool-cases (q == p)) [
  | inl same ↦ first q ((eq_iff q p).0 same)
  | inr other ↦ ground (arith, any_prefix p ps s)
]
  where
    first :
        (q : String)
        → q ≡ p
        → (starts_with s (codes q) || any (λ k. starts_with s (codes k)) ps) ≡ true
    first q same = rw same (rw e)

-- A text that begins with the prefix of a secret value, in upper or lower case, is refused as a
-- reference, whatever follows the prefix.
pub secret_value_refused :
    (prefix : String) (m t : List ℕ) (s r : String)
    → mem_text prefix secret_value_prefixes ≡ true
    → lower m ≡ codes prefix
    → codes s ≡ m ++ t
    → validate_credential_reference (text s) ≢ ok r
unfolding validate_credential_reference looks_like_secret_value
secret_value_refused prefix m t s r listed same begins h =
    let p = (accepted (s == "") _ (looks_like_secret_value (codes s)) _ _ _ s r h).1 in
    cc (sym p ∙ found)
  where
    found : looks_like_secret_value (codes s) ≡ true
    found =
        any_prefix prefix secret_value_prefixes (lower (codes s)) listed
          (rw (begins, lower-append m t, same) (starts_with_self (codes prefix) (lower t)))
