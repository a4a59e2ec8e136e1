-- ===== src/Credentials/Passwords.antt =====
-- Which addresses without a scheme carry a user name and a password.
use lightspeed_cloud_agents.Prelude.{
  ℕ, ◌≡◌, refl, sym, ap, ◌∙◌, subst, ◌↔◌, inl, inr, Bool, true, false, not, ◌&&◌, ◌||◌, List, [],
  ◌∷◌, ◌++◌, arith, nat_eq, nat_eq→eq, Bool-cases, is_empty, is_word,
}
use lightspeed_cloud_agents.Credentials.{user_char, password_at, schemeless_userinfo}
use lightspeed_cloud_agents.Credentials.Urls.{AllPass}

-- A character of a password.
abbrev pub is_password_char : ℕ → Bool
is_password_char c = not (nat_eq c b'@' || nat_eq c b'/')

-- `user:password@rest`.
pub record HasPassword (s : List ℕ) : Type 0 where
  pub user : List ℕ
  pub password : List ℕ
  pub rest : List ℕ
  pub user_filled : is_empty user ≡ false
  pub user_chars : AllPass user_char user
  pub password_filled : is_empty password ≡ false
  pub password_chars : AllPass is_password_char password
  pub split : s ≡ user ++ (b':' ∷ (password ++ (b'@' ∷ rest)))

-- What is left of `password@rest`, behind at least one character if the flag says that none was
-- read.
record IsPassword (seen : Bool) (s : List ℕ) : Type 0 where
  password : List ℕ
  rest : List ℕ
  filled : (seen || not (is_empty password)) ≡ true
  password_chars : AllPass is_password_char password
  split : s ≡ password ++ (b'@' ∷ rest)

password_at-IsPassword : (seen : Bool) (s : List ℕ) → password_at seen s ≡ true → IsPassword seen s
unfolding password_at
password_at-IsPassword seen [] h = ground (arith, h)
password_at-IsPassword seen (c ∷ s) h = elim (Bool-cases (nat_eq c b'@')) [
  | inl at ↦
      let before : seen ≡ true = rw at at h in
      record {
        password = [];
        rest = s;
        filled = ground (arith, before);
        password_chars = tt;
        split = ap (λ k. k ∷ s) (nat_eq→eq c b'@' at);
      }
  | inr other ↦ elim (Bool-cases (nat_eq c b'/')) [
    | inl slash ↦ let seen_ = rw (other, slash) at h in ground (arith, seen_)
    | inr name ↦
        let more = password_at-IsPassword true s (rw (other, name) at h) in
        record {
          password = c ∷ more.password;
          rest = more.rest;
          filled = ground arith;
          password_chars = (ground (arith, other, name), more.password_chars);
          split = ap (λ t. c ∷ t) more.split;
        }
  ]
]

password_self :
    (seen : Bool) (password rest : List ℕ)
    → (seen || not (is_empty password)) ≡ true
    → AllPass is_password_char password
    → password_at seen (password ++ (b'@' ∷ rest)) ≡ true
unfolding password_at
password_self seen [] rest f h = ground (arith, f)
password_self seen (c ∷ password) rest f h =
    let at : nat_eq c b'@' ≡ false = ground (arith, h.0) in
    let slash : nat_eq c b'/' ≡ false = ground (arith, h.0) in
    rw (at, slash) (password_self true password rest refl h.1)

-- `user:password@rest`, where the flag says whether a character of the user was read.
record IsUser (seen : Bool) (s : List ℕ) : Type 0 where
  user : List ℕ
  behind : List ℕ
  filled : (seen || not (is_empty user)) ≡ true
  user_chars : AllPass user_char user
  password : IsPassword false behind
  split : s ≡ user ++ (b':' ∷ behind)

schemeless_userinfo-IsUser :
    (seen : Bool) (s : List ℕ) → schemeless_userinfo seen s ≡ true → IsUser seen s
unfolding schemeless_userinfo
schemeless_userinfo-IsUser seen [] h = ground (arith, h)
schemeless_userinfo-IsUser seen (c ∷ s) h = elim (Bool-cases (nat_eq c b':')) [
  | inl colon ↦
      let both : (seen && password_at false s) ≡ true = rw colon at h in
      record {
        user = [];
        behind = s;
        filled = ground (arith, both);
        user_chars = tt;
        password = password_at-IsPassword false s (ground (arith, both));
        split = ap (λ k. k ∷ s) (nat_eq→eq c b':' colon);
      }
  | inr other ↦ elim (Bool-cases (user_char c)) [
    | inl name ↦
        let more = schemeless_userinfo-IsUser true s (rw (other, name) at h) in
        record {
          user = c ∷ more.user;
          behind = more.behind;
          filled = ground arith;
          user_chars = (name, more.user_chars);
          password = more.password;
          split = ap (λ t. c ∷ t) more.split;
        }
    | inr stop ↦ let seen_ = rw (other, stop) at h in ground (arith, seen_)
  ]
]

no_colon : (c : ℕ) → user_char c ≡ true → nat_eq c b':' ≡ false
unfolding is_word
no_colon c h = ground (arith, h)

plain_user_self :
    (seen : Bool) (user behind : List ℕ)
    → (seen || not (is_empty user)) ≡ true
    → AllPass user_char user
    → password_at false behind ≡ true
    → schemeless_userinfo seen (user ++ (b':' ∷ behind)) ≡ true
unfolding schemeless_userinfo
plain_user_self seen [] behind f h p = ground (arith, f, p)
plain_user_self seen (c ∷ user) behind f h p =
    rw (no_colon c h.0, h.0) (plain_user_self true user behind refl h.1 p)

-- The pattern for addresses without a scheme matches exactly `user:password@rest`.
pub schemeless_userinfo_iff :
    (url : List ℕ) → (schemeless_userinfo false url ≡ true) ↔ HasPassword url
schemeless_userinfo_iff url = (
  λ h.
      let u = schemeless_userinfo-IsUser false url h in
      let p = u.password in
      record {
        user = u.user;
        password = p.password;
        rest = p.rest;
        user_filled = ground (arith, u.filled);
        user_chars = u.user_chars;
        password_filled = ground (arith, p.filled);
        password_chars = p.password_chars;
        split = u.split ∙ ap (λ t. u.user ++ (b':' ∷ t)) p.split;
      },
  λ h.
      subst (λ t. schemeless_userinfo false t ≡ true) (sym h.split)
        (plain_user_self false h.user (h.password ++ (b'@' ∷ h.rest))
          (ground (arith, h.user_filled)) h.user_chars
          (password_self false h.password h.rest (ground (arith, h.password_filled))
            h.password_chars)),
)
