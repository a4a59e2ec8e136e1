-- ===== src/Credentials/Urls.antt =====
-- Which URLs carry a user name.
use lightspeed_cloud_agents.Prelude.{
  ℕ, ◌≡◌, refl, sym, ap, ◌∙◌, subst, ◌↔◌, ◌⊎◌, inl, inr, Bool, true, false, not, ◌||◌, Option, none,
  some, List, [], ◌∷◌, ◌++◌, arith, nat_eq, nat_eq→eq, Bool-cases, is_empty, All,
}
use lightspeed_cloud_agents.Credentials.{
  is_alpha, scheme_char, after_scheme, without_scheme, userinfo, is_filled, behind_slashes,
  sanitized, netloc_userinfo,
}

abbrev pub AllPass : (ℕ → Bool) → List ℕ → Type 0
AllPass p = All (λ c. p c ≡ true)

-- A character of a user name in a network location.
abbrev pub is_name_char : ℕ → Bool
is_name_char c = not (nat_eq c b'@' || nat_eq c b'/' || nat_eq c b'?' || nat_eq c b'#')

-- `//user@rest`.
pub record IsAuthority (s : List ℕ) : Type 0 where
  pub user : List ℕ
  pub rest : List ℕ
  pub filled : is_empty user ≡ false
  pub name_chars : AllPass is_name_char user
  pub split : s ≡ b'/' ∷ b'/' ∷ (user ++ (b'@' ∷ rest))

-- `scheme:t`.
pub record IsSchemed (s t : List ℕ) : Type 0 where
  pub initial : ℕ
  pub others : List ℕ
  pub letter : is_alpha initial ≡ true
  pub scheme_chars : AllPass scheme_char others
  pub split : s ≡ initial ∷ (others ++ (b':' ∷ t))

abbrev pub HasUser : List ℕ → Type 0
HasUser s = IsAuthority s ⊎ ((t : List ℕ) × IsSchemed s t × IsAuthority t)

abbrev Split : List ℕ → Option (List ℕ) → Type 0
Split s none = Unit
Split s (some u) = AllPass is_name_char u × ((rest : List ℕ) × (s ≡ u ++ (b'@' ∷ rest)))

userinfo-Split : (s : List ℕ) → Split s (userinfo s)
unfolding userinfo
userinfo-Split [] = tt
userinfo-Split (c ∷ s) = elim (Bool-cases (nat_eq c b'@')) [
  | inl at ↦ rw at (tt, (s, ap (λ k. k ∷ s) (nat_eq→eq c b'@' at)))
  | inr other ↦ elim (Bool-cases (nat_eq c b'/' || nat_eq c b'?' || nat_eq c b'#')) [
    | inl end_ ↦ rw (other, end_) tt
    | inr name ↦
        rw (other, name) (longer (userinfo s) (userinfo-Split s) (ground (arith, other, name)))
  ]
]
  where
    longer :
        (o : Option (List ℕ))
        → Split s o
        → is_name_char c ≡ true
        → Split (c ∷ s) (elim o [ none ↦ none | some u ↦ some (c ∷ u) ])
    longer none h k = tt
    longer (some u) (h, (rest, e)) k = ((k, h), (rest, ap (λ t. c ∷ t) e))

userinfo_self : (u rest : List ℕ) → AllPass is_name_char u → userinfo (u ++ (b'@' ∷ rest)) ≡ some u
unfolding userinfo
userinfo_self [] rest h = refl
userinfo_self (c ∷ u) rest h =
    let at : nat_eq c b'@' ≡ false = ground (arith, h.0) in
    let end_ : (nat_eq c b'/' || nat_eq c b'?' || nat_eq c b'#') ≡ false = ground (arith, h.0) in
    rw (at, end_, userinfo_self u rest h.1) refl

behind_slashes-IsAuthority : (s : List ℕ) → behind_slashes s ≡ true → IsAuthority s
behind_slashes-IsAuthority [] h = ground (arith, h)
behind_slashes-IsAuthority (a ∷ []) h = ground (arith, h)
behind_slashes-IsAuthority (a ∷ b ∷ s) h = found (userinfo s) (userinfo-Split s) (ground (arith, h))
  where
    slashes : a ∷ b ∷ s ≡ b'/' ∷ b'/' ∷ s
    slashes =
        let first = nat_eq→eq a b'/' (ground (arith, h)) in
        let second = nat_eq→eq b b'/' (ground (arith, h)) in cc

    found : (o : Option (List ℕ)) → Split s o → is_filled o ≡ true → IsAuthority (a ∷ b ∷ s)
    found none k f = ground (arith, f)
    found (some u) (k, (rest, e)) f = record {
      user = u;
      rest = rest;
      filled = ground (arith, f);
      name_chars = k;
      split = slashes ∙ ap (λ t. b'/' ∷ b'/' ∷ t) e;
    }

slashed : (s : List ℕ) → IsAuthority s → behind_slashes s ≡ true
slashed s a =
    subst (λ t. behind_slashes t ≡ true) (sym a.split)
      (rw (userinfo_self a.user a.rest a.name_chars, a.filled) refl)

abbrev Schemed : List ℕ → Option (List ℕ) → Type 0
Schemed s none = Unit
Schemed s (some t) = (others : List ℕ) × AllPass scheme_char others × (s ≡ others ++ (b':' ∷ t))

after_scheme-Schemed : (s : List ℕ) → Schemed s (after_scheme s)
unfolding after_scheme
after_scheme-Schemed [] = tt
after_scheme-Schemed (c ∷ s) = elim (Bool-cases (nat_eq c b':')) [
  | inl colon ↦ rw colon ([], tt, ap (λ k. k ∷ s) (nat_eq→eq c b':' colon))
  | inr other ↦ elim (Bool-cases (scheme_char c)) [
    | inl more ↦ rw (other, more) (longer (after_scheme s) (after_scheme-Schemed s) more)
    | inr stop ↦ rw (other, stop) tt
  ]
]
  where
    longer : (o : Option (List ℕ)) → Schemed s o → scheme_char c ≡ true → Schemed (c ∷ s) o
    longer none h k = tt
    longer (some t) (others, h, e) k = (c ∷ others, (k, h), ap (λ r. c ∷ r) e)

after_scheme_self :
    (others t : List ℕ) → AllPass scheme_char others → after_scheme (others ++ (b':' ∷ t)) ≡ some t
unfolding after_scheme
after_scheme_self [] t h = refl
after_scheme_self (c ∷ others) t h =
    let other : nat_eq c b':' ≡ false = ground (arith, h.0) in
    rw (other, h.0, after_scheme_self others t h.1) refl

without_scheme_self : (s t : List ℕ) → IsSchemed s t → without_scheme s ≡ t
unfolding without_scheme
without_scheme_self s t h =
    ap without_scheme h.split ∙ rw (h.letter, after_scheme_self h.others t h.scheme_chars) refl

user_of : (s : List ℕ) → behind_slashes (without_scheme s) ≡ true → HasUser s
unfolding without_scheme
user_of [] h = ground (arith, h)
user_of (c ∷ s) h = elim (Bool-cases (is_alpha c)) [
  | inl letter ↦ found (after_scheme s) (after_scheme-Schemed s) letter (rw letter at h)
  | inr other ↦ inl (behind_slashes-IsAuthority (c ∷ s) (rw other at h))
]
  where
    found :
        (o : Option (List ℕ))
        → Schemed s o
        → is_alpha c ≡ true
        → behind_slashes (elim o [ none ↦ c ∷ s | some t ↦ t ]) ≡ true
        → HasUser (c ∷ s)
    found none k letter b = inl (behind_slashes-IsAuthority (c ∷ s) b)
    found (some t) (others, k, e) letter b = inr (
      t,
      record {
        initial = c;
        others = others;
        letter = letter;
        scheme_chars = k;
        split = ap (λ r. c ∷ r) e;
      },
      behind_slashes-IsAuthority t b,
    )

without_scheme_authority : (s : List ℕ) → IsAuthority s → without_scheme s ≡ s
unfolding without_scheme
without_scheme_authority s a = subst (λ t. without_scheme t ≡ t) (sym a.split) refl

-- The network location of an address has a user name exactly when the address, as `urlparse` reads
-- it, is `//user@rest`, alone or behind a scheme.
pub netloc_userinfo_iff : (url : List ℕ) → (netloc_userinfo url ≡ true) ↔ HasUser (sanitized url)
unfolding netloc_userinfo
netloc_userinfo_iff url = (
  user_of (sanitized url),
  λ h. elim h [
    | inl a ↦
        ap behind_slashes (without_scheme_authority (sanitized url) a) ∙ slashed (sanitized url) a
    | inr (t, schemed, a) ↦
        ap behind_slashes (without_scheme_self (sanitized url) t schemed) ∙ slashed t a
  ],
)
