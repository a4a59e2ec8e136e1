-- ===== src/Scope/Laws.antt =====
-- What a scope lets a step use, and that the legacy fields never widen it.
use lightspeed_cloud_agents.Prelude.{
  String, ◌≡◌, refl, sym, ap, ◌∙◌, subst, ◌≢◌, inl, inr, Bool, true, false, not, ◌&&◌, Option, none,
  some, List, [], ◌∷◌, arith, eq_iff, eq_refl, ◌==◌, if◌then◌else◌, Bool-cases, keep_if, mem_text,
}
use lightspeed_cloud_agents.Errors.{conflicting_service_account, Result, ok, err, ◌>>=◌}
use lightspeed_cloud_agents.Steps.{PermissionScope}
use lightspeed_cloud_agents.Scope.{
  only_allowed, without_denied, effective_tools, PermissionMeta, add_account, collapse_account,
  collapse_permissions, only_account,
}

mem-keep_if_head :
    (p : String → Bool) (t : String) (ts : List String)
    → mem_text t (keep_if p ts) ≡ (mem_text t ts && p t)
    → mem_text t (keep_if p (t ∷ ts)) ≡ (mem_text t (t ∷ ts) && p t)
mem-keep_if_head p t ts h = ground (arith, eq_refl t)

mem-keep_if :
    (p : String → Bool) (t : String) (ts : List String)
    → mem_text t (keep_if p ts) ≡ (mem_text t ts && p t)
mem-keep_if p t [] = refl
mem-keep_if p t (u ∷ ts) = elim (Bool-cases (u == t)) [
  | inl e ↦
      subst (λ k. mem_text t (keep_if p (k ∷ ts)) ≡ (mem_text t (k ∷ ts) && p t))
        (sym ((eq_iff u t).0 e)) (mem-keep_if_head p t ts (mem-keep_if p t ts))
  | inr e ↦ ground (arith, mem-keep_if p t ts)
]

-- The test of an optional list: everything is allowed where there is none.
abbrev pub is_allowed : Option (List String) → String → Bool
is_allowed none t = true
is_allowed (some allowed) t = mem_text t allowed

abbrev pub is_denied : Option (List String) → String → Bool
is_denied none t = false
is_denied (some denied) t = mem_text t denied

mem-only_allowed :
    (o : Option (List String)) (t : String) (ts : List String)
    → mem_text t (only_allowed o ts) ≡ (mem_text t ts && is_allowed o t)
mem-only_allowed none t ts = ground arith
mem-only_allowed (some allowed) t ts = mem-keep_if _ t ts

mem-without_denied :
    (o : Option (List String)) (t : String) (ts : List String)
    → mem_text t (without_denied o ts) ≡ (mem_text t ts && not (is_denied o t))
mem-without_denied none t ts = ground arith
mem-without_denied (some denied) t ts = mem-keep_if _ t ts

-- A tool is in the effective set exactly when it is a tool, the scope's whitelist has it or there
-- is no whitelist, and the scope's blacklist does not have it: a tool on both lists is denied.
pub mem-effective_tools :
    (scope : PermissionScope) (t : String) (all_tools : List String)
    → mem_text t (effective_tools scope all_tools) ≡ (
        (mem_text t all_tools && is_allowed scope.allowed_tools t)
        && not (is_denied scope.denied_tools t))
unfolding effective_tools
mem-effective_tools scope t all_tools =
    mem-without_denied scope.denied_tools t (only_allowed scope.allowed_tools all_tools)
    ∙ ap (λ b. b && not (is_denied scope.denied_tools t))
        (mem-only_allowed scope.allowed_tools t all_tools)

-- The second scope has the tools and the limits of the first one.
pub record SameGrants (a b : PermissionScope) : Type 0 where
  pub allowed : b.allowed_tools ≡ a.allowed_tools
  pub denied : b.denied_tools ≡ a.denied_tools
  pub tokens : b.max_tokens ≡ a.max_tokens
  pub timeout : b.timeout_seconds ≡ a.timeout_seconds

-- A scope without tool lists and limits.
pub record IsBare (b : PermissionScope) : Type 0 where
  pub allowed : b.allowed_tools ≡ none
  pub denied : b.denied_tools ≡ none
  pub tokens : b.max_tokens ≡ none
  pub timeout : b.timeout_seconds ≡ none

-- What becomes of a scope and a legacy account: one constructor for each case.
pub data Collapsed (meta : PermissionMeta)
    : Option PermissionScope
      → Option String
      → Result (Option PermissionScope × PermissionMeta)
      → Type 0 where
  no_account : (o : Option PermissionScope) → Collapsed meta o none (ok (o, meta))
  empty_account :
      (o : Option PermissionScope) (account : String)
      → (account == "") ≡ true
      → Collapsed meta o (some account) (ok (o, meta))
  made :
      (b : PermissionScope) (account : String)
      → (account == "") ≡ false
      → b.service_account ≡ some account
      → IsBare b
      → Collapsed meta none (some account) (ok (some b, meta))
  filled :
      (a b : PermissionScope) (account : String)
      → (account == "") ≡ false
      → a.service_account ≡ none
      → b.service_account ≡ some account
      → SameGrants a b
      → Collapsed meta (some a) (some account) (ok (some b, meta))
  agreeing :
      (a : PermissionScope) (account : String)
      → a.service_account ≡ some account
      → Collapsed meta (some a) (some account) (ok (some a, meta))
  conflicting :
      (a : PermissionScope) (held account : String)
      → (account == "") ≡ false
      → a.service_account ≡ some held
      → held ≢ account
      → Collapsed meta (some a) (some account) (err conflicting_service_account)

module _ (meta : PermissionMeta) where
  held-Collapsed :
      (a : PermissionScope) (held : Option String) (account : String)
      → (account == "") ≡ false
      → a.service_account ≡ held
      → Collapsed meta (some a) (some account) (
          (elim held [
            | none ↦ ok (some (record a { service_account = some account }))
            | some h ↦ if h == account then ok (some a) else err conflicting_service_account
          ])
          >>= λ s. ok (s, meta))
  held-Collapsed a none account given e =
      filled a (record a { service_account = some account }) account given e refl
        (record { allowed = refl; denied = refl; tokens = refl; timeout = refl })
  held-Collapsed a (some h) account given e = elim (Bool-cases (h == account)) [
    | inl p ↦ rw p (agreeing a account (e ∙ ap some ((eq_iff h account).0 p)))
    | inr p ↦ rw p (conflicting a h account given e (λ q. differs q p))
  ]
    where
      differs : h ≡ account → (h == account) ≡ false → ⊥
      differs q p = cc ((eq_iff h account).1 q)

  add_account-Collapsed :
      (o : Option PermissionScope) (account : String)
      → (account == "") ≡ false
      → Collapsed meta o (some account) (add_account o account >>= λ s. ok (s, meta))
  unfolding add_account
  add_account-Collapsed none account given =
      made (only_account account) account given refl
        (record { allowed = refl; denied = refl; tokens = refl; timeout = refl })
  add_account-Collapsed (some a) account given =
      held-Collapsed a a.service_account account given refl

  collapse_account-Collapsed :
      (o : Option PermissionScope) (legacy : Option String)
      → Collapsed meta o legacy (collapse_account o legacy >>= λ s. ok (s, meta))
  collapse_account-Collapsed o none = no_account o
  collapse_account-Collapsed o (some account) = elim (Bool-cases (account == "")) [
    | inl p ↦ rw p (empty_account o account p)
    | inr p ↦ rw p (add_account-Collapsed o account p)
  ]

-- The legacy fields collapse into a scope as follows: with no account, or an empty one, the scope
-- stays as it is; with an account and no scope, the scope has that account and nothing else; a
-- scope without an account gets it and keeps its tools and limits; a scope with the same account
-- stays as it is; and for a scope with another account there is the error for conflicting accounts.
-- The risk level and the namespaces are carried along unchanged.
pub collapse_permissions-Collapsed :
    (o : Option PermissionScope) (legacy risk : Option String) (namespaces : Option (List String))
    → Collapsed
        (record { risk_level = risk; target_namespaces = namespaces })
        o
        legacy
        (collapse_permissions o legacy risk namespaces)
unfolding collapse_permissions
collapse_permissions-Collapsed o legacy risk namespaces = collapse_account-Collapsed _ o legacy
