-- ===== src/Limiter/Levels.antt =====
-- What a key of the limiter could spend, as time passes and under a refill, a request or a cleanup.
use lightspeed_cloud_agents.Prelude.{
  ℕ, ◌+◌, ◌-◌, ◌*◌, ◌≤◌, ◌≡◌, refl, ap, ◌∙◌, inl, inr, Bool, false, not, Option, none, some, arith,
  ltb, leb, if◌then◌else◌, Bool-cases,
}
use lightspeed_cloud_agents.Limiter.{BucketState, min_of, state_or_new, refill, is_stale, spend}
use lightspeed_cloud_agents.Keys.{kept_if}

-- What a key could spend at a time.
abbrev pub level : ℕ → ℕ → ℕ → Option BucketState → ℕ
level rate full now none = full
level rate full now (some s) = min_of full (s.tokens + (now - s.last_refill) * rate)

-- An entry is not above its capacity and not ahead of the clock.
abbrev pub InTime : ℕ → ℕ → Option BucketState → Type 0
InTime full now none = Unit
InTime full now (some s) = (s.tokens ≤ full) × (s.last_refill ≤ now)

-- Time adds the refill at most.
pub level-later :
    (rate full t now : ℕ) (o : Option BucketState)
    → t ≤ now
    → InTime full t o
    → level rate full now o ≤ level rate full t o + (now - t) * rate
level-later rate full t now none late h = omega arith
level-later rate full t now (some s) late h =
    let apart : (now - s.last_refill) * rate ≡ (now - t) * rate + (t - s.last_refill) * rate =
      ap (λ d. d * rate) (split_time (h.1)) ∙ add-times (now - t) (t - s.last_refill) rate in
    ground (arith, apart)
  where
    split_time : s.last_refill ≤ t → now - s.last_refill ≡ (now - t) + (t - s.last_refill)
    split_time e = omega (arith, e, late)

    add-times : (a b r : ℕ) → (a + b) * r ≡ a * r + b * r
    add-times a b r = omega arith

zero_times : (r : ℕ) → 0 * r ≡ 0
zero_times r = omega arith

-- Behind its refill a bucket holds what its key could spend.
pub refill-level :
    (rate full now : ℕ) (o : Option BucketState)
    → InTime full now o
    → ((refill rate full now (state_or_new full now o)).tokens ≡ level rate full now o)
      × ((refill rate full now (state_or_new full now o)).last_refill ≡ now)
refill-level rate full now none h =
    let at_once : ltb now now ≡ false = ground arith in rw at_once (refl, refl)
refill-level rate full now (some s) h = elim (Bool-cases (ltb s.last_refill now)) [
  | inl later ↦ rw later (refl, refl)
  | inr same ↦
      let e : s.last_refill ≡ now = ground (arith, h.1) in
      let no_time : now - s.last_refill ≡ 0 = omega (arith, e) in
      let zero_time : (now - s.last_refill) * rate ≡ 0 =
        ap (λ d. d * rate) no_time ∙ zero_times rate in
      rw same (ground (arith, zero_time, h.0), e)
]

-- A cleanup leaves every key what it could spend.
pub cleanup-level :
    (rate full now : ℕ) (o : Option BucketState)
    → level rate full now (kept_if (λ s. not (is_stale rate full now s)) o) ≡ level rate full now o
cleanup-level rate full now none = refl
cleanup-level rate full now (some s) = elim (Bool-cases (is_stale rate full now s)) [
  | inl stale ↦ rw stale (ground arith)
  | inr kept ↦ rw kept refl
]

pub kept-InTime :
    (rate full now : ℕ) (o : Option BucketState)
    → InTime full now o
    → InTime full now (kept_if (λ s. not (is_stale rate full now s)) o)
kept-InTime rate full now none h = tt
kept-InTime rate full now (some s) h = elim (Bool-cases (is_stale rate full now s)) [
  | inl stale ↦ rw stale tt
  | inr kept ↦ rw kept h
]

-- What a request costs its key.
abbrev pub cost : Bool → ℕ → ℕ
cost granted token = if granted then token else 0

pub spend-level :
    (rate full token now : ℕ) (s : BucketState)
    → s.tokens ≤ full
    → s.last_refill ≡ now
    → (cost (leb token s.tokens) token
          + level rate full now (some (spend (leb token s.tokens) token s))
        ≡ s.tokens)
      × InTime full now (some (spend (leb token s.tokens) token s))
spend-level rate full token now s h e = elim (Bool-cases (leb token s.tokens)) [
  | inl enough ↦
      let some_left : token ≤ s.tokens = ground arith in
      rw enough (ground (arith, zero_time, some_left, h), (omega (arith, h), omega (arith, e)))
  | inr short ↦ rw short (ground (arith, zero_time, h), (h, omega (arith, e)))
]
  where
    zero_time : (now - s.last_refill) * rate ≡ 0
    zero_time = ap (λ d. d * rate) (omega (arith, e)) ∙ zero_times rate

pub level-full : (rate full now : ℕ) (o : Option BucketState) → level rate full now o ≤ full
level-full rate full now none = omega arith
level-full rate full now (some s) = ground arith
