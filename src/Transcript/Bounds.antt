-- ===== src/Transcript/Bounds.antt =====
-- How long a truncated transcript is, and what of it is kept.
use lightspeed_cloud_agents.Prelude.{
  ℕ, zero, suc, ◌+◌, ◌-◌, ◌/◌, ◌≤◌, ◌<◌, String, ◌≡◌, refl, sym, ap, ◌∙◌, subst, inl, inr, List, [],
  ◌∷◌, ◌++◌, append-nil, arith, ltb, leb, Bool-cases, length, take,
}
use lightspeed_cloud_agents.Json.{Value}
use lightspeed_cloud_agents.Transcript.{TranscriptEvent, skip, marker, shorten}

length-take {ℓ} : {A : Type ℓ} (n : ℕ) (xs : List A) → length (take n xs) ≤ n
length-take zero xs = omega arith
length-take (suc n) [] = omega arith
length-take (suc n) (x ∷ xs) = omega (arith, length-take n xs)

length-skip {ℓ} : {A : Type ℓ} (n : ℕ) (xs : List A) → length (skip n xs) ≡ length xs - n
length-skip zero xs = omega arith
length-skip (suc n) [] = omega arith
length-skip (suc n) (x ∷ xs) = omega (arith, length-skip n xs)

-- What truncating makes of the events, with a limit on their number.
pub data Shortened (dumps : Value → String) (limit : ℕ) (events : List TranscriptEvent)
    : List TranscriptEvent → Type 0 where
  whole : length events ≤ limit → Shortened dumps limit events events
  cut_out :
      (first middle last : List TranscriptEvent)
      → events ≡ first ++ (middle ++ last)
      → length first ≡ length last
      → length first + length last ≤ limit
      → limit ≤ length first + length last + 1
      → Shortened dumps limit events (first ++ (marker dumps (length middle) ∷ last))

take-skip {ℓ} : {A : Type ℓ} (n : ℕ) (xs : List A) → xs ≡ take n xs ++ skip n xs
take-skip zero xs = refl
take-skip (suc n) [] = refl
take-skip (suc n) (x ∷ xs) = ap (λ r. x ∷ r) (take-skip n xs)

length-take_within {ℓ} : {A : Type ℓ} (n : ℕ) (xs : List A) → n ≤ length xs → length (take n xs) ≡ n
length-take_within zero xs h = refl
length-take_within (suc n) [] h = absurd (omega (arith, h))
length-take_within (suc n) (x ∷ xs) h = ap suc (length-take_within n xs (omega (arith, h)))

skip-skip {ℓ} : {A : Type ℓ} (n k m : ℕ) (xs : List A) → m ≡ n + k → skip m xs ≡ skip k (skip n xs)
skip-skip zero k m xs h = ap (λ r. skip r xs) (omega (arith, h))
skip-skip (suc n) zero zero [] h = refl
skip-skip (suc n) (suc k) zero [] h = refl
skip-skip (suc n) zero (suc m) [] h = refl
skip-skip (suc n) (suc k) (suc m) [] h = refl
skip-skip (suc n) k zero (x ∷ xs) h = absurd (omega (arith, h))
skip-skip (suc n) k (suc m) (x ∷ xs) h = skip-skip n k m xs (omega (arith, h))

module _ (dumps : Value → String) where
  -- The middle part is as long as the marker says.
  cut_at :
      (limit half : ℕ) (events : List TranscriptEvent)
      → half + half ≤ limit
      → limit ≤ half + half + 1
      → limit < length events
      → (omitted : ℕ) → omitted ≡ length events - (half + half)
      → Shortened dumps limit events
          (take half events ++ (marker dumps omitted ∷ skip (length events - half) events))
  cut_at limit half events low high long omitted count =
      let behind = skip half events in
      let size = length-skip half events in
      let middle = take omitted behind in
      let last = skip (length events - half) events in
      let same = skip-skip half omitted (length events - half) events (omega arith) in
      let parts =
        take-skip half events
        ∙ ap (λ r. take half events ++ r)
            (take-skip omitted behind ∙ ap (λ r. middle ++ r) (sym same)) in
      let front = length-take_within half events (omega arith) in
      let back = length-skip (length events - half) events in
      let inner = length-take_within omitted behind (omega arith) in
      subst (λ n. Shortened dumps limit events (take half events ++ (marker dumps n ∷ last))) inner
        (cut_out (take half events) middle last parts (omega arith) (omega arith) (omega arith))

  no_half :
      (limit omitted : ℕ) (events : List TranscriptEvent)
      → limit ≤ 1
      → omitted ≡ length events
      → Shortened dumps limit events (marker dumps omitted ∷ [])
  no_half limit omitted events high count =
      subst (λ n. Shortened dumps limit events (marker dumps n ∷ [])) (sym count)
        (cut_out [] events [] (sym (append-nil events)) refl (omega arith) (omega arith))

  pub shorten-Shortened :
      (limit : ℕ) (events : List TranscriptEvent)
      → Shortened dumps limit events (shorten dumps limit events)
  unfolding shorten
  shorten-Shortened limit events = elim (Bool-cases (leb (length events) limit)) [
    | inl short ↦ rw short (whole (ground arith))
    | inr long ↦ elim (Bool-cases (ltb 0 (limit / 2))) [
      | inl some_half ↦
          let front = length-take_within (limit / 2) events (ground arith) in
          let back = length-skip (length events - limit / 2) events in
          rw (long, some_half)
            (cut_at limit (limit / 2) events (omega arith) (omega arith) (ground arith) _
              (ground arith))
      | inr none_of ↦
          let zero_half : limit / 2 ≡ 0 = ground arith in
          rw (long, none_of, zero_half)
            (no_half limit _ events (omega (arith, zero_half)) (omega arith))
    ]
  ]
