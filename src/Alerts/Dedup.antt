-- ===== src/Alerts/Dedup.antt =====
-- The tracker against a history that forgets nothing.
use lightspeed_cloud_agents.Prelude.{
  ℕ, ◌+◌, ◌*◌, ◌≤◌, ◌<◌, String, ◌≡◌, refl, ap, ◌∙◌, inl, inr, not, ◌&&◌, Option, none, some, List,
  [], ◌∷◌, arith, eq_iff, ltb, ◌==◌, if◌then◌else◌, Bool-cases, lookup, lookup-insert,
}
use lightspeed_cloud_agents.Keys.{
  Distinct, kept_if, lookup-keep_values, insert-Distinct, keep_values-Distinct,
}
use lightspeed_cloud_agents.Alerts.{Tracker, is_expired, prune, within, fire, should_fire}

-- Questions by fingerprint and time, the latest first.
abbrev pub Questions : Type 0
Questions = List (String × ℕ)

abbrev pub new_tracker : ℕ → Tracker
new_tracker window = record { window_seconds = window; last_fired = [] }

unfoldable pub asked : ℕ → Questions → Tracker
asked window [] = new_tracker window
asked window ((fp, now) ∷ qs) = (should_fire fp now (asked window qs)).1

-- When a fingerprint fired last, by the rule that it fires unless it fired within the window.
unfoldable pub last_fire : ℕ → String → Questions → Option ℕ
last_fire window fp [] = none
last_fire window fp ((q, now) ∷ qs) =
    let before = last_fire window fp qs in
    if q == fp && not (within window now before) then some now else before

abbrev newest : Questions → ℕ
newest [] = 0
newest ((q, now) ∷ qs) = now

abbrev pub InOrder : Questions → Type 0
InOrder [] = Unit
InOrder ((q, now) ∷ qs) = (newest qs ≤ now) × InOrder qs

-- An entry is the last fire, or was let go because that is long past.
abbrev Recalls : ℕ → ℕ → Option ℕ → Option ℕ → Type 0
Recalls window now none none = Unit
Recalls window now none (some t) = t + 2 * window < now
Recalls window now (some e) none = ⊥
Recalls window now (some e) (some t) = e ≡ t

kept-Recalls :
    (window before now : ℕ) (e t : Option ℕ)
    → before ≤ now
    → Recalls window before e t
    → Recalls window now (kept_if (λ ts. not (is_expired window now ts)) e) t
kept-Recalls window before now none none h r = tt
kept-Recalls window before now none (some t) h r = omega (arith, h, r)
kept-Recalls window before now (some e) none h r = absurd r
kept-Recalls window before now (some e) (some t) h r = elim (Bool-cases (is_expired window now e)) [
  | inl old ↦ rw old (ground (arith, r))
  | inr new ↦ rw new r
]

within-Recalls :
    (window now : ℕ) (e t : Option ℕ)
    → Recalls window now e t
    → within window now e ≡ within window now t
within-Recalls window now none none r = refl
within-Recalls window now none (some t) r = ground (arith, r)
within-Recalls window now (some e) none r = absurd r
within-Recalls window now (some e) (some t) r = ap (λ x. ltb now (x + window)) r

-- What the tracker keeps of the history.
record Tracks (window : ℕ) (qs : Questions) (t : Tracker) : Type 0 where
  same_window : t.window_seconds ≡ window
  distinct : Distinct t.last_fired
  recalls :
      (fp : String) → Recalls window (newest qs) (lookup fp t.last_fired) (last_fire window fp qs)

pruned-Recalls :
    (window : ℕ) (qs : Questions) (now : ℕ) (t : Tracker)
    → newest qs ≤ now
    → Tracks window qs t
    → (fp : String)
    → Recalls window now (lookup fp (prune now t).last_fired) (last_fire window fp qs)
unfolding prune
pruned-Recalls window qs now t later h fp =
    let before = h.recalls fp in
    let kept =
      kept-Recalls window (newest qs) now (lookup fp t.last_fired) (last_fire window fp qs) later
        before in
    rw
      (
        lookup-keep_values (λ ts. not (is_expired t.window_seconds now ts)) fp t.last_fired
            h.distinct,
        h.same_window,
      )
      kept

-- A question whose answer the history gives too.
answers :
    (window : ℕ) (qs : Questions) (now : ℕ) (t : Tracker)
    → newest qs ≤ now
    → Tracks window qs t
    → (fp : String)
    → within (prune now t).window_seconds now (lookup fp (prune now t).last_fired)
      ≡ within window now (last_fire window fp qs)
unfolding prune
answers window qs now t later h fp =
    ap (λ w. within w now (lookup fp (prune now t).last_fired)) h.same_window
    ∙ within-Recalls window now (lookup fp (prune now t).last_fired) (last_fire window fp qs)
        (pruned-Recalls window qs now t later h fp)

-- What the tracker and the history do with an answer: the same thing, entry by entry.
fire-Recalls :
    (window now : ℕ) (fp q : String) (t : Tracker) (qs : Questions)
    → (within t.window_seconds now (lookup q t.last_fired)
        ≡ within window now (last_fire window q qs))
    → ((k : String) → Recalls window now (lookup k t.last_fired) (last_fire window k qs))
    → Recalls window now
        (lookup fp (fire q now t).1.last_fired)
        (last_fire window fp ((q, now) ∷ qs))
unfolding last_fire
fire-Recalls window now fp q t qs same h = elim (Bool-cases (q == fp)) [
  | inl is_it ↦
      let eq : q ≡ fp = (eq_iff q fp).0 is_it in
      elim (Bool-cases (within window now (last_fire window fp qs))) [
        | inl held ↦
            let held_q = same ∙ ap (λ k. within window now (last_fire window k qs)) eq ∙ held in
            rw (held_q, is_it, held) (h fp)
        | inr free ↦
            let free_q = same ∙ ap (λ k. within window now (last_fire window k qs)) eq ∙ free in
            rw (free_q, is_it, free, lookup-insert q fp now t.last_fired, is_it) refl
      ]
  | inr other ↦ elim (Bool-cases (within t.window_seconds now (lookup q t.last_fired))) [
    | inl held ↦ rw (held, other) (h fp)
    | inr free ↦ rw (free, other, lookup-insert q fp now t.last_fired, other) (h fp)
  ]
]

pub fire-Distinct :
    (q : String) (now : ℕ) (t : Tracker)
    → Distinct t.last_fired
    → Distinct (fire q now t).1.last_fired
fire-Distinct q now t h = elim (Bool-cases (within t.window_seconds now (lookup q t.last_fired))) [
  | inl held ↦ rw held h
  | inr free ↦ rw free (insert-Distinct q now t.last_fired h)
]

pub fire-window :
    (q : String) (now : ℕ) (t : Tracker) → (fire q now t).1.window_seconds ≡ t.window_seconds
fire-window q now t = elim (Bool-cases (within t.window_seconds now (lookup q t.last_fired))) [
  | inl held ↦ rw held refl
  | inr free ↦ rw free refl
]

should_fire-Tracks :
    (window : ℕ) (qs : Questions) (q : String) (now : ℕ) (t : Tracker)
    → newest qs ≤ now
    → Tracks window qs t
    → Tracks window ((q, now) ∷ qs) (should_fire q now t).1
unfolding should_fire prune
should_fire-Tracks window qs q now t later h = record {
  same_window = fire-window q now (prune now t) ∙ h.same_window;
  distinct = fire-Distinct q now (prune now t) (
      keep_values-Distinct (λ ts. not (is_expired t.window_seconds now ts)) t.last_fired
        h.distinct);
  recalls = λ fp.
      fire-Recalls window now fp q (prune now t) qs (answers window qs now t later h q)
        (pruned-Recalls window qs now t later h);
}

asked-Tracks : (window : ℕ) (qs : Questions) → InOrder qs → Tracks window qs (asked window qs)
unfolding asked last_fire lookup
asked-Tracks window [] h = record { same_window = refl; distinct = tt; recalls = λ fp. tt }
asked-Tracks window ((q, now) ∷ qs) h =
    should_fire-Tracks window qs q now (asked window qs) h.0 (asked-Tracks window qs h.1)

fire_answer :
    (q : String) (now : ℕ) (t : Tracker)
    → (fire q now t).0 ≡ not (within t.window_seconds now (lookup q t.last_fired))
fire_answer q now t = elim (Bool-cases (within t.window_seconds now (lookup q t.last_fired))) [
  | inl held ↦ rw held refl
  | inr free ↦ rw free refl
]

-- However fingerprints were asked for before, on a clock that never goes back, a new tracker says
-- that an alert fires exactly when its fingerprint last fired no less than the window ago, or never:
-- letting old entries go makes no difference.
pub should_fire_iff :
    (window : ℕ) (qs : Questions) (fp : String) (now : ℕ)
    → InOrder ((fp, now) ∷ qs)
    → (should_fire fp now (asked window qs)).0 ≡ not (within window now (last_fire window fp qs))
unfolding should_fire
should_fire_iff window qs fp now h =
    fire_answer fp now (prune now (asked window qs))
    ∙ ap not (answers window qs now (asked window qs) h.0 (asked-Tracks window qs h.1) fp)
