-- ===== src/Transcript/Cuts.antt =====
-- What truncating makes of a transcript: the payloads of its events, and their number.
use Prim.Native.String as Text
use Prim.Native.Char.{code}
use package.text.Mathlib.TextLemmas.{nil-append, cons-append}
use lightspeed_cloud_agents.Prelude.{
  ℕ, zero, suc, ◌≤◌, ◌<◌, String, ◌≡◌, refl, ap, ◌∙◌, subst, inl, inr, Bool, true, false, Option,
  none, some, List, [], ◌∷◌, ◌++◌, map, arith, eq_iff, ltb, ◌==◌, ◌||◌, if◌then◌else◌, Bool-cases,
  length, take, codes, Dict, lookup, insert, lookup-insert,
}
use lightspeed_cloud_agents.Json.{Value, text}
use lightspeed_cloud_agents.Transcript.{
  TranscriptEvent, Transcript, take_text, serialized, cut, cut_key, truncate_event, truncate,
}
use lightspeed_cloud_agents.Transcript.Bounds.{Shortened, shorten-Shortened}

codes-take_text : (n : ℕ) (s : String) → codes (take_text n s) ≡ take n (codes s)
unfolding take_text
codes-take_text zero s = refl
codes-take_text (suc n) Text.[] = refl
codes-take_text (suc n) (Text.◌∷◌ c s) = ap (λ r. code c ∷ r) (codes-take_text n s)

codes-append : (s t : String) → codes (Text.◌++◌ s t) ≡ codes s ++ codes t
codes-append Text.[] t = ap codes (nil-append t)
codes-append (Text.◌∷◌ c s) t =
    ap codes (cons-append c s t) ∙ ap (λ r. code c ∷ r) (codes-append s t)

-- The keys of the payloads that are cut.
abbrev pub is_payload : String → Bool
is_payload k = "input" == k || ("output" == k || "text" == k)

module _ (dumps : Value → String) where
  -- A text stands for itself, any other value for its JSON.
  abbrev pub payload_text : Value → String
  payload_text (text s) = s
  payload_text v = dumps v

  -- A value of at most this many characters stays; of a longer one there are that many characters
  -- left, with a note behind them.
  pub data IsCut (limit : ℕ) (v : Value) : Value → Type 0 where
    short : length (codes (payload_text v)) ≤ limit → IsCut limit v v
    long :
        (s : String)
        → limit < length (codes (payload_text v))
        → codes s ≡ take limit (codes (payload_text v)) ++ codes "...(truncated)"
        → IsCut limit v (text s)

  -- An entry of an event beside the same entry of the truncated event.
  abbrev pub IsEntryCut : ℕ → Bool → Option Value → Option Value → Type 0
  IsEntryCut limit payload none o = o ≡ none
  IsEntryCut limit true (some v) none = ⊥
  IsEntryCut limit true (some v) (some w) = IsCut limit v w
  IsEntryCut limit false (some v) o = o ≡ some v

  pub record IsEventCut (limit : ℕ) (e e' : TranscriptEvent) : Type 0 where
    pub same_ts : e'.ts ≡ e.ts
    pub same_kind : e'.kind ≡ e.kind
    pub entries_cut :
        (k : String) → IsEntryCut limit (is_payload k) (lookup k e.data_) (lookup k e'.data_)

  abbrev pub AreCut : ℕ → List TranscriptEvent → List TranscriptEvent → Type 0
  AreCut limit [] [] = Unit
  AreCut limit [] (e' ∷ es') = ⊥
  AreCut limit (e ∷ es) [] = ⊥
  AreCut limit (e ∷ es) (e' ∷ es') = IsEventCut limit e e' × AreCut limit es es'

  serialized-payload_text : (v : Value) → serialized dumps v ≡ payload_text v
  unfolding serialized
  serialized-payload_text (text s) = refl
  serialized-payload_text v = refl

  cut-IsCut : (limit : ℕ) (v : Value) → IsCut limit v (cut dumps limit v)
  unfolding cut
  cut-IsCut limit v =
      let whole = payload_text v in
      let kept = codes-take_text limit whole in
      rw (serialized-payload_text v) (elim (Bool-cases (ltb limit (length (codes whole)))) [
        | inl over ↦ rw over (
            long (Text.◌++◌ (take_text limit whole) "...(truncated)") (ground (arith, over)) (
              codes-append (take_text limit whole) "...(truncated)"
              ∙ ap (λ r. r ++ codes "...(truncated)") kept))
        | inr within ↦ rw within (short (ground (arith, within)))
      ])

  abbrev cut_option : ℕ → Option Value → Option Value
  cut_option limit none = none
  cut_option limit (some v) = some (cut dumps limit v)

  lookup-cut_key :
      (limit : ℕ) (key k : String) (d : Dict Value)
      → lookup k (cut_key dumps limit key d)
        ≡ (if key == k then cut_option limit (lookup k d) else lookup k d)
  unfolding cut_key
  lookup-cut_key limit key k d = at (lookup key d) refl
    where
      there : (o : Option Value) → lookup key d ≡ o → (key == k) ≡ true → lookup k d ≡ o
      there o e h = subst (λ j. lookup j d ≡ o) ((eq_iff key k).0 h) e

      at :
          (o : Option Value)
          → lookup key d ≡ o
          → lookup k (elim o [ none ↦ d | some v ↦ insert key (cut dumps limit v) d ])
            ≡ (if key == k then cut_option limit (lookup k d) else lookup k d)
      at none e = elim (Bool-cases (key == k)) [
        | inl h ↦ rw (h, there none e h) refl
        | inr h ↦ rw h refl
      ]
      at (some v) e = lookup-insert key k (cut dumps limit v) d ∙ elim (Bool-cases (key == k)) [
        | inl h ↦ rw (h, there (some v) e h) refl
        | inr h ↦ rw h refl
      ]

  entry_cut : (limit : ℕ) (o : Option Value) → IsEntryCut limit true o (cut_option limit o)
  entry_cut limit none = refl
  entry_cut limit (some v) = cut-IsCut limit v

  entry_kept : (limit : ℕ) (o : Option Value) → IsEntryCut limit false o o
  entry_kept limit none = refl
  entry_kept limit (some v) = refl

  -- An entry behind the three cuts.
  abbrev cut_at_key : ℕ → String → Bool → Option Value → Option Value
  cut_at_key limit k here o = if here then cut_option limit o else o

  abbrev thrice : ℕ → String → Option Value → Option Value
  thrice limit k o =
      cut_at_key limit k ("text" == k)
        (cut_at_key limit k ("output" == k) (cut_at_key limit k ("input" == k) o))

  abbrev IsEntryCutAt : ℕ → Option Value → String → Type 0
  IsEntryCutAt limit o k = IsEntryCut limit (is_payload k) o (thrice limit k o)

  thrice-IsEntryCut : (limit : ℕ) (k : String) (o : Option Value) → IsEntryCutAt limit o k
  thrice-IsEntryCut limit k o = elim (Bool-cases ("input" == k)) [
    | inl a ↦ subst (IsEntryCutAt limit o) ((eq_iff "input" k).0 a) (entry_cut limit o)
    | inr a ↦ elim (Bool-cases ("output" == k)) [
      | inl b ↦ subst (IsEntryCutAt limit o) ((eq_iff "output" k).0 b) (entry_cut limit o)
      | inr b ↦ elim (Bool-cases ("text" == k)) [
        | inl c ↦ subst (IsEntryCutAt limit o) ((eq_iff "text" k).0 c) (entry_cut limit o)
        | inr c ↦ rw (a, b, c) (entry_kept limit o)
      ]
    ]
  ]

  truncate_event-IsEventCut :
      (limit : ℕ) (e : TranscriptEvent) → IsEventCut limit e (truncate_event dumps limit e)
  unfolding truncate_event
  truncate_event-IsEventCut limit e = record {
    same_ts = refl;
    same_kind = refl;
    entries_cut = λ k.
        let once = cut_key dumps limit "input" e.data_ in
        let twice = cut_key dumps limit "output" once in
        rw
          (
            lookup-cut_key limit "text" k twice,
            lookup-cut_key limit "output" k once,
            lookup-cut_key limit "input" k e.data_,
          )
          (thrice-IsEntryCut limit k (lookup k e.data_));
  }

  map-AreCut :
      (limit : ℕ) (es : List TranscriptEvent)
      → AreCut limit es (map (truncate_event dumps limit) es)
  map-AreCut limit [] = tt
  map-AreCut limit (e ∷ es) = (truncate_event-IsEventCut limit e, map-AreCut limit es)

  -- The events of a truncated transcript come from the events with their payloads cut: each has its
  -- time and kind, and its entries, but of an entry "input", "output" or "text" that is longer than
  -- the limit as a text only the first characters up to the limit, with a note behind them. With at
  -- most the allowed number of events all of these are there; of more, there are the first and the
  -- last ones, equally many and together as many as allowed or one less, in their order, and
  -- between them a marker that counts exactly the events left out.
  pub truncate-Shortened :
      (limit max_payload_bytes : ℕ) (t : Transcript)
      → (events : List TranscriptEvent) × AreCut max_payload_bytes t.events events
        × Shortened dumps limit events (truncate dumps limit max_payload_bytes t).events
  unfolding truncate
  truncate-Shortened limit max_payload_bytes t =
      let events = map (truncate_event dumps max_payload_bytes) t.events in
      (events, map-AreCut max_payload_bytes t.events, shorten-Shortened dumps limit events)
