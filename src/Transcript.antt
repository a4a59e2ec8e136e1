-- ===== src/Transcript.antt =====
-- Step transcripts of src/cloud_agents/workflow/core/models.py and their truncation. A text is cut by
-- code points, as Python's `len` and slices count them.
pub mod Bounds
pub mod Cuts
mod Tests
use Prim.Native.String as Text
use Prim.Native.String.{String}
use lightspeed_cloud_agents.Prelude.{
  ℕ, zero, suc, ◌+◌, ◌-◌, ◌/◌, true, Option, none, some, List, [], ◌∷◌, ◌++◌, map, ltb, leb,
  if◌then◌else◌, length, take, codes, Dict, lookup, insert,
}
use lightspeed_cloud_agents.Json.{Value, text, boolean, natural}

pub record TranscriptEvent : Type 0 where
  pub ts : String
  pub kind : String
  pub data_ : Dict Value

pub record Transcript : Type 0 where
  pub step_name : String
  pub events : List TranscriptEvent
  pub cost_usd : Option ℕ
  pub input_tokens : Option ℕ
  pub output_tokens : Option ℕ
  pub duration_ms : Option ℕ

-- `StepTranscript(step_name=...)`.
abbrev pub empty_transcript : String → Transcript
empty_transcript name = record {
  step_name = name;
  events = [];
  cost_usd = none;
  input_tokens = none;
  output_tokens = none;
  duration_ms = none;
}

-- `s[:n]` on a text, and `xs[n:]` on a list.
pub take_text : ℕ → String → String
take_text zero s = ""
take_text (suc n) Text.[] = ""
take_text (suc n) (Text.◌∷◌ c s) = Text.◌∷◌ c (take_text n s)

abbrev pub skip {ℓ} : {A : Type ℓ} → ℕ → List A → List A
skip zero xs = xs
skip (suc n) [] = []
skip (suc n) (x ∷ xs) = skip n xs

-- `dumps` is `json.dumps`.
module _ (dumps : Value → String) where
  pub serialized : Value → String
  serialized (text s) = s
  serialized v = dumps v

  pub cut : ℕ → Value → Value
  unfolding serialized take_text
  cut max_payload_bytes v =
      if ltb max_payload_bytes (length (codes (serialized v)))
      then text (Text.◌++◌ (take_text max_payload_bytes (serialized v)) "...(truncated)")
      else v

  pub cut_key : ℕ → String → Dict Value → Dict Value
  unfolding cut
  cut_key max_payload_bytes key data_ = elim (lookup key data_) [
    | none ↦ data_
    | some v ↦ insert key (cut max_payload_bytes v) data_
  ]

  pub truncate_event : ℕ → TranscriptEvent → TranscriptEvent
  unfolding cut_key
  truncate_event max_payload_bytes event = record event {
    data_ =
        cut_key max_payload_bytes "text"
          (cut_key max_payload_bytes "output" (cut_key max_payload_bytes "input" event.data_));
  }

  -- The event that stands for those left out.
  abbrev pub marker : ℕ → TranscriptEvent
  marker omitted = record {
    ts = "";
    kind = "result";
    data_ = ("_truncated", boolean true) ∷ ("omitted_events", natural omitted) ∷ [];
  }

  pub shorten : ℕ → List TranscriptEvent → List TranscriptEvent
  shorten max_events events =
      if leb (length events) max_events
      then events
      else let half = max_events / 2 in
        let first = take half events in
        let last = if ltb 0 half then skip (length events - half) events else [] in
        first ++ (marker (length events - (length first + length last)) ∷ last)

  pub truncate : ℕ → ℕ → Transcript → Transcript
  unfolding truncate_event shorten
  truncate max_events max_payload_bytes t = record t {
    events = shorten max_events (map (truncate_event max_payload_bytes) t.events);
  }
