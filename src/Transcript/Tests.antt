-- ===== src/Transcript/Tests.antt =====
-- Truncation at a concrete transcript.
use lightspeed_cloud_agents.Prelude.{String, ◌≡◌, refl, List, [], ◌∷◌, map}
use lightspeed_cloud_agents.Json.{Value, text}
use lightspeed_cloud_agents.Transcript.{TranscriptEvent, Transcript, empty_transcript, truncate}
use lightspeed_cloud_agents.Transcript.Bounds.{Shortened}
use lightspeed_cloud_agents.Transcript.Cuts.{AreCut, truncate-Shortened}

abbrev no_dumps : Value → String
no_dumps v = "?"

abbrev event_at : String → TranscriptEvent
event_at t = record { ts = t; kind = "tool_call"; data_ = ("input", text "abcdef") ∷ [] }

abbrev five : Transcript
five = record (empty_transcript "look") {
  events = event_at "1" ∷ event_at "2" ∷ event_at "3" ∷ event_at "4" ∷ event_at "5" ∷ [];
}

five_cut : map (λ e. e.ts) (truncate no_dumps 3 4 five).events ≡ "1" ∷ "" ∷ "5" ∷ []
unfolding truncate
five_cut = refl

truncate-Shortened_example :
    (events : List TranscriptEvent) × AreCut no_dumps 4 five.events events
    × Shortened no_dumps 3 events (truncate no_dumps 3 4 five).events
truncate-Shortened_example = truncate-Shortened no_dumps 3 4 five
