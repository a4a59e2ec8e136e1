-- ===== src/Limiter/Tests.antt =====
-- The limiter at concrete requests.
use lightspeed_cloud_agents.Prelude.{◌+◌, ◌-◌, ◌*◌, ◌≤◌, ◌≡◌, refl, [], ◌∷◌, arith, lookup, insert}
use lightspeed_cloud_agents.Limiter.{allow}
use lightspeed_cloud_agents.Limiter.Bound.{Requests, admitted, new_limiter, admitted-IsBounded}

-- A burst of two tokens of ten parts, five parts refilled each unit of time.
abbrev four_requests : Requests
four_requests = ("ann", 2) ∷ ("ann", 1) ∷ ("ann", 1) ∷ ("bob", 1) ∷ ("ann", 0) ∷ []

let_through : admitted "ann" four_requests (new_limiter 5 2 10) ≡ 3
unfolding admitted allow lookup insert
let_through = refl

admitted-IsBounded_example :
    admitted "ann" four_requests (new_limiter 5 2 10) * 10 ≤ 2 * 10 + (2 - 0) * 5
admitted-IsBounded_example =
    admitted-IsBounded 5 2 10 0 "ann" four_requests refl
      (omega arith, (omega arith, (omega arith, (omega arith, (omega arith, tt)))))
