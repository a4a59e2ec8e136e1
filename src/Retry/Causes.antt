-- ===== src/Retry/Causes.antt =====
-- What `activity_error_text` reads of a chain of exceptions.
use lightspeed_cloud_agents.Prelude.{
  ℕ, zero, suc, String, ◌≡◌, refl, ap, Bool, not, List, [], ◌∷◌, arith, take, is_empty, keep_if,
  codes,
}
use lightspeed_cloud_agents.Retry.{
  Raised, raised_from, Cause, no_cause, other_object, caused_by, error_parts, join_parts,
  activity_error_text,
}

-- The texts along the chain, outermost first, each exception followed by the cause that the code
-- takes for it.
pub texts : Cause → List String
texts no_cause = []
texts other_object = []
texts (caused_by (raised_from text no_cause dunder)) = text ∷ texts dunder
texts (caused_by (raised_from text other_object dunder)) = text ∷ []
texts (caused_by (raised_from text (caused_by e) dunder)) = text ∷ texts (caused_by e)

abbrev pub not_empty : String → Bool
not_empty text = not (is_empty (codes text))

error_parts-take : (n : ℕ) (c : Cause) → error_parts n c ≡ keep_if not_empty (take n (texts c))
unfolding error_parts texts
error_parts-take zero c = refl
error_parts-take (suc n) no_cause = refl
error_parts-take (suc n) other_object = refl
error_parts-take (suc n) (caused_by (raised_from text no_cause dunder)) =
    ground (arith, error_parts-take n dunder)
error_parts-take (suc n) (caused_by (raised_from text other_object dunder)) =
    ground (arith, error_parts-take n other_object)
error_parts-take (suc n) (caused_by (raised_from text (caused_by e) dunder)) =
    ground (arith, error_parts-take n (caused_by e))

-- The classification text of any exception joins, in order, the non-empty texts among the first
-- five exceptions of its chain, and nothing of what lies deeper.
pub activity_error_text-take :
    (exc : Raised)
    → activity_error_text exc ≡ join_parts (keep_if not_empty (take 5 (texts (caused_by exc))))
unfolding activity_error_text
activity_error_text-take exc = ap join_parts (error_parts-take 5 (caused_by exc))
