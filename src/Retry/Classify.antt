-- ===== src/Retry/Classify.antt =====
-- Which failure texts `is_transient_failure` lets retry.
use lightspeed_cloud_agents.Prelude.{
  ℕ, String, ◌≡◌, refl, ap, ◌∙◌, inl, inr, Bool, true, false, not, ◌&&◌, ◌||◌, List, [], ◌∷◌, ◌++◌,
  arith, eq_iff, ◌==◌, if◌then◌else◌, Bool-cases, mem_text, codes, lower, is_word, starts_with,
  contains, starts_with_self, lower-append,
}
use lightspeed_cloud_agents.Retry.{
  transient_failure_markers, non_retryable_markers, tool_failure_words, any_marker, behind,
  failure_word, tool_call_failed, tool_failure_search, is_transient_lowered,
}

starts_with-append_left : (s p q : List ℕ) → starts_with s (p ++ q) ≡ true → starts_with s p ≡ true
unfolding starts_with
starts_with-append_left s [] q h = refl
starts_with-append_left [] (c ∷ p) q h = cc
starts_with-append_left (d ∷ s) (c ∷ p) q h = ground (arith, starts_with-append_left s p q)

contains-front : (s p : List ℕ) → starts_with s p ≡ true → contains s p ≡ true
unfolding contains
contains-front [] p h = h
contains-front (c ∷ s) p h = ground arith

contains-cons : (c : ℕ) (s p : List ℕ) → contains s p ≡ true → contains (c ∷ s) p ≡ true
unfolding contains
contains-cons c s p h = ground arith

starts_with-append : (p s t : List ℕ) → starts_with s p ≡ true → starts_with (s ++ t) p ≡ true
unfolding starts_with
starts_with-append [] s t h = refl
starts_with-append (c ∷ p) [] t h = cc
starts_with-append (c ∷ p) (d ∷ s) t h = ground (arith, starts_with-append p s t)

pub contains-middle : (a p b : List ℕ) → contains (a ++ (p ++ b)) p ≡ true
contains-middle [] p b = contains-front (p ++ b) p (starts_with_self p b)
contains-middle (c ∷ a) p b = contains-cons c _ p (contains-middle a p b)

-- A text with a failure word somewhere.
abbrev names_failure : List ℕ → Bool
names_failure s = any_marker tool_failure_words s

names_failure-cons : (c : ℕ) (s : List ℕ) → names_failure s ≡ true → names_failure (c ∷ s) ≡ true
names_failure-cons c s h = ground (
  arith,
  contains-cons c s (codes "failed"),
  contains-cons c s (codes "failure"),
  contains-cons c s (codes "error"),
  contains-cons c s (codes "timed out"),
)

failure_word-names : (s : List ℕ) → failure_word s ≡ true → names_failure s ≡ true
unfolding failure_word
failure_word-names s h = ground (
  arith,
  contains-front s (codes "failed"),
  contains-front s (codes "error"),
  contains-front s (codes "timed out"),
)

tool_call_failed-names :
    (seen : Bool) (s : List ℕ) → tool_call_failed seen s ≡ true → names_failure s ≡ true
unfolding tool_call_failed
tool_call_failed-names seen [] h = cc
tool_call_failed-names seen (c ∷ s) h =
    names_failure-cons c s (ground (arith, failure_word-names s, tool_call_failed-names true s))

names_failure-behind : (p s : List ℕ) → names_failure (behind p s) ≡ true → names_failure s ≡ true
names_failure-behind [] s h = h
names_failure-behind (c ∷ p) [] h = h
names_failure-behind (c ∷ p) (d ∷ s) h = names_failure-cons d s (names_failure-behind p s h)

tool_prefix : (s : List ℕ) → starts_with s (codes "tool ") ≡ true → contains s (codes "tool") ≡ true
tool_prefix s h = contains-front s _ (starts_with-append_left s (codes "tool") (codes " ") h)

search_names :
    (in_word : Bool) (s : List ℕ)
    → tool_failure_search in_word s ≡ true
    → (contains s (codes "tool") && names_failure s) ≡ true
unfolding tool_failure_search
search_names in_word [] h = cc
search_names in_word (c ∷ s) h = ground (
  arith,
  tool_prefix (c ∷ s),
  tool_call_failed-names false (behind (codes "tool ") (c ∷ s)),
  names_failure-behind (codes "tool ") (c ∷ s),
  search_names (is_word c) s,
  contains-cons c s (codes "tool"),
  names_failure-cons c s,
)

-- The classifier's answer without the pattern.
abbrev pub transient_without_pattern : List ℕ → Bool
transient_without_pattern s =
    not (any_marker non_retryable_markers s)
    && not (contains s (codes "tool") && any_marker tool_failure_words s)
    && any_marker transient_failure_markers s

-- On every text the classifier answers as it would without TOOL_FAILURE_PATTERN: the text is
-- transient exactly when it has a transient marker, no non-retryable marker, and not both the word
-- "tool" and one of the failure words.
pub is_transient_lowered-without_pattern :
    (s : List ℕ) → is_transient_lowered s ≡ transient_without_pattern s
unfolding is_transient_lowered
is_transient_lowered-without_pattern s = elim (Bool-cases (tool_failure_search false s)) [
  | inl e ↦ rw e (drops (contains s (codes "tool") && names_failure s) _ _ (search_names false s e))
  | inr e ↦ rw e (keeps (contains s (codes "tool") && names_failure s) _ _)
]
  where
    drops : (t n m : Bool) → t ≡ true → (if n then false else false) ≡ (not n && not t && m)
    drops t n m h = ground arith

    keeps : (t n m : Bool) → (if n then false else if t then false else m) ≡ (not n && not t && m)
    keeps t n m = ground arith

any_marker-mem :
    (k : String) (ks : List String) (s : List ℕ)
    → mem_text k ks ≡ true
    → contains s (codes k) ≡ true
    → any_marker ks s ≡ true
any_marker-mem k [] s h e = cc
any_marker-mem k (j ∷ ks) s h e = elim (Bool-cases (j == k)) [
  | inl same ↦ first j ((eq_iff j k).0 same)
  | inr other ↦ ground (arith, any_marker-mem k ks s)
]
  where
    first : (j : String) → j ≡ k → (contains s (codes j) || any_marker ks s) ≡ true
    first j same = rw same (rw e)

-- A failure text that has a non-retryable marker anywhere, in upper or lower case, is never
-- retried, whatever stands around it.
pub never_retried :
    (marker : String) (a m b : List ℕ)
    → mem_text marker non_retryable_markers ≡ true
    → lower m ≡ codes marker
    → is_transient_lowered (lower (a ++ (m ++ b))) ≡ false
unfolding is_transient_lowered
never_retried marker a m b listed same = rw found
  where
    split : lower (a ++ (m ++ b)) ≡ lower a ++ (codes marker ++ lower b)
    split =
        lower-append a (m ++ b)
        ∙ ap (λ t. lower a ++ t) (lower-append m b ∙ ap (λ t. t ++ lower b) same)

    found : any_marker non_retryable_markers (lower (a ++ (m ++ b))) ≡ true
    found =
        any_marker-mem marker non_retryable_markers (lower (a ++ (m ++ b))) listed
          (rw split (contains-middle (lower a) (codes marker) (lower b)))
