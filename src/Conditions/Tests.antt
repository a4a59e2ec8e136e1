-- ===== src/Conditions/Tests.antt =====
-- Conditions on two results.
use lightspeed_cloud_agents.Prelude.{
  ◌≡◌, refl, true, false, some, [], ◌∷◌, codes, is_word, is_space, contains, same_text, Dict,
}
use lightspeed_cloud_agents.Json.{end, field, boolean, natural, entries}
use lightspeed_cloud_agents.Conditions.{
  strip_front, strip_back, StepView, verdict, of_output, equals, Atom, parse_atom, find_entry,
  literal_of, evaluate_condition,
}
use lightspeed_cloud_agents.Conditions.Depth.{is_too_deep, evaluate_condition-enough}
use lightspeed_cloud_agents.Conditions.Printed.{atom_text, parse_atom-atom_text}

abbrev two_results : Dict StepView
two_results =
    ("scan", record { status = "completed"; output = some (field "found" (natural 1) end) })
    ∷ (
      "gate",
      record { status = "completed"; output = some (field "approved" (boolean false) end) },
    )
    ∷ []

evaluate_condition-enough_example :
    is_too_deep
      (evaluate_condition two_results 3 (codes "steps.a.approved and steps.b.status or x"))
    ≡ false
evaluate_condition-enough_example =
    evaluate_condition-enough two_results 0 (codes "steps.a.approved and steps.b.status or x")

abbrev found_three : Atom
found_three = record {
  step_name = codes "scan";
  selector = of_output (codes "found");
  operator = equals;
  raw_value = codes "three";
}

parse_atom-atom_text_example : parse_atom (atom_text found_three) ≡ some found_three
unfolding is_word strip_front strip_back is_space
parse_atom-atom_text_example = parse_atom-atom_text found_three (record {
  name_word = (refl, (refl, (refl, (refl, (refl, tt)))));
  key_word = (refl, (refl, (refl, (refl, (refl, (refl, tt))))));
  plain = (refl, refl, refl);
})

either_holds :
    evaluate_condition two_results 3
      (codes " steps.gate.approved or steps.scan.output.found == true ")
    ≡ verdict true
unfolding evaluate_condition contains is_space is_word same_text find_entry entries literal_of
either_holds = refl

no_such_step :
    evaluate_condition two_results 3 (codes "steps.none.status == \"completed\"") ≡ verdict false
unfolding evaluate_condition contains is_space is_word same_text find_entry entries literal_of
no_such_step = refl

-- What follows a field without an operator is let through and not looked at.
rest_ignored :
    evaluate_condition two_results 3 (codes "steps.scan.statuses == \"failed\"") ≡ verdict true
unfolding evaluate_condition contains is_space is_word same_text find_entry entries literal_of
rest_ignored = refl
