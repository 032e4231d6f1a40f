-- ===== src/Examples/Sets.antt =====
-- Sets of event ids.
use gas_city.Prelude.{Str, text, ◌≡◌, ◌↔◌, true, List, [], ◌∷◌}
use gas_city.Workflow.Sets.{event_id_sets_equal-member}
use gas_city.Workflow.Run.{event_id_sets_equal, event_id_set}
use gas_city.Contracts.Requests.{member}

abbrev two_ids : List Str
two_ids = text "a" ∷ text "b" ∷ []

abbrev repeated_ids : List Str
repeated_ids = text "b" ∷ text "a" ∷ text "b" ∷ []

event_id_sets_equal-member_example :
    (event_id_sets_equal (event_id_set two_ids) (event_id_set repeated_ids) ≡ true)
    ↔ ((x : Str) → member x two_ids ≡ member x repeated_ids)
event_id_sets_equal-member_example = event_id_sets_equal-member two_ids repeated_ids
