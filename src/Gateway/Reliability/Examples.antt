-- ===== src/Gateway/Reliability/Examples.antt =====
-- The windows of de-duplication at concrete times.
use xclaw.Prelude.{◌+◌, ◌≡◌, refl, List, [], ◌∷◌, ltb, arith}
use xclaw.Prelude.Dict
use xclaw.Gateway.Reliability.{day, new_reliability_manager, seen_inbound, purge}
use xclaw.Gateway.Reliability.Window.{Arrival, receive, redelivery_window}

abbrev arrivals : List Arrival
arrivals =
    record { now = 7; platform = "slack"; event_id = "e1" }
    ∷ record { now = 9; platform = "slack"; event_id = "e2" }
    ∷ []

redelivery_window_example :
    (seen_inbound
      (day + 5)
      "slack"
      "e1"
      (receive arrivals (seen_inbound 5 "slack" "e1" new_reliability_manager).1)).0
    ≡ ltb (day + 5) (5 + day)
unfolding seen_inbound purge Dict.lookup Dict.remove_if
redelivery_window_example =
    redelivery_window 5 (day + 5) "slack" "e1" arrivals new_reliability_manager tt refl
      (omega arith)
