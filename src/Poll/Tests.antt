-- ===== src/Poll/Tests.antt =====
-- A polling watch at concrete results: a value, an outage, a binding that is gone, the value again.
use mamori.Prelude.{◌≡◌, true, List, [], ◌∷◌, codes}
use mamori.Errors.{Sentinel, sentinel, Result, ok, err}
use mamori.Value.{Value}
use mamori.Backoff.{new_backoff}
use mamori.Poll.Latest.{polled, newest_value, streak, up_to_date, polled-up_to_date}

abbrev a_value : Value
a_value = record { bytes = codes "v"; version = []; sensitive = true; not_after = 9; metadata = [] }

abbrev results : List (Result Value)
results = err (sentinel Sentinel.unavailable) ∷ ok a_value ∷ err (sentinel Sentinel.not_found) ∷ []

polled-up_to_date_example :
    let told = polled (new_backoff 5 20) (ok a_value) results in
    (up_to_date told.value (newest_value (ok a_value) results) ≡ true)
    × (told.state.backoff.failures ≡ streak (ok a_value) results)
polled-up_to_date_example = polled-up_to_date 5 20 (ok a_value) results
