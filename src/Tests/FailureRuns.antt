-- ===== src/Tests/FailureRuns.antt =====
-- The theorems on the failure classifier at concrete messages.
use chum.Base.{◌≤◌, ◌≡◌, ◌↔◌, true, length}
use chum.Text.{Text, text, text_eq, is_empty, to_lower}
use chum.Failure.{is_infrastructure_failure, classify_failure}
use chum.Failure.Laws.{classify_failure-decides}

abbrev message : Text
message = text "--- FAIL: TestMerge"

classify_failure-decides_example :
    ((text_eq (classify_failure message).0 (text "infrastructure_failure") ≡ true)
      ↔ (is_infrastructure_failure (to_lower message) ≡ true))
    × (is_empty (classify_failure message).0 ≡ is_empty message)
    × (length (classify_failure message).1 ≤ 203)
classify_failure-decides_example = classify_failure-decides message
