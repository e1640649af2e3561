-- ===== src/Failure.antt =====
-- internal/temporal/failure_classifier.go: the category and the summary of a failed check.
pub mod Laws
use chum.Base.{
  ℕ, Bool, true, false, ◌&&◌, ◌||◌, List, [], ◌∷◌, ◌++◌, if◌then◌else◌, ltb, length, take,
}
use chum.Text.{Text, text, to_lower, is_empty}
use chum.Text.Trim.{trim_space}
use chum.Text.Search.{contains, contains_any, split}

abbrev pub infra_patterns : List Text
infra_patterns =
    text "parallel golangci-lint is running"
    ∷ text "golangci-lint exit 3"
    ∷ text "golangci-lint exit -1"
    ∷ text "semgrep exit 7"
    ∷ text "exit -1"
    ∷ text "error obtaining vcs status"
    ∷ text "command not found"
    ∷ text "no such file or directory"
    ∷ text "permission denied"
    ∷ text "no space left on device"
    ∷ text "disk quota exceeded"
    ∷ text "git lock"
    ∷ text "index.lock"
    ∷ text "unable to create"
    ∷ text "fatal: unable to access"
    ∷ []

unfoldable pub is_infrastructure_failure : Text → Bool
is_infrastructure_failure lower = contains_any infra_patterns lower

abbrev pub transient_patterns : List Text
transient_patterns =
    text "parallel golangci-lint is running"
    ∷ text "git lock"
    ∷ text "index.lock"
    ∷ text "unable to create"
    ∷ []

unfoldable pub is_transient_infra_failure : Text → Bool
is_transient_infra_failure lower = contains_any transient_patterns lower

unfoldable pub extract_infra_reason : Text → Text
extract_infra_reason lower =
    if contains lower (text "parallel golangci-lint")
    then text "golangci-lint parallel lock (another instance running)"
    else if contains lower (text "golangci-lint") && contains lower (text "exit 3")
    then text "golangci-lint config/runtime error (exit 3)"
    else if contains lower (text "semgrep") && contains lower (text "exit 7")
    then text "semgrep config/download error (exit 7)"
    else if contains lower (text "command not found")
    then text "required tool not found in PATH"
    else if contains lower (text "no space left") || contains lower (text "disk quota")
    then text "disk full"
    else if contains lower (text "git lock") || contains lower (text "index.lock")
    then text "git lock contention"
    else text "infrastructure/environment error"

-- The loop of `extractFirstLine` over the lines.
unfoldable pub first_line : List Text → Text
first_line [] = []
first_line (l ∷ ls) =
    let line = trim_space l in
    let rest = first_line ls in
    if is_empty line
    then rest
    else if ltb 200 (length line)
    then take 200 line ++ text "..."
    else line

unfoldable pub extract_first_line : Text → Text
extract_first_line s = first_line (split 10 s)

-- The dash of the message is the three bytes of its UTF-8 code.
abbrev triple_fail : Text
triple_fail =
    text "Triple DoD fail (test+vet+lint) " ++ 226 ∷ 128 ∷ 148 ∷ text " code does not compile"

-- The switch of `classifyFailure`, on the text and the text in lower case.
unfoldable pub classify_code : Text → Text → Text × Text
classify_code failures lower =
    let has = contains lower in
    let line = extract_first_line failures in
    if has (text "heartbeat timeout")
      || has (text "starttoclose timeout")
      || has (text "activity heartbeat timeout")
      || has (text "activity starttoclose timeout")
    then (text "activity_timeout", line)
    else if has (text "undefined:")
        || has (text "cannot use")
        || has (text "syntax error")
        || has (text "does not compile")
        || has (text "build failed")
        || has (text "compilation failed")
    then (text "compile_error", line)
    else if has (text "go test") && has (text "go vet") && has (text "golangci-lint")
    then (text "compile_error", triple_fail)
    else if has (text "fail") && (has (text "test") || has (text "--- fail"))
    then (text "test_failure", line)
    else if has (text "golangci-lint") && has (text "exit 3")
    then (
      text "lint_config_error",
      text "golangci-lint exit 3: config/runtime error (not lint failure)",
    )
    else if has (text "golangci-lint")
        || has (text "eslint")
        || (has (text "lint") && has (text "error"))
    then (text "lint_error", line)
    else if has (text "timeout") || (has (text "exceeded") && has (text "time"))
    then (text "timeout", line)
    else if has (text "merge conflict") || has (text "conflict")
    then (text "merge_conflict", line)
    else if has (text "scope") || has (text "out-of-scope") || has (text "drift")
    then (text "scope_drift", line)
    else if has (text "execute error") || has (text "executeactivity")
    then (text "execution_error", line)
    else if is_empty failures
    then ([], [])
    else (text "dod_check_failed", line)

unfoldable pub classify_failure : Text → Text × Text
classify_failure failures =
    let lower = to_lower failures in
    if is_infrastructure_failure lower
    then (text "infrastructure_failure", extract_infra_reason lower)
    else classify_code failures lower
