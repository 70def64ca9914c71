-- ===== src/Core/Error/Tests.antt =====
-- Problems and responses read.
use acme_wasm.Prelude.{
  ◌≡◌, ◌⊎◌, true, false, Option, some, [], ◌++◌, Bytes, Text, text, Result, ok, err,
}
use acme_wasm.Core.Error.{
  ProblemDocument, prefix, parse_problem_type, into_acme_error, is_problem, problem_from_response,
}
use acme_wasm.Core.Error.Display.{ShownType, acme_error_text, acme_error_text-parse_problem_type}
use acme_wasm.Core.Error.Laws.{KeepsBody, problem_from_response_total}

abbrev refuse : Bytes → Result ProblemDocument Text
refuse b = err []

-- a body that cannot be read as a problem document
abbrev page : Option Text
page = some (text "text/html")

problem_from_response_total_example :
    ((doc : ProblemDocument) × (is_problem page ≡ true)
      × (refuse (text "oops") ≡ ok doc)
      × (problem_from_response refuse 500 page (text "oops") ≡ into_acme_error doc))
    ⊎ (((is_problem page ≡ false) ⊎ ((e : Text) × (refuse (text "oops") ≡ err e)))
        × KeepsBody 500 (text "oops") (problem_from_response refuse 500 page (text "oops")))
problem_from_response_total_example = problem_from_response_total refuse 500 page (text "oops")

abbrev stale : Text
stale = prefix ++ text "badNonce"

acme_error_text-parse_problem_type_example :
    (shown : Text) × ShownType stale shown
    × (acme_error_text (parse_problem_type stale (text "no")) ≡ shown ++ text ": " ++ text "no")
acme_error_text-parse_problem_type_example = acme_error_text-parse_problem_type stale (text "no")
