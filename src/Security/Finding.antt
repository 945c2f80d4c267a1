-- ===== src/Security/Finding.antt =====
-- internal/checker/security.go: one finding. The closure `add` appends one; a function that calls
-- it is modelled by the list of the findings that it adds, in their order.
use ssl_certificate_verifier.Base.{
  Bool, true, false, List, [], ◌∷◌, if◌then◌else◌, Text, codes, is_empty,
}
use ssl_certificate_verifier.Strings.{trim_space}
use ssl_certificate_verifier.Types.{SecurityFinding}

unfoldable pub finding : Text → Text → Text → Text → Text → SecurityFinding
finding id title severity status description = record {
  id = id;
  title = title;
  severity = severity;
  status = status;
  description = description;
}

-- An `if` without `else` around one `add`.
abbrev pub add_if : Bool → SecurityFinding → List SecurityFinding
add_if true f = f ∷ []
add_if false f = []

-- `blankDash` of render.go.
unfoldable pub blank_dash : Text → Text
blank_dash s = if is_empty (trim_space s) then codes "-" else s
