-- ===== src/Errors.antt =====
-- Go error values, as the program looks at them: the text, errors.Is against the two context
-- errors, and errors.As against *llm.StatusError (llm/error.go).
use agent_go.Prelude.{ℕ, Bool, false, ◌||◌, Option, none, some, ◌++◌, leb, ◌==◌}
use agent_go.Text.{Text, codes, decimal, is_empty}
use agent_go.Prelude.{if◌then◌else◌}

pub record StatusError : Type 0 where
  pub status : ℕ
  pub msg : Text

pub record Error : Type 0 where
  pub text : Text
  pub canceled : Bool
  pub deadline : Bool
  pub status : Option StatusError

-- errors.New, fmt.Errorf with no `%w`
abbrev pub new_error : Text → Error
new_error t = record { text = t; canceled = false; deadline = false; status = none }

-- fmt.Errorf("prefix%w", err)
abbrev pub wrap : Text → Error → Error
wrap prefix e = record e { text = prefix ++ e.text }

-- (*StatusError).Error
unfoldable pub status_error_text : StatusError → Text
status_error_text e =
    let head = codes "llm: status " ++ decimal e.status in
    if is_empty e.msg then head else head ++ (codes ": " ++ e.msg)

-- (*StatusError).Retryable: 429 and 5xx
unfoldable pub retryable : StatusError → Bool
retryable e = e.status == 429 || leb 500 e.status

-- A *StatusError as an error value.
abbrev pub of_status : StatusError → Error
of_status e = record {
  text = status_error_text e;
  canceled = false;
  deadline = false;
  status = some e;
}
