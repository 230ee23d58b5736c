-- ===== src/Eztik/Error/Messages.antt =====
-- Error codes and their texts.
use tiksrv.Base.{ℕ, ◌≡◌, ◌↔◌, refl, sym, ap, ◌∙◌, Option, none, some, Bytes, if◌then◌else◌, arith}
use tiksrv.Base.Tests.{str_eq}
use tiksrv.Eztik.Error.{
  EztikError, success, invalid_response, fatal_response, untagged_response, invalid_response_tag,
  invalid_login_credentials, value, error_code_of, message, message_of, default_error_condition,
  ErrorCondition, no_error, invalid_argument, make_error_code, make_error_condition,
}

error_code_of-value : (e : EztikError) → error_code_of (value e) ≡ some e
unfolding error_code_of value
error_code_of-value success = refl
error_code_of-value invalid_response = refl
error_code_of-value fatal_response = refl
error_code_of-value untagged_response = refl
error_code_of-value invalid_response_tag = refl
error_code_of-value invalid_login_credentials = refl

value-error_code_of : (c : ℕ) (e : EztikError) → error_code_of c ≡ some e → c ≡ value e
unfolding error_code_of value
value-error_code_of c success h = ground arith
value-error_code_of c invalid_response h = ground arith
value-error_code_of c fatal_response h = ground arith
value-error_code_of c untagged_response h = ground arith
value-error_code_of c invalid_response_tag h = ground arith
value-error_code_of c invalid_login_credentials h = ground arith

-- The error code that a text is for.
read_message : Bytes → Option EztikError
read_message s =
    if str_eq s (message_of (some success))
    then some success
    else if str_eq s (message_of (some invalid_response))
    then some invalid_response
    else if str_eq s (message_of (some fatal_response))
    then some fatal_response
    else if str_eq s (message_of (some untagged_response))
    then some untagged_response
    else if str_eq s (message_of (some invalid_response_tag))
    then some invalid_response_tag
    else if str_eq s (message_of (some invalid_login_credentials))
    then some invalid_login_credentials
    else none

read_message-message_of : (o : Option EztikError) → read_message (message_of o) ≡ o
unfolding read_message str_eq
read_message-message_of (some success) = refl
read_message-message_of (some invalid_response) = refl
read_message-message_of (some fatal_response) = refl
read_message-message_of (some untagged_response) = refl
read_message-message_of (some invalid_response_tag) = refl
read_message-message_of (some invalid_login_credentials) = refl
read_message-message_of none = refl

-- The standard's conditions for three of the errors, and eztik's own for the others.
abbrev pub expected_condition : EztikError → ErrorCondition
expected_condition success = no_error
expected_condition invalid_response = invalid_argument
expected_condition fatal_response = invalid_argument
expected_condition e = make_error_condition e

default_condition : (e : EztikError) → default_error_condition (value e) ≡ expected_condition e
unfolding default_error_condition make_error_condition error_code_of value
default_condition success = refl
default_condition invalid_response = refl
default_condition fatal_response = refl
default_condition untagged_response = refl
default_condition invalid_response_tag = refl
default_condition invalid_login_credentials = refl

-- The text of an eztik error tells which error it is: among all numbers, only the one that
-- `make_error_code` makes from the error has the text of that number. And the number's default
-- condition is its own one, but that an invalid and a fatal response count as an invalid argument, and
-- success as no error.
pub message-make_error_code :
    (e : EztikError) (c : ℕ)
    → ((message c ≡ message (make_error_code e)) ↔ (c ≡ make_error_code e))
      × (default_error_condition (make_error_code e) ≡ expected_condition e)
unfolding message make_error_code
message-make_error_code e c = ((told, λ h. ap message h), default_condition e)
  where
    told : message c ≡ message (value e) → c ≡ value e
    told h = value-error_code_of c e (
        sym (read_message-message_of (error_code_of c))
        ∙ ap read_message h
        ∙ read_message-message_of (error_code_of (value e))
        ∙ error_code_of-value e)
