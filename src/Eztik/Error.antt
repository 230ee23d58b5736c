-- ===== src/Eztik/Error.antt =====
-- src/plugins/eztik/shared/include/eztik/error.hpp and src/plugins/eztik/shared/src/error.cpp: the
-- error codes of eztik as numbers, with their texts and conditions.
pub mod Messages
use tiksrv.Base.{ℕ, ◌≡◌, Bool, true, false, Option, none, some, Bytes, codes, ◌==◌, if◌then◌else◌}

-- `eztik::error_code`.
pub data EztikError : Type 0 where
  success invalid_response fatal_response untagged_response : EztikError
  invalid_response_tag invalid_login_credentials : EztikError

unfoldable pub value : EztikError → ℕ
value success = 0
value invalid_response = 2
value fatal_response = 3
value untagged_response = 4
value invalid_response_tag = 5
value invalid_login_credentials = 6

-- `static_cast<eztik::error_code>(c)`: none is a number that no enumerator has.
unfoldable pub error_code_of : ℕ → Option EztikError
error_code_of c =
    if c == 0
    then some success
    else if c == 2
    then some invalid_response
    else if c == 3
    then some fatal_response
    else if c == 4
    then some untagged_response
    else if c == 5
    then some invalid_response_tag
    else if c == 6
    then some invalid_login_credentials
    else none

abbrev pub message_of : Option EztikError → Bytes
message_of (some success) = codes "Success"
message_of (some invalid_response) = codes "Invalid response"
message_of (some fatal_response) = codes "Fatal response"
message_of (some untagged_response) = codes "Untagged response"
message_of (some invalid_response_tag) = codes "Invalid response tag"
message_of (some invalid_login_credentials) = codes "Invalid login credentails"
message_of none = codes "Unknoww error"

unfoldable pub message : ℕ → Bytes
unfolding error_code_of
message c = message_of (error_code_of c)

-- boost::system::error_condition: one of the generic category, or a number of eztik's own.
pub data ErrorCondition : Type 0 where
  no_error invalid_argument : ErrorCondition
  own : ℕ → ErrorCondition

abbrev pub condition_of : Option EztikError → ℕ → ErrorCondition
condition_of (some success) c = no_error
condition_of (some invalid_response) c = invalid_argument
condition_of (some fatal_response) c = invalid_argument
condition_of _ c = own c

unfoldable pub default_error_condition : ℕ → ErrorCondition
unfolding error_code_of
default_error_condition c = condition_of (error_code_of c) c

-- An error code of eztik's category, by its number, and a condition.
unfoldable pub make_error_code : EztikError → ℕ
unfolding value
make_error_code e = value e

unfoldable pub make_error_condition : EztikError → ErrorCondition
unfolding value
make_error_condition e = own (value e)
