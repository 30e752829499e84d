-- ===== src/ResponseStatus.antt =====
-- packages/core/src/OpenAPIContext/responseStatus.ts: which documented responses are a success, and
-- what a response is described as. `getParameterContentType` of the package oas and `localeCompare`
-- are arguments, and so are the methods of the operation and `resolveJSONPointer` on its document.
pub mod Classification
pub mod Responses
pub mod Descriptions
pub mod Tests
use openapi_to.Common.{
  nat_equality, text_equality, ℕ, zero, suc, ◌+◌, ◌-◌, ◌*◌, Text, text, Bool, true, false, not,
  ◌&&◌, ◌||◌, Option, none, some, List, [], ◌∷◌, ◌++◌, map, filter, contains, nub, sort, find,
  text_eq, nat_eq, leb, if◌then◌else◌, upper_unit, lower_unit, Result, ok, err,
}
use openapi_to.Common.Comparison.{
  Sign, negative, zero as equal, positive, compare_nat, or_else, le_by,
}
use openapi_to.Common.Dictionary.{get}
use openapi_to.Common.Json.{Json}

-- A text of three characters, of which `f` accepts the first and `g` the others.
unfoldable pub is_three : (ℕ → Bool) → (ℕ → Bool) → Text → Bool
is_three f g (a ∷ b ∷ c ∷ []) = f a && (g b && g c)
is_three f g _ = false

abbrev pub is_digit : ℕ → Bool
is_digit c = leb b'0' c && leb c b'9'

abbrev pub one_to_five : ℕ → Bool
one_to_five c = leb b'1' c && leb c b'5'

abbrev pub is_two : ℕ → Bool
is_two c = nat_eq c b'2'

abbrev pub is_capital_x : ℕ → Bool
is_capital_x c = nat_eq c b'X'

abbrev pub is_any_x : ℕ → Bool
is_any_x c = nat_eq c b'x' || nat_eq c b'X'

-- `[13-5]`
abbrev pub other_than_two : ℕ → Bool
other_than_two c = nat_eq c b'1' || leb b'3' c && leb c b'5'

abbrev pub default : Text
default = text "default"

-- A number of three digits.
number_of : Text → ℕ
number_of (a ∷ b ∷ c ∷ []) = (a - 48) * 100 + (b - 48) * 10 + (c - 48)
number_of _ = 0

first_digit : Text → ℕ
first_digit [] = 0
first_digit (a ∷ t) = a - 48

-- `rank(status)`; `none` is the positive infinity.
unfoldable pub rank : Text → Option ℕ
unfolding number_of first_digit
rank status =
    if is_three is_digit is_digit status
    then some (number_of status)
    else if is_three one_to_five is_capital_x status
    then some (first_digit status * 100 + 99)
    else none

-- `left - right`; the difference of two infinities is not a number, which is falsy.
unfoldable pub compare_rank : Option ℕ → Option ℕ → Sign
compare_rank none none = equal
compare_rank none (some r) = positive
compare_rank (some l) none = negative
compare_rank (some l) (some r) = compare_nat l r

unfoldable pub canonicalize_status : Text → Text
canonicalize_status status =
    if is_three one_to_five is_any_x status
    then map upper_unit status
    else if text_eq (map lower_unit status) default
    then default
    else status

pub record Classified : Type 0 where
  pub success : List Text
  pub error : List Text

abbrev pub is_concrete_success : Text → Bool
is_concrete_success code = is_three is_two is_digit code

abbrev pub is_wildcard_success : Text → Bool
is_wildcard_success code = text_eq code (text "2XX")

abbrev pub is_error_code : Text → Bool
is_error_code code =
    is_three other_than_two is_digit code || is_three other_than_two is_capital_x code

abbrev pub first_text : List Text → Option Text
first_text [] = none
first_text (t ∷ ts) = some t

-- `documentedSuccess.length > 0 ? documentedSuccess : hasDefault ? ['default'] : []`
unfoldable pub choose_success : List Text → Bool → List Text
choose_success [] has_default = if has_default then default ∷ [] else []
choose_success (c ∷ cs) has_default = c ∷ cs

-- The `default` that is pushed to the errors.
unfoldable pub default_error : List Text → Bool → List Text
default_error [] has_default = []
default_error (c ∷ cs) has_default = if has_default then default ∷ [] else []

module _ (locale_compare : Text → Text → Sign) where
  unfoldable pub compare_status : Text → Text → Sign
  compare_status left right =
      or_else (compare_rank (rank left) (rank right)) (locale_compare left right)

  unfoldable pub documented_success : List Text → List Text
  documented_success unique =
      sort (le_by compare_status) (filter is_concrete_success unique)
      ++ sort (le_by compare_status) (filter is_wildcard_success unique)

  unfoldable pub classify_unique : List Text → Classified
  classify_unique unique =
      let documented : List Text = documented_success unique in
      let has_default = contains unique default in
      record {
        success = choose_success documented has_default;
        error =
            sort (le_by compare_status) (filter is_error_code unique)
            ++ default_error documented has_default;
      }

  unfoldable pub classify_response_status_codes : List Text → Classified
  classify_response_status_codes status_codes =
      classify_unique (nub (map canonicalize_status status_codes))

  unfoldable pub select_success_response_status_code : List Text → Option Text
  select_success_response_status_code status_codes =
      first_text (classify_response_status_codes status_codes).success
