-- ===== src/Util/StandardResponse.antt =====
-- util/standard_responses.go: `StandardResponse`, a status code, after the JSON decoder has decoded it.
use pullcord.Base.{
  ℕ, zero, suc, ◌-◌, Bool, true, false, Option, none, some, String, ℤ, pos, negsuc, ltb_ℤ, Error,
  invalid_standard_response, if◌then◌else◌, ◌==◌,
}
use pullcord.Authentication.Names.{◌<+>◌, size}

abbrev pub StandardResponse : Type 0
StandardResponse = ℤ

abbrev pub minimum_standard_response : ℤ
minimum_standard_response = pos 100

-- `StandardResponse.UnmarshalJSON`
pub unmarshal_standard_response : ℤ → StandardResponse → StandardResponse × Option Error
unmarshal_standard_response t s =
    if ltb_ℤ t minimum_standard_response then (s, some invalid_standard_response) else (t, none)

abbrev pub not_found : StandardResponse
not_found = pos 404

abbrev pub internal_server_error : StandardResponse
internal_server_error = pos 500

abbrev pub not_implemented : StandardResponse
not_implemented = pos 501

unfoldable pub response_title : StandardResponse → Option String
response_title (pos n) =
    if n == 404
    then some "Not Found"
    else if n == 500
    then some "Internal Server Error"
    else if n == 501
    then some "Not Implemented"
    else none
response_title (negsuc n) = none

unfoldable pub response_text : StandardResponse → Option String
response_text (pos n) =
    if n == 404
    then some "The requested page was not found."
    else if n == 500
    then some "An internal server error occured."
    else if n == 501
    then some "The requested behavior has not yet been implemented."
    else none
response_text (negsuc n) = none

unfoldable pub response_contact : StandardResponse → Option Bool
response_contact (pos n) =
    if n == 404
    then some false
    else if n == 500
    then some true
    else if n == 501
    then some true
    else none
response_contact (negsuc n) = none

abbrev pub response_contact_string : String
response_contact_string = "Please contact your system administrator."

spaces : ℕ → String
spaces zero = ""
spaces (suc n) = " " <+> spaces n

-- What `fmt` prints for `%N$`, which it does not know: `$` is the verb, N the least width, and the next
-- argument is taken. The `s` after it is text.
bad_verb : ℕ → String → String
unfolding spaces size
bad_verb width s = "%!$(string=" <+> (spaces (width - size s) <+> (s <+> ")"))

-- `fmt.Sprintf(responseStringFormat, title, text, contact)`: the format has four verbs, and no argument
-- is left for the last.
unfoldable pub response_string : String → String → String → String
unfolding bad_verb
response_string title text contact =
    "<!DOCTYPE html>\n<html>\n <head>\n  <title>\n   "
    <+> bad_verb 1 title
    <+> "s\n  </title>\n </head>\n <body>\n  <h1>\n   "
    <+> bad_verb 1 text
    <+> "s\n  </h1>\n  <p>\n   "
    <+> bad_verb 2 contact
    <+> "s\n   %!$(MISSING)s\n  </p>\n </body>\n</html>"

abbrev or_empty : Option String → String
or_empty (some v) = v
or_empty none = ""

abbrev contact_of : Option Bool → String
contact_of (some true) = response_contact_string
contact_of (some false) = ""
contact_of none = ""

-- `StandardResponse.FilterRequest`: the status and the text of the response.
unfoldable pub filter_request : StandardResponse → ℤ × String
filter_request s =
    let rs = if ltb_ℤ s minimum_standard_response then internal_server_error else s in
    (
      rs,
      response_string (or_empty (response_title rs)) (or_empty (response_text rs))
          (contact_of (response_contact rs)),
    )
