-- ===== src/Tokens/Examples.antt =====
-- The token theorems at a concrete line, and runs of the code.
use denora.Prelude.{◌≡◌, refl, some, none, CString, codes}
use denora.Tokens.{str_get_token, str_get_only_token, str_get_token_remainder}
use denora.Tokens.Fields.{fields, fields_from}
use denora.Tokens.Agreement.{first_field, str_get_token-fields}

abbrev entry : CString
entry = codes "AzAAA:999::x"

second_token : str_get_token entry b':' 1 ≡ some (codes "999")
unfolding str_get_token
second_token = refl

empty_token : str_get_token entry b':' 2 ≡ none
unfolding str_get_token
empty_token = refl

remainder : str_get_token_remainder entry b':' 1 ≡ some (codes "999::x")
unfolding str_get_token_remainder
remainder = refl

only_last : str_get_only_token entry b':' 3 ≡ none
unfolding str_get_only_token
only_last = refl

str_get_token-fields_example :
    str_get_token entry b':' 1 ≡ first_field (fields_from 1 (fields b':' entry))
str_get_token-fields_example = str_get_token-fields entry b':' 1
