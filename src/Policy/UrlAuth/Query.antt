-- ===== src/Policy/UrlAuth/Query.antt =====
-- src/policy/UrlAuthenticator.cpp: the parameters of a query.
use model_lib.Base.Bytes.{Bytes, codes, equal, is_empty, cut, components}
use model_lib.Base.{
  ℕ, ◌+◌, Bool, not, ◌&&◌, ◌||◌, List, [], ◌∷◌, ◌++◌, Option, none, some, if◌then◌else◌,
}

pub record ParsedQuery : Type 0 where
  pub auth_key : Bytes
  pub retained_parameters : List Bytes
  pub auth_key_count : ℕ

-- `parameter.substr(0, equals)`.
unfoldable pub parameter_name : Bytes → Option (Bytes × Bytes) → Bytes
parameter_name parameter none = parameter
parameter_name parameter (some (name, value)) = name

unfoldable pub assigned : Bytes → Option (Bytes × Bytes) → Bytes
assigned old none = old
assigned old (some (name, value)) = value

abbrev pub is_auth_key : Bytes → Bool
is_auth_key = equal (codes "auth_key")

abbrev pub is_signing : Bytes → Bool
is_signing name = equal (codes "sign") name || equal (codes "time") name

unfoldable pub take_parameter : ParsedQuery → Bytes → ParsedQuery
unfolding parameter_name assigned
take_parameter q parameter =
    let found = cut b'=' parameter in
    let name = parameter_name parameter found in
    if is_auth_key name
    then record q { auth_key_count = q.auth_key_count + 1; auth_key = assigned q.auth_key found }
    else if not (is_signing name) && not (is_empty parameter)
    then record q { retained_parameters = q.retained_parameters ++ parameter ∷ [] }
    else q

unfoldable pub take_all : ParsedQuery → List (Bytes × Bool) → ParsedQuery
take_all q [] = q
take_all q ((parameter, last) ∷ rest) = take_all (take_parameter q parameter) rest

abbrev pub no_parameters : ParsedQuery
no_parameters = record { auth_key = []; retained_parameters = []; auth_key_count = 0 }

unfoldable pub parse_query : Bytes → ParsedQuery
unfolding take_all take_parameter
parse_query query = take_all no_parameters (components b'&' query)

-- The parameters with `&` between them.
unfoldable pub join : List Bytes → Bytes
join [] = []
join (p ∷ []) = p
join (p ∷ q ∷ ps) = p ++ b'&' ∷ join (q ∷ ps)

unfoldable pub cleaned_target : Bytes → List Bytes → Bytes
unfolding join
cleaned_target path [] = path
cleaned_target path (p ∷ ps) = path ++ b'?' ∷ join (p ∷ ps)
