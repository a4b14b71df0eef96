-- ===== src/Api/Auth.antt =====
-- internal/api/auth.go: the table of keys and the checks of the two middlewares. A request is what the
-- code reads of it. `strings.TrimSpace`, `strings.Split`, `strings.CutPrefix` and the base64 decoder
-- are parameters. The context value that `ClientAuth` sets is the client's name that it passes on.
pub mod Clients
use proxy_lm_go.Common.{
  ℕ, String, ◌==◌, Bool, true, false, not, ◌&&◌, Option, none, some, List, [], ◌∷◌, ◌++◌,
  if◌then◌else◌, or_else,
}
use proxy_lm_go.Config.{ApiKey, Auth}

-- The map from keys to names, the last write first: a read finds the last write.
pub record AuthRegistry : Type 0 where
  pub keys : List (String × String)
  pub admin_key : String

-- `m[k.Key] = k.Name` for each key.
unfoldable pub write_keys : List (String × String) → List ApiKey → List (String × String)
write_keys m [] = m
write_keys m (k ∷ ks) = write_keys ((k.key, k.name) ∷ m) ks

unfoldable pub new_auth_registry : Auth → AuthRegistry
new_auth_registry a = record { keys = write_keys [] a.api_keys; admin_key = a.admin_key }

-- A missing key reads as the empty string.
unfoldable pub read_key : List (String × String) → String → String
read_key [] key = ""
read_key (e ∷ m) key = if e.0 == key then e.1 else read_key m key

unfoldable pub lookup_client : AuthRegistry → String → String
lookup_client r key = read_key r.keys key

unfoldable pub is_admin : AuthRegistry → String → Bool
is_admin r key = not (key == "") && (key == r.admin_key)

-- The headers that the code reads: the first value of each, or the empty string.
pub record AuthHeaders : Type 0 where
  pub authorization : String
  pub x_api_key : String
  -- the values of `Sec-WebSocket-Protocol`
  pub ws_protocols : List String

pub record HeaderLib : Type 0 where
  pub trim_space : String → String
  pub split_commas : String → List String
  -- the text after a prefix, if it has the prefix
  pub cut_prefix : String → String → Option String
  pub decode_base64 : String → Option String

abbrev bearer_of : HeaderLib → Option String → String
bearer_of lib none = ""
bearer_of lib (some rest) = lib.trim_space rest

unfoldable pub extract_bearer : HeaderLib → AuthHeaders → String
extract_bearer lib h =
    if h.authorization == "" then "" else bearer_of lib (lib.cut_prefix "Bearer " h.authorization)

unfoldable pub extract_key : HeaderLib → AuthHeaders → String
extract_key lib h =
    let bearer = extract_bearer lib h in
    if not (bearer == "") then bearer else if not (h.x_api_key == "") then h.x_api_key else ""

-- The text after the prefix of a token, from the parts in their order.
unfoldable pub find_token : HeaderLib → List String → Option String
find_token lib [] = none
find_token lib (part ∷ parts) =
    or_else (lib.cut_prefix "proxylm-token." (lib.trim_space part)) (find_token lib parts)

unfoldable pub all_parts : HeaderLib → List String → List String
all_parts lib [] = []
all_parts lib (line ∷ lines) = lib.split_commas line ++ all_parts lib lines

abbrev or_empty : Option String → String
or_empty none = ""
or_empty (some s) = s

abbrev decoded : HeaderLib → Option String → String
decoded lib none = ""
decoded lib (some encoded) = or_empty (lib.decode_base64 encoded)

-- The two nested loops return at the first match: the first token of all the parts.
unfoldable pub extract_admin_key_from_subprotocol : HeaderLib → AuthHeaders → String
extract_admin_key_from_subprotocol lib h =
    decoded lib (find_token lib (all_parts lib h.ws_protocols))

unfoldable pub extract_admin_key : HeaderLib → AuthHeaders → String
extract_admin_key lib h =
    let bearer = extract_bearer lib h in
    if not (bearer == "") then bearer else extract_admin_key_from_subprotocol lib h

-- What a middleware does: an error response, or the next handler.
pub data Access : Type 0 where
  denied : ℕ → String → Access
  served_as : String → Access
  served : Access

unfoldable pub client_auth : HeaderLib → AuthRegistry → AuthHeaders → Access
client_auth lib r h =
    let key = extract_key lib h in
    let name = lookup_client r key in
    if key == ""
    then denied 401 "missing api key"
    else if name == ""
    then denied 401 "unknown api key"
    else served_as name

unfoldable pub admin_auth : HeaderLib → AuthRegistry → AuthHeaders → Access
admin_auth lib r h =
    if not (is_admin r (extract_admin_key lib h)) then denied 401 "admin auth required" else served
