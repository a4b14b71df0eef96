-- ===== src/Core/Backends.antt =====
-- internal/core/backends/openai.go and anthropic.go: the headers of a request to a backend (`Forward`,
-- `applyAuth`). The request itself is sent by net/http.
pub mod Credentials
use Prim.Native.String
use proxy_lm_go.Common.{
  String, ◌==◌, Bool, true, false, ◌||◌, List, [], ◌∷◌, contains, if◌then◌else◌,
}
use proxy_lm_go.Api.Handlers.{Header, get_header, set_header}
use proxy_lm_go.Api.Handlers.Headers.{hop_by_hop_headers, add_values}

-- The headers of the client that do not go on.
abbrev pub openai_withheld : String → Bool
openai_withheld key = contains hop_by_hop_headers key || key == "Authorization"

abbrev pub anthropic_withheld : String → Bool
anthropic_withheld key =
    contains hop_by_hop_headers key || (key == "Authorization" || key == "X-Api-Key")

-- The loop over the headers of the client.
unfoldable pub forward_headers : (String → Bool) → (String → String) → Header → Header → Header
forward_headers withheld canonical dst [] = dst
forward_headers withheld canonical dst (e ∷ src) =
    forward_headers withheld canonical
      (if withheld (canonical e.0) then dst else add_values dst (canonical e.0) e.1) src

unfoldable pub with_content_type : Header → Header
with_content_type h =
    if get_header h "Content-Type" == "" then set_header h "Content-Type" "application/json" else h

-- `OpenAI.applyAuth`
unfoldable pub openai_auth : String → Header → Header
openai_auth key h =
    if key == "" then h else set_header h "Authorization" (String.◌++◌ "Bearer " key)

-- `Anthropic.applyAuth`; net/http keeps keys in their canonical form.
unfoldable pub anthropic_auth : String → String → Header → Header
anthropic_auth version key h =
    set_header (if key == "" then h else set_header h "X-Api-Key" key) "Anthropic-Version" version

-- The headers of `OpenAI.Forward` and of `Anthropic.Forward`.
unfoldable pub openai_headers : (String → String) → String → Header → Header
openai_headers canonical key headers =
    openai_auth key (with_content_type (forward_headers openai_withheld canonical [] headers))

unfoldable pub anthropic_headers : (String → String) → String → String → Header → Header
anthropic_headers canonical version key headers =
    anthropic_auth version key
      (with_content_type (forward_headers anthropic_withheld canonical [] headers))
