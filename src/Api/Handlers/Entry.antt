-- ===== src/Api/Handlers/Entry.antt =====
-- internal/api/routes_openai.go and routes_anthropic.go: the head of `ServeHTTP`, which reads a request
-- or rejects it, and the whole of `ServeHTTP`. The decoding of the fields is a parameter.
use Prim.Native.String
use proxy_lm_go.Common.{
  ℕ, ℤ, pos, String, ◌==◌, ◌≡◌, subst, inl, inr, Bool, false, Bool-cases, Option, none, some, List,
  if◌then◌else◌, leb_ℤ,
}
use proxy_lm_go.Core.Models.{Err, JobResult}
use proxy_lm_go.Core.LiveTail.{LiveTail}
use proxy_lm_go.Api.Handlers.{Client}
use proxy_lm_go.Api.Handlers.Attempt.{Handler, openai, messages}
use proxy_lm_go.Api.Handlers.Compat.{Compat, kept, refused_format, apply_response_format_compat}
use proxy_lm_go.Api.Handlers.Serve.{Server, Exchange, Try, write_error, serve}

-- The fields that a handler looks at.
pub record Peeked : Type 0 where
  pub model : String
  pub stream : Bool
  pub max_tokens : ℤ

-- `json.Unmarshal` into the struct of `peekModelAndStream` and `peekAnthropicRequest`: the message of
-- its error, or the fields.
pub data Decoded : Type 0 where
  invalid : String → Decoded
  fields : Peeked → Decoded

-- `peekModelAndStream` and `peekAnthropicRequest`: an empty body is not decoded.
unfoldable pub peek : (String → Decoded) → String → Decoded
peek decode body = if body == "" then invalid "empty body" else decode body

-- A request that goes on, with its body, or the message of the status 400.
pub data Entry : Type 0 where
  rejected : String → Entry
  accepted : Peeked → String → Entry

-- `format_error` is the message of `fmt.Errorf` for a type.
abbrev with_body : (String → String) → Peeked → Compat → Entry
with_body format_error p (refused_format typ) = rejected (format_error typ)
with_body format_error p (kept body) = accepted p body

abbrev openai_fields : Server → (String → String) → String → String → String → Decoded → Entry
openai_fields s format_error endpoint mode body (invalid text) = rejected text
openai_fields s format_error endpoint mode body (fields p) =
    if p.model == ""
    then rejected "missing model field"
    else with_body format_error p (apply_response_format_compat s.libs.json body endpoint mode)

abbrev anthropic_fields : String → Decoded → Entry
anthropic_fields body (invalid text) = rejected text
anthropic_fields body (fields p) =
    if p.model == ""
    then rejected "missing model field"
    else if leb_ℤ p.max_tokens (pos 0)
    then rejected "max_tokens is required and must be > 0"
    else accepted p body

abbrev entry_of : Server → (String → String) → String → Handler → String → Decoded → Entry
entry_of s format_error mode (openai endpoint) body d =
    openai_fields s format_error endpoint mode body d
entry_of s format_error mode messages body d = anthropic_fields body d

-- The body of the request, or the text of the error of its reading.
pub data Body : Type 0 where
  unread : String → Body
  read : String → Body

-- The head of `ServeHTTP`.
unfoldable pub enter : Server → (String → String) → (String → Decoded) → String → Body → Entry
enter s format_error decode mode (unread text) = rejected (String.◌++◌ "read body: " text)
enter s format_error decode mode (read body) =
    entry_of s format_error mode s.handler body (peek decode body)

-- What `serve_http` leaves: the client, and the exchange if the request was accepted.
pub record Served : Type 0 where
  pub client : Client
  pub exchange : Option Exchange

-- The client's name, the request's ID, the time, and what `Submit` did.
pub record Course : Type 0 where
  pub client_name : String
  pub id : String
  pub now : ℕ
  pub tries : List Try
  pub ended_at : ℕ
  pub result : JobResult
  pub error : Option Err

abbrev go_on : Server → Course → Client → LiveTail → Entry → Served
go_on s c w tail (rejected text) = record {
  client = write_error s "invalid_request_error" 400 text w;
  exchange = none;
}
go_on s c w tail (accepted p body) =
    let done =
      serve s
        (record {
          id = c.id;
          client_name = c.client_name;
          model = p.model;
          stream = p.stream;
          body = body;
          now = c.now;
        })
        w tail c.tries c.ended_at c.result c.error in
    record { client = done.client; exchange = some done }

-- `ServeHTTP`
unfoldable pub serve_http :
    Server
    → (String → String)
    → (String → Decoded)
    → String
    → Body
    → Course
    → Client
    → LiveTail
    → Served
serve_http s format_error decode mode body c w tail =
    go_on s c w tail (enter s format_error decode mode body)

-- An accepted request names a model.
abbrev Sound : Entry → Type 0
Sound (rejected text) = Unit
Sound (accepted p body) = p.model == "" ≡ false

with_body-Sound :
    (f : String → String) (p : Peeked) (c : Compat)
    → p.model == "" ≡ false
    → Sound (with_body f p c)
with_body-Sound f p (refused_format typ) m = tt
with_body-Sound f p (kept body) m = m

openai-Sound :
    (s : Server) (f : String → String) (endpoint mode body : String) (d : Decoded)
    → Sound (openai_fields s f endpoint mode body d)
openai-Sound s f endpoint mode body (invalid text) = tt
openai-Sound s f endpoint mode body (fields p) = elim (Bool-cases (p.model == "")) [
  | inl e ↦ rw e tt
  | inr e ↦ rw e (with_body-Sound f p _ e)
]

anthropic-Sound : (body : String) (d : Decoded) → Sound (anthropic_fields body d)
anthropic-Sound body (invalid text) = tt
anthropic-Sound body (fields p) = elim (Bool-cases (p.model == "")) [
  | inl e ↦ rw e tt
  | inr e ↦ elim (Bool-cases (leb_ℤ p.max_tokens (pos 0))) [
    | inl f ↦ rw (e, f) tt
    | inr f ↦ rw (e, f) e
  ]
]

entry-Sound :
    (s : Server) (f : String → String) (mode : String) (h : Handler) (body : String) (d : Decoded)
    → Sound (entry_of s f mode h body d)
entry-Sound s f mode (openai endpoint) body d = openai-Sound s f endpoint mode body d
entry-Sound s f mode messages body d = anthropic-Sound body d

-- Whatever body comes, a request that either handler accepts names a model.
pub enter-model :
    (s : Server) (f : String → String) (decode : String → Decoded) (mode : String) (b : Body)
    (p : Peeked) (body : String)
    → enter s f decode mode b ≡ accepted p body
    → p.model == "" ≡ false
unfolding enter
enter-model s f decode mode (unread text) p body e = absurd cc
enter-model s f decode mode (read text) p body e =
    subst Sound e (entry-Sound s f mode s.handler text (peek decode text))
