-- ===== src/Api/Handlers.antt =====
-- internal/api: the handlers of requests. This file has the client's side of an exchange, the backend's
-- answer and the loop over the lines of a stream. net/http sets the headers' keys in their canonical
-- form, which is a parameter.
pub mod Headers
pub mod Passthrough
pub mod Translated
pub mod Whole
pub mod Attempt
pub mod Serve
pub mod Compat
pub mod Entry
use Prim.Native.String
use proxy_lm_go.Common.{
  ℕ, suc, ◌/◌, ℤ, pos, String, ◌==◌, Bool, true, false, not, Option, none, some, List, [], ◌∷◌,
  ◌++◌, contains, length, eqb, if◌then◌else◌,
}
use proxy_lm_go.Core.Models.{Err, message, wrapped, JobResult, zero_result, ServerInfo}

-- `http.Header`: different keys, each with its values.
abbrev pub Header : Type 0
Header = List (String × List String)

-- `http.ResponseWriter`: the header, the status that was sent, and the bodies of the writes.
pub record Client : Type 0 where
  pub header : Header
  pub status : Option ℕ
  pub written : List String

abbrev or_status : Option ℕ → ℕ → Option ℕ
or_status none n = some n
or_status (some sent) n = some sent

-- `WriteHeader`: only the first call counts.
unfoldable pub write_header : Client → ℕ → Client
write_header w n = record w { status = or_status w.status n }

-- A `Write` that succeeds; it sends the status 200 if none was sent.
unfoldable pub put : Client → String → Client
put w body = record w { status = or_status w.status 200; written = w.written ++ (body ∷ []) }

-- What happens to one attempt: the error of a write when so many were made, the error of the request's
-- context after so many lines, and the milliseconds from the start to a write.
pub record World : Type 0 where
  pub write_error : ℕ → Option Err
  pub context_error : ℕ → Option Err
  pub elapsed : ℕ → ℤ
  pub can_flush : Bool

-- The backend's response: its body as a whole, or as the lines of `bufio.Scanner`, and the error that
-- ends the reading.
pub record Response : Type 0 where
  pub status : ℕ
  pub header : Header
  pub body : String
  pub lines : List String
  pub read_error : Option Err

-- `Forward`
pub data Reply : Type 0 where
  refused : Err → Reply
  response : Response → Reply

-- `fmt.Sprintf` and `strconv.Quote`, for the messages.
pub record Format : Type 0 where
  pub upstream_status : String → ℕ → String
  pub unsupported_endpoint : String → String → String
  pub no_backend : String → String

-- `StatusCode/100 == 2`
abbrev pub is_2xx : ℕ → Bool
is_2xx status = eqb (status / 100) 2

abbrev pub failed_with : Err → JobResult
failed_with e = record zero_result { err = some e }

abbrev pub failed_status : Err → ℕ → JobResult
failed_status e status = record zero_result { err = some e; http_status = status }

-- The tokens of a usage report.
pub record Usage : Type 0 where
  pub prompt : ℤ
  pub output : ℤ

abbrev pub no_usage : Usage
no_usage = record { prompt = pos 0; output = pos 0 }

abbrev pub stream_result : Option Err → ℕ → Bool → Usage → ℤ → JobResult
stream_result e status started usage ttft = record zero_result {
  err = e;
  http_status = status;
  response_started = started;
  prompt_tokens = usage.prompt;
  output_tokens = usage.output;
  ttft_ms = ttft;
}

-- What one round of a loop does: `return`, `break`, or go on.
pub data Next (S : Type 0) : Type 0 where
  returns : S → JobResult → Next S
  breaks : S → Next S
  continues : S → Next S

-- How a loop over lines ended: by a `return`, by a `break`, or with the last line.
pub data Ended : Type 0 where
  returned : JobResult → Ended
  broken : Ended
  exhausted : Ended

-- The code after the loop is reached.
abbrev pub Finished : Ended → Type 0
Finished (returned r) = ⊥
Finished broken = Unit
Finished exhausted = Unit

-- `for scanner.Scan()`, with the number of the line.
unfoldable pub scan : {S : Type 0} → (ℕ → S → String → Next S) → ℕ → S → List String → S × Ended
scan step n s [] = (s, exhausted)
scan step n s (l ∷ ls) = elim (step n s l) [
  | returns s' r ↦ (s', returned r)
  | breaks s' ↦ (s', broken)
  | continues s' ↦ scan step (suc n) s' ls
]

-- `append(line, '\n')`
abbrev pub ended : String → String
ended line = String.◌++◌ line "\n"

-- The headers of a stream that are always set.
abbrev pub get_header : Header → String → String
get_header [] k = ""
get_header ((key, []) ∷ h) k = if key == k then "" else get_header h k
get_header ((key, v ∷ vs) ∷ h) k = if key == k then v else get_header h k

unfoldable pub set_header : Header → String → String → Header
set_header [] k v = (k, v ∷ []) ∷ []
set_header (e ∷ h) k v =
    let rest = set_header h k v in if e.0 == k then (k, v ∷ []) ∷ h else e ∷ rest

-- `isOpenAIProtocol`
abbrev pub is_openai_protocol : ServerInfo → Bool
is_openai_protocol s = not (s.type_name == "anthropic")

-- A run of one attempt: what it did to the client, and its result.
pub record Run : Type 0 where
  pub client : Client
  pub result : JobResult
