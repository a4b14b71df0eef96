-- ===== src/Api/Handlers/Passthrough.antt =====
-- internal/api/streaming.go and the second half of `runStreamWithTranslator` in streaming_translate.go:
-- a stream that passes from the backend to the client as it is, a line at a time.
pub mod Lines
use Prim.Native.String
use proxy_lm_go.Common.{
  ℕ, zero, ◌+◌, ℤ, pos, String, ◌==◌, Bool, true, false, ◌||◌, ◌&&◌, not, Option, none, some, List,
  [], ◌∷◌, length, if◌then◌else◌,
}
use proxy_lm_go.Core.Models.{Err, wrapped, JobResult}
use proxy_lm_go.Core.LiveTail.{LiveTail, append}
use proxy_lm_go.Api.Translate.Stream.{LineLib, without_space}
use proxy_lm_go.Api.Handlers.{
  Client, put, World, Usage, no_usage, stream_result, Next, returns, breaks, continues, ended,
}

-- The first choice of a chunk, as the decoder fills the struct.
pub record ChunkText : Type 0 where
  pub content : String
  pub text : String

-- `json.Unmarshal` into the structs of the code: none is an error. `runes` is `[]rune`.
pub record ChunkLib : Type 0 where
  pub openai_usage : String → Option (Option Usage)
  pub anthropic_usage : String → Option (Option Usage × Option (Option Usage))
  pub choices : String → Option (List ChunkText)
  pub runes : String → List ℕ

-- `trimDataPrefix`; the line is not trimmed.
unfoldable pub trim_data_prefix : LineLib → String → Option String
trim_data_prefix lines line = elim (lines.cut_prefix "data:" line) [
  | none ↦ none
  | some rest ↦ some (without_space lines rest)
]

abbrev usage_or_none : Option (Option Usage) → Option Usage
usage_or_none none = none
usage_or_none (some u) = u

-- `extractUsage`
unfoldable pub extract_usage : ChunkLib → String → Option Usage
extract_usage lib payload = usage_or_none (lib.openai_usage payload)

abbrev message_usage : Option Usage → Option (Option Usage) → Option Usage
message_usage (some u) m = some u
message_usage none m = usage_or_none m

abbrev either_usage : Option (Option Usage × Option (Option Usage)) → Option Usage
either_usage none = none
either_usage (some p) = message_usage p.0 p.1

-- `extractAnthropicStreamUsage`: the usage of the event, or else of its message.
unfoldable pub extract_anthropic_stream_usage : ChunkLib → String → Option Usage
extract_anthropic_stream_usage lib payload = either_usage (lib.anthropic_usage payload)

abbrev first_text : Option (List ChunkText) → String
first_text (some (c ∷ cs)) = if c.content == "" then c.text else c.content
first_text _ = ""

-- `extractDeltaContent`
unfoldable pub extract_delta_content : ChunkLib → String → String
extract_delta_content lib payload = first_text (lib.choices payload)

-- The variables of the loop. `last_data` is "" while it is nil.
pub record PassState : Type 0 where
  pub client : Client
  pub started : Bool
  pub usage : Usage
  pub last_data : String
  pub ttft : ℤ
  pub tail : LiveTail

unfoldable pub pass_start : Client → LiveTail → PassState
pass_start w tail = record {
  client = w;
  started = false;
  usage = no_usage;
  last_data = "";
  ttft = pos 0;
  tail = tail;
}

-- The line is written and flushed.
abbrev pub sent : World → PassState → String → PassState
sent world s line = record s {
  client = put s.client (ended line);
  started = true;
  ttft = if s.started then s.ttft else world.elapsed (length s.client.written);
}

abbrev pub new_usage : Option Usage → Usage → Usage
new_usage none u = u
new_usage (some v) u = v

-- What a loop does with a line that it has sent: whether it goes on, and its variables.
abbrev pub Reaction : Type 0
Reaction = PassState → Option String → Bool × PassState

abbrev kept_tail : ChunkLib → String → LiveTail → String → LiveTail
kept_tail lib id tail delta = if delta == "" then tail else append tail id (lib.runes delta)

abbrev noted : ChunkLib → String → PassState → String → PassState
noted lib id s payload = record s {
  last_data = payload;
  usage = new_usage (extract_usage lib payload) s.usage;
  tail = kept_tail lib id s.tail (extract_delta_content lib payload);
}

-- The loop of `runStream`: the end mark ends it.
unfoldable pub react_openai : LineLib → ChunkLib → String → Reaction
react_openai lines lib id s none = (true, s)
react_openai lines lib id s (some payload) =
    if lines.trim_space payload == "[DONE]" then (false, s) else (true, noted lib id s payload)

-- The loop of `runStreamWithTranslator`.
unfoldable pub react_anthropic : ChunkLib → Reaction
react_anthropic lib s none = (true, s)
react_anthropic lib s (some payload) =
    (true, record s { usage = new_usage (extract_anthropic_stream_usage lib payload) s.usage })

abbrev pub pass_result : Option Err → ℕ → Bool → PassState → JobResult
pass_result e status started s = stream_result e status started s.usage s.ttft

-- `r.Context().Err()`
abbrev pub check_context : ℕ → PassState → Option Err → Next PassState
check_context status s none = continues s
check_context status s (some e) = returns s (pass_result (some e) status true s)

abbrev pub after_line : ℕ → Option Err → Bool × PassState → Next PassState
after_line status cancelled r = if r.0 then check_context status r.1 cancelled else breaks r.1

abbrev pub write_line :
    Reaction → LineLib → World → ℕ → ℕ → PassState → String → Option Err → Next PassState
write_line react lines world status n s line none =
    after_line status (world.context_error n)
      (react (sent world s line) (trim_data_prefix lines line))
write_line react lines world status n s line (some e) =
    returns s (pass_result (some (wrapped "write to client" e)) status true s)

-- One round of the loop.
unfoldable pub pass_step : Reaction → LineLib → World → ℕ → ℕ → PassState → String → Next PassState
pass_step react lines world status n s line =
    write_line react lines world status n s line (world.write_error (length s.client.written))

-- What follows the loop: the error of the reading, or the last chance for the usage.
unfoldable pub after_stream : (PassState → PassState) → ℕ → Option Err → PassState → JobResult
after_stream final status none s = pass_result none status true (final s)
after_stream final status (some e) s =
    pass_result (some (wrapped "read upstream stream" e)) status s.started s

abbrev is_zero : ℤ → Bool
is_zero (pos zero) = true
is_zero _ = false

-- The last chance for the usage, in `runStream`.
unfoldable pub final_usage : ChunkLib → PassState → PassState
final_usage lib s =
    if is_zero s.usage.prompt && is_zero s.usage.output && not (s.last_data == "")
    then record s { usage = new_usage (extract_usage lib s.last_data) s.usage }
    else s
