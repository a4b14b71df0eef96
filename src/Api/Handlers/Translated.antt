-- ===== src/Api/Handlers/Translated.antt =====
-- internal/api/streaming_translate.go: a stream that is translated on its way to the client. The loop
-- works with either translator, by the interface `StreamTranslator` of internal/api/translate/stream.go.
pub mod Complete
pub mod Protocol
use Prim.Native.String
use proxy_lm_go.Common.{
  ℕ, ℤ, pos, String, Bool, true, false, Option, none, some, List, [], ◌∷◌, map, length,
  if◌then◌else◌,
}
use proxy_lm_go.Core.Models.{Err, wrapped, JobResult}
use proxy_lm_go.Api.Json.{obj, JsonLib}
use proxy_lm_go.Api.Translate.Stream.{LineLib, SseEvent}
use proxy_lm_go.Api.Translate.Stream.ToAnthropic.{OaiToAnthropic, oai_process_line, oai_finish}
use proxy_lm_go.Api.Translate.Stream.ToOpenai.{
  AnthropicToOai, OaiLine, chunk_line, done_line, anthropic_process_line, anthropic_finish,
}
use proxy_lm_go.Api.Handlers.{
  Client, put, World, Usage, stream_result, Next, returns, breaks, continues, Ended, returned, scan,
}

-- `StreamTranslator`; none of the two returns an error.
pub record StreamTranslator (T : Type 0) : Type 0 where
  pub process_line : T → String → T × List String
  pub finish : T → List String
  pub usage : T → Usage
  pub done : T → Bool

-- `makeAnthropicSSE`
unfoldable pub sse_text : JsonLib → SseEvent → String
sse_text lib e =
    String.◌++◌ (String.◌++◌ (String.◌++◌ "event: " e.event) "\ndata: ") (lib.print (obj e.payload))

-- The bytes of a line for an OpenAI client.
unfoldable pub oai_text : JsonLib → OaiLine → String
oai_text lib (chunk_line j) = String.◌++◌ "data: " (lib.print j)
oai_text lib done_line = "data: [DONE]"

abbrev pub to_anthropic : LineLib → JsonLib → StreamTranslator OaiToAnthropic
to_anthropic lines lib = record {
  process_line =
      λ t line. let out = oai_process_line lines lib t line in (out.0, map (sse_text lib) out.1);
  finish = λ t. map (sse_text lib) (oai_finish t);
  usage = λ t. record { prompt = t.prompt_tok; output = t.output_tok };
  done = λ t. t.done;
}

abbrev pub to_openai : LineLib → JsonLib → StreamTranslator AnthropicToOai
to_openai lines lib = record {
  process_line = λ t line.
      let out = anthropic_process_line lines lib t line in (out.0, map (oai_text lib) out.1);
  finish = λ t. map (oai_text lib) (anthropic_finish t);
  usage = λ t. record { prompt = t.prompt_tok; output = t.output_tok };
  done = λ t. t.done;
}

-- `append(ol, '\n', '\n')`
abbrev pub event_end : String → String
event_end text = String.◌++◌ text "\n\n"

-- The variables of the loop.
pub record TransState (T : Type 0) : Type 0 where
  pub client : Client
  pub started : Bool
  pub ttft : ℤ
  pub translator : T

unfoldable pub trans_start : {T : Type 0} → Client → T → TransState T
trans_start w t = record { client = w; started = false; ttft = pos 0; translator = t }

module _ {T : Type 0} (tr : StreamTranslator T) (world : World) (status : ℕ) where
  abbrev pub written_one : TransState T → String → TransState T
  written_one s out = record s {
    client = put s.client (event_end out);
    started = true;
    ttft = if s.started then s.ttft else world.elapsed (length s.client.written);
  }

  -- The inner loop, and the error of a write that ends it.
  unfoldable pub write_all : TransState T → List String → TransState T × Option Err
  write_all s [] = (s, none)
  write_all s (out ∷ outs) = elim (world.write_error (length s.client.written)) [
    | none ↦ write_all (written_one s out) outs
    | some e ↦ (s, some e)
  ]

  abbrev pub trans_result : Option Err → TransState T → JobResult
  trans_result e s = stream_result e status true (tr.usage s.translator) s.ttft

  abbrev pub check_cancelled : TransState T → Option Err → Next (TransState T)
  check_cancelled s none = continues s
  check_cancelled s (some e) = returns s (trans_result (some e) s)

  abbrev pub after_writes : Option Err → TransState T × Option Err → Next (TransState T)
  after_writes cancelled (s, some e) =
      returns s (trans_result (some (wrapped "write to client" e)) s)
  after_writes cancelled (s, none) =
      if tr.done s.translator then breaks s else check_cancelled s cancelled

  -- One round of the loop.
  unfoldable pub trans_step : ℕ → TransState T → String → Next (TransState T)
  trans_step n s line =
      let out = tr.process_line s.translator line in
      after_writes (world.context_error n) (write_all (record s { translator = out.0 }) out.1)

  -- The finishing events, whose write errors are ignored.
  unfoldable pub finish_all : TransState T → List String → TransState T
  finish_all s [] = s
  finish_all s (out ∷ outs) = elim (world.write_error (length s.client.written)) [
    | none ↦ finish_all (record s { client = put s.client (event_end out) }) outs
    | some e ↦ finish_all s outs
  ]

  abbrev pub ends_stream : TransState T × Ended → Client × JobResult
  ends_stream (s, returned r) = (s.client, r)
  ends_stream (s, _) = ((finish_all s (tr.finish s.translator)).client, trans_result none s)

  -- The loop, and what follows it.
  unfoldable pub translate_stream : Client → T → List String → Client × JobResult
  translate_stream w t ls = ends_stream (scan trans_step 0 (trans_start w t) ls)
