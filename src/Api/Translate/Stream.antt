-- ===== src/Api/Translate/Stream.antt =====
-- internal/api/translate/stream.go: the two stream translators, a line of the upstream at a time. The
-- trimming and the prefixes of lines are those of Go's `bytes` and `strings`, which are parameters.
-- `ProcessLine` and `Finish` return no error.
pub mod ToAnthropic
pub mod ToOpenai
pub mod Events
pub mod Texts
pub mod Effects
pub mod Spoken
use proxy_lm_go.Common.{String, Option, none, some}
use proxy_lm_go.Api.Json.{Fields}

pub record LineLib : Type 0 where
  pub trim_space : String → String
  -- the text after a prefix, if it has the prefix
  pub cut_prefix : String → String → Option String

abbrev pub without_space : LineLib → String → String
without_space lines rest = cut (lines.cut_prefix " " rest)
  where
    cut : Option String → String
    cut none = rest
    cut (some tail) = tail

-- `trimSSEData`: the text after `data:`, without one space.
unfoldable pub trim_sse_data : LineLib → String → Option String
trim_sse_data lines line = elim (lines.cut_prefix "data:" (lines.trim_space line)) [
  | none ↦ none
  | some rest ↦ some (without_space lines rest)
]

-- An Anthropic event: `event: <name>`, then `data: <payload>`.
pub record SseEvent : Type 0 where
  pub event : String
  pub payload : Fields
