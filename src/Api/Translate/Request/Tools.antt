-- ===== src/Api/Translate/Request/Tools.antt =====
-- internal/api/translate/request.go: the definitions of tools in both protocols.
use proxy_lm_go.Common.{
  String, ◌==◌, ◌≡◌, ap, ◌∙◌, inl, inr, Bool-cases, some, List, map, filter_map, filter_map-map,
}
use proxy_lm_go.Api.Json.{Json, str, obj, Fields, no_fields, field, get, to_list-of_list, array}
use proxy_lm_go.Api.Translate.Request.{
  nonempty_field, anthropic_tool, openai_tool, convert_oai_tools_to_anthropic,
  convert_anthropic_tools_to_oai,
}

-- A function that a model may call; an empty description is none.
pub record Tool : Type 0 where
  pub name : String
  pub description : String
  pub parameters : Fields

-- How each protocol writes it.
abbrev pub openai_form : Tool → Json
openai_form t = obj (
    field "type" (str "function") (
      field "function"
        (obj (
          field "name" (str t.name) (
            nonempty_field "description" t.description
              (field "parameters" (obj t.parameters) no_fields))))
        no_fields))

abbrev pub anthropic_form : Tool → Json
anthropic_form t = obj (
    field "name" (str t.name) (
      field "input_schema" (obj t.parameters)
        (nonempty_field "description" t.description no_fields)))

anthropic_tool-form : (t : Tool) → anthropic_tool (openai_form t) ≡ some (anthropic_form t)
unfolding anthropic_tool get
anthropic_tool-form t = elim (Bool-cases (t.description == "")) [ inl e ↦ simp e | inr e ↦ simp e ]

openai_tool-form : (t : Tool) → openai_tool (anthropic_form t) ≡ some (openai_form t)
unfolding openai_tool get
openai_tool-form t = elim (Bool-cases (t.description == "")) [ inl e ↦ simp e | inr e ↦ simp e ]

-- Tools of an OpenAI request become the same tools of the Messages API.
pub convert_oai_tools-form :
    (ts : List Tool)
    → convert_oai_tools_to_anthropic (array (map openai_form ts)) ≡ array (map anthropic_form ts)
unfolding convert_oai_tools_to_anthropic
convert_oai_tools-form ts =
    ap (λ l. array (filter_map anthropic_tool l)) (to_list-of_list (map openai_form ts))
    ∙ ap array (filter_map-map anthropic_tool openai_form anthropic_form ts anthropic_tool-form)

-- Tools of the Messages API become the same tools of an OpenAI request.
pub convert_anthropic_tools-form :
    (ts : List Tool)
    → convert_anthropic_tools_to_oai (array (map anthropic_form ts)) ≡ array (map openai_form ts)
unfolding convert_anthropic_tools_to_oai
convert_anthropic_tools-form ts =
    ap (λ l. array (filter_map openai_tool l)) (to_list-of_list (map anthropic_form ts))
    ∙ ap array (filter_map-map openai_tool anthropic_form openai_form ts openai_tool-form)
