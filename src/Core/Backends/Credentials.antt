-- ===== src/Core/Backends/Credentials.antt =====
-- internal/core/backends/openai.go and anthropic.go: the credentials in the headers that `Forward` sends.
use Prim.Native.String
use proxy_lm_go.Common.{
  String, ◌==◌, ◌≡◌, refl, sym, ap, ◌∙◌, eq_iff, eq_refl, inl, inr, ◌⊎◌, Bool, true, false,
  Bool-cases, true≢false, List, [], ◌∷◌, if◌then◌else◌,
}
use proxy_lm_go.Api.Handlers.{Header, get_header, set_header}
use proxy_lm_go.Api.Handlers.Headers.{values, add_values, values-add_other}
use proxy_lm_go.Core.Backends.{
  openai_withheld, anthropic_withheld, forward_headers, with_content_type, openai_auth,
  anthropic_auth, openai_headers, anthropic_headers,
}

values-set : (h : Header) (k v : String) → values (set_header h k v) k ≡ v ∷ []
unfolding values set_header
values-set [] k v = simp (eq_refl k)
values-set (e ∷ h) k v = elim (Bool-cases (e.0 == k)) [
  | inl q ↦ simp (q, eq_refl k)
  | inr q ↦ simp (q, values-set h k v)
]

values-set_other :
    (h : Header) (k other v : String)
    → k == other ≡ false
    → values (set_header h k v) other ≡ values h other
unfolding values set_header
values-set_other [] k other v d = simp d
values-set_other (e ∷ h) k other v d = elim (Bool-cases (e.0 == k)) [
  | inl q ↦ simp (q, ap (λ x. x == other) ((eq_iff e.0 k).0 q) ∙ d, d)
  | inr q ↦ elim (Bool-cases (e.0 == other)) [
    | inl r ↦ simp (q, r)
    | inr r ↦ simp (q, r, values-set_other h k other v d)
  ]
]

forward-withheld :
    (withheld : String → Bool) (canonical : String → String) (dst src : Header) (name : String)
    → withheld name ≡ true
    → values (forward_headers withheld canonical dst src) name ≡ values dst name
unfolding forward_headers
forward-withheld withheld canonical dst [] name h = refl
forward-withheld withheld canonical dst (e ∷ src) name h =
    elim (Bool-cases (withheld (canonical e.0))) [
      | inl q ↦ rw q (forward-withheld withheld canonical dst src name h)
      | inr q ↦ rw q (
          forward-withheld withheld canonical (add_values dst (canonical e.0) e.1) src name h
          ∙ values-add_other dst (canonical e.0) name e.1
              (differs (Bool-cases (canonical e.0 == name)) q))
    ]
  where
    differs :
        ((canonical e.0 == name ≡ true) ⊎ (canonical e.0 == name ≡ false))
        → withheld (canonical e.0) ≡ false
        → canonical e.0 == name ≡ false
    differs (inl r) q =
        absurd (true≢false (sym h ∙ ap withheld (sym ((eq_iff (canonical e.0) name).0 r)) ∙ q))
    differs (inr r) q = r

content_type-other :
    (h : Header) (name : String)
    → "Content-Type" == name ≡ false
    → values (with_content_type h) name ≡ values h name
unfolding with_content_type
content_type-other h name d = elim (Bool-cases (get_header h "Content-Type" == "")) [
  | inl e ↦ rw e (values-set_other h "Content-Type" name "application/json" d)
  | inr e ↦ rw e refl
]

-- The credentials of a backend's key.
abbrev pub bearer : String → List String
bearer key = if key == "" then [] else String.◌++◌ "Bearer " key ∷ []

abbrev pub api_key : String → List String
api_key key = if key == "" then [] else key ∷ []

withheld-none :
    (withheld : String → Bool) (canonical : String → String) (headers : Header) (name : String)
    → withheld name ≡ true
    → "Content-Type" == name ≡ false
    → values (with_content_type (forward_headers withheld canonical [] headers)) name ≡ []
unfolding values
withheld-none withheld canonical headers name w d =
    content_type-other (forward_headers withheld canonical [] headers) name d
    ∙ forward-withheld withheld canonical [] headers name w

openai_auth-bearer :
    (key : String) (h : Header)
    → values h "Authorization" ≡ []
    → values (openai_auth key h) "Authorization" ≡ bearer key
unfolding openai_auth
openai_auth-bearer key h n = elim (Bool-cases (key == "")) [
  | inl e ↦ simp e n
  | inr e ↦ simp e (values-set h "Authorization" (String.◌++◌ "Bearer " key))
]

anthropic_auth-other :
    (version key name : String) (h : Header)
    → "X-Api-Key" == name ≡ false
    → "Anthropic-Version" == name ≡ false
    → values (anthropic_auth version key h) name ≡ values h name
unfolding anthropic_auth
anthropic_auth-other version key name h x v = elim (Bool-cases (key == "")) [
  | inl e ↦ simp e (values-set_other h "Anthropic-Version" name version v)
  | inr e ↦ simp e (
      values-set_other (set_header h "X-Api-Key" key) "Anthropic-Version" name version v
      ∙ values-set_other h "X-Api-Key" name key x)
]

anthropic_auth-api_key :
    (version key : String) (h : Header)
    → values h "X-Api-Key" ≡ []
    → values (anthropic_auth version key h) "X-Api-Key" ≡ api_key key
unfolding anthropic_auth
anthropic_auth-api_key version key h n = elim (Bool-cases (key == "")) [
  | inl e ↦ simp e (values-set_other h "Anthropic-Version" "X-Api-Key" version refl ∙ n)
  | inr e ↦ simp e (
      values-set_other (set_header h "X-Api-Key" key) "Anthropic-Version" "X-Api-Key" version refl
      ∙ values-set h "X-Api-Key" key)
]

-- Whatever headers a client sends, a request to an OpenAI backend has the backend's own key as its
-- only `Authorization`, or none if it has no key, and a request to an Anthropic backend has no
-- `Authorization` and the backend's own key as its only `X-Api-Key`, or none if it has no key. Nothing is
-- said of the `X-Api-Key` that goes to an OpenAI backend.
pub headers-credentials :
    (canonical : String → String) (version key : String) (headers : Header)
    → (values (openai_headers canonical key headers) "Authorization" ≡ bearer key)
      × (values (anthropic_headers canonical version key headers) "Authorization" ≡ [])
      × (values (anthropic_headers canonical version key headers) "X-Api-Key" ≡ api_key key)
unfolding openai_headers anthropic_headers
headers-credentials canonical version key headers = (
  openai_auth-bearer key _
      (withheld-none openai_withheld canonical headers "Authorization" refl refl),
  anthropic_auth-other version key "Authorization" _ refl refl
      ∙ withheld-none anthropic_withheld canonical headers "Authorization" refl refl,
  anthropic_auth-api_key version key _
      (withheld-none anthropic_withheld canonical headers "X-Api-Key" refl refl),
)
