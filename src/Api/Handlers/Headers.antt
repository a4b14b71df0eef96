-- ===== src/Api/Handlers/Headers.antt =====
-- internal/api/routes_openai.go, `copyHeaders`, and internal/core/backends/openai.go, `HopByHopHeaders`.
use proxy_lm_go.Common.{
  String, ◌==◌, ◌≡◌, refl, sym, ap, ◌∙◌, eq_iff, inl, inr, true, false, Bool-cases, true≢false,
  List, [], ◌∷◌, ◌++◌, contains, if◌then◌else◌,
}
use proxy_lm_go.Api.Handlers.{Header}

-- `HopByHopHeaders`
abbrev pub hop_by_hop_headers : List String
hop_by_hop_headers =
    "Connection" ∷ "Keep-Alive" ∷ "Proxy-Authenticate" ∷ "Proxy-Authorization" ∷ "Te" ∷ "Trailer"
    ∷ "Transfer-Encoding" ∷ "Upgrade" ∷ []

-- `h[k]`
unfoldable pub values : Header → String → List String
values [] k = []
values (e ∷ h) k = if e.0 == k then e.1 else values h k

-- `h[k] = append(h[k], vs...)`, which the loop of `Add` does.
unfoldable pub add_values : Header → String → List String → Header
add_values [] k vs = (k, vs) ∷ []
add_values (e ∷ h) k vs =
    let rest = add_values h k vs in if e.0 == k then (k, e.1 ++ vs) ∷ h else e ∷ rest

-- `copyHeaders`
unfoldable pub copy_headers : (String → String) → Header → Header → Header
copy_headers canonical dst [] = dst
copy_headers canonical dst (e ∷ src) =
    copy_headers canonical
      (if contains hop_by_hop_headers (canonical e.0)
        then dst
        else add_values dst (canonical e.0) e.1)
      src

pub values-add_other :
    (h : Header) (k other : String) (vs : List String)
    → k == other ≡ false
    → values (add_values h k vs) other ≡ values h other
unfolding values add_values
values-add_other [] k other vs d = simp d
values-add_other (e ∷ h) k other vs d = elim (Bool-cases (e.0 == k)) [
  | inl q ↦ simp (q, ap (λ x. x == other) ((eq_iff e.0 k).0 q) ∙ d, d)
  | inr q ↦ elim (Bool-cases (e.0 == other)) [
    | inl r ↦ simp (q, r)
    | inr r ↦ simp (q, r, values-add_other h k other vs d)
  ]
]

not_hop :
    (k hop : String)
    → contains hop_by_hop_headers hop ≡ true
    → contains hop_by_hop_headers k ≡ false
    → k == hop ≡ false
not_hop k hop h q = elim (Bool-cases (k == hop)) [
  | inl r ↦
      absurd (true≢false (sym h ∙ ap (contains hop_by_hop_headers) (sym ((eq_iff k hop).0 r)) ∙ q))
  | inr r ↦ r
]

-- No hop-by-hop header of a response reaches the client: copying leaves those of the client as they
-- are, whatever the source has.
pub copy_headers-hop :
    (canonical : String → String) (dst src : Header) (hop : String)
    → contains hop_by_hop_headers hop ≡ true
    → values (copy_headers canonical dst src) hop ≡ values dst hop
unfolding copy_headers
copy_headers-hop canonical dst [] hop h = refl
copy_headers-hop canonical dst (e ∷ src) hop h =
    elim (Bool-cases (contains hop_by_hop_headers (canonical e.0))) [
      | inl q ↦ rw q (copy_headers-hop canonical dst src hop h)
      | inr q ↦ rw q (
          copy_headers-hop canonical (add_values dst (canonical e.0) e.1) src hop h
          ∙ values-add_other dst (canonical e.0) hop e.1 (not_hop (canonical e.0) hop h q))
    ]
