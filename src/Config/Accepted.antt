-- ===== src/Config/Accepted.antt =====
-- What `Validate` ensures of the other sections, on which the scheduler and the discovery rely.
use proxy_lm_go.Common.{
  ℤ, pos, ◌≤ℤ◌, String, ◌==◌, ◌≡◌, refl, Bool, true, false, not, Option, none, some, List, [], ◌∷◌,
  arith, All, contains, if◌then◌else◌, or_else, ltb_ℤ, leb_ℤ,
}
use proxy_lm_go.Config.{Proxy, Retry, Discovery, Backend, Config, TextLib, ConfigError}
use proxy_lm_go.Config.Validate.{
  is_valid_port, validate_proxy, validate_auth, strategies, validate_routing, validate_retry,
  validate_discovery, backend_types, validate_backend_url, validate_storage, validate_tui,
  validate_compat, validate_backend, validate_each, validate_backends, validate,
}
use proxy_lm_go.Config.Keys.{unless_error}

both_none : (a b : Option ConfigError) → or_else a b ≡ none → (a ≡ none) × (b ≡ none)
both_none none b h = (refl, h)
both_none (some e) b h = cc

-- A backend that is accepted.
pub record BackendAccepted (lib : TextLib) (b : Backend) : Type 0 where
  pub named : (b.name == "") ≡ false
  pub url : validate_backend_url lib b.url ≡ none
  pub known_type : contains backend_types b.type_name ≡ true
  pub timeout : pos 1 ≤ℤ b.timeout_seconds

-- No backend has the name of an earlier one.
abbrev pub DistinctNames : List String → List Backend → Type 0
DistinctNames seen [] = Unit
DistinctNames seen (b ∷ bs) = (contains seen b.name ≡ false) × DistinctNames (b.name ∷ seen) bs

-- What the parts of the program rely on.
pub record Accepted (lib : TextLib) (c : Config) : Type 0 where
  pub port : (pos 1 ≤ℤ c.proxy.port) × (c.proxy.port ≤ℤ pos 65535)
  pub auth : validate_auth c.auth ≡ none
  pub known_strategy : contains strategies c.routing.strategy ≡ true
  pub attempts : pos 1 ≤ℤ c.retry.max_attempts
  pub backoffs :
      (pos 0 ≤ℤ c.retry.initial_backoff_ms) × (c.retry.initial_backoff_ms ≤ℤ c.retry.max_backoff_ms)
  pub polls :
      (pos 1 ≤ℤ c.discovery.interval_seconds) × (pos 1 ≤ℤ c.discovery.unhealthy_after_failed_polls)
  pub each_backend : All (BackendAccepted lib) c.backends
  pub distinct_backends : DistinctNames [] c.backends

ltb_ℤ-false : (a b : ℤ) → ltb_ℤ a b ≡ false → b ≤ℤ a
ltb_ℤ-false a b h = ground (arith, h)

leb_ℤ-true : (a b : ℤ) → leb_ℤ a b ≡ true → a ≤ℤ b
leb_ℤ-true a b h = ground (arith, h)

not-false : (b : Bool) → not b ≡ false → b ≡ true
not-false true h = refl
not-false false h = cc

else_error : (b : Bool) (e : ConfigError) → (if b then none else some e) ≡ none → b ≡ true
else_error true e h = refl
else_error false e h = cc

port_accepted :
    (lib : TextLib) (p : Proxy)
    → validate_proxy lib p ≡ none
    → (pos 1 ≤ℤ p.port) × (p.port ≤ℤ pos 65535)
unfolding validate_proxy is_valid_port
port_accepted lib p h = (ground (arith, h), ground (arith, h))

retry_accepted :
    (r : Retry)
    → validate_retry r ≡ none
    → (pos 1 ≤ℤ r.max_attempts)
      × (pos 0 ≤ℤ r.initial_backoff_ms)
      × (r.initial_backoff_ms ≤ℤ r.max_backoff_ms)
unfolding validate_retry
retry_accepted r h = (ground (arith, h), ground (arith, h), ground (arith, h))

polls_accepted :
    (d : Discovery)
    → validate_discovery d ≡ none
    → (pos 1 ≤ℤ d.interval_seconds) × (pos 1 ≤ℤ d.unhealthy_after_failed_polls)
unfolding validate_discovery
polls_accepted d h = (ground (arith, h), ground (arith, h))

each_accepted :
    (lib : TextLib) (seen : List String) (bs : List Backend)
    → validate_each lib seen bs ≡ none
    → All (BackendAccepted lib) bs × DistinctNames seen bs
unfolding validate_each validate_backend
each_accepted lib seen [] h = (tt, tt)
each_accepted lib seen (b ∷ bs) h =
    let (named, h1) = unless_error _ _ _ h in
    let (new, h2) = unless_error _ _ _ h1 in
    let (one, others) = both_none _ _ h2 in
    let (url, h3) = both_none _ _ one in
    let (kind, h4) = unless_error _ _ _ h3 in
    let (all_rest, distinct_rest) = each_accepted lib (b.name ∷ seen) bs others in
    (
      (
        record {
          named = named;
          url = url;
          known_type = not-false _ kind;
          timeout = ground (arith, h4);
        },
        all_rest,
      ),
      (new, distinct_rest),
    )

backends_accepted :
    (lib : TextLib) (bs : List Backend)
    → validate_backends lib bs ≡ none
    → All (BackendAccepted lib) bs × DistinctNames [] bs
backends_accepted lib [] h = cc
backends_accepted lib (b ∷ bs) h = each_accepted lib [] (b ∷ bs) h

-- In a configuration in which `Validate` finds no error: the port is one of TCP; the keys are accepted;
-- the strategy is one of the six; at least one attempt is made and the pauses are ordered; the polls
-- have an interval and a limit of at least one; the backends have distinct names that are not empty, an
-- accepted URL, a known type and a timeout of at least a second.
pub validate-Accepted : (lib : TextLib) (c : Config) → validate lib c ≡ none → Accepted lib c
unfolding validate validate_routing
validate-Accepted lib c h =
    let (proxy, h1) = both_none _ _ h in
    let (auth, h2) = both_none _ _ h1 in
    let (routing, h3) = both_none _ _ h2 in
    let (_, h4) = both_none _ _ h3 in
    let (retry, h5) = both_none _ _ h4 in
    let (discovery, h6) = both_none _ _ h5 in
    let (_, h7) = both_none (validate_storage c.storage) _ h6 in
    let (_, h8) = both_none (validate_tui c.tui) _ h7 in
    let (_, backends) = both_none (validate_compat c.compat) _ h8 in
    let (attempts, lower, upper) = retry_accepted c.retry retry in
    let (each, distinct) = backends_accepted lib c.backends backends in
    record {
      port = port_accepted lib c.proxy proxy;
      auth = auth;
      known_strategy = else_error _ _ routing;
      attempts = attempts;
      backoffs = (lower, upper);
      polls = polls_accepted c.discovery discovery;
      each_backend = each;
      distinct_backends = distinct;
    }
