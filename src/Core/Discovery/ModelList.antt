-- ===== src/Core/Discovery/ModelList.antt =====
-- Which models a server has after a poll: the configured ones, or those of the last answer.
use proxy_lm_go.Common.{
  ℤ, String, ◌==◌, ◌≡◌, refl, sym, ap, subst, ◌∙◌, Bool, true, false, not, ◌&&◌, ◌||◌, List, [],
  ◌∷◌, arith, eq_iff, inl, inr, any, contains, leb_ℤ, pos, ◌+◌, Bool-cases,
}
use proxy_lm_go.Core.Models.{ServerInfo, has_model, wake, set_loaded_models}
use proxy_lm_go.Core.Discovery.{
  Listed, listed, list_failed, Probe, no_prober, unsupported, probe_failed, probed_models,
  DiscoveryEntry, has_explicit, set_models, to_model_infos, entry_of, probe_loaded_models,
  mark_healthy, poll_failed, poll_succeeded, poll_one,
}

unfoldable poll_times : ℤ → List (Listed × Probe) → DiscoveryEntry → DiscoveryEntry
poll_times unhealthy_after [] e = e
poll_times unhealthy_after (p ∷ ps) e =
    poll_times unhealthy_after ps (poll_one unhealthy_after p.0 p.1 e)

name_step :
    (n model : String) (b : Bool)
    → (n == "") ≡ true
    → (b && not (model == "")) ≡ (((n == model) || b) && not (model == ""))
name_step n model b h = rw ((eq_iff n "").0 h) (empty_name (eq_sym model))
  where
    eq_sym : (m : String) → ("" == m) ≡ true → (m == "") ≡ true
    eq_sym m q = (eq_iff m "").1 (sym ((eq_iff "" m).0 q))

    empty_name :
        (("" == model) ≡ true → (model == "") ≡ true)
        → (b && not (model == "")) ≡ ((("" == model) || b) && not (model == ""))
    empty_name k = ground (arith, k)

any-to_model_infos :
    (names : List String) (model : String)
    → any (λ m. m.name == model) (to_model_infos names)
      ≡ (contains names model && not (model == ""))
unfolding to_model_infos
any-to_model_infos [] model = refl
any-to_model_infos (n ∷ names) model = elim (Bool-cases (n == "")) [
  | inl e ↦ rw e (any-to_model_infos names model ∙ name_step n model (contains names model) e)
  | inr e ↦ rw e (ap (λ b. (n == model) || b) (any-to_model_infos names model) ∙ kept e)
]
  where
    kept :
        (n == "") ≡ false
        → ((n == model) || (contains names model && not (model == "")))
          ≡ (((n == model) || contains names model) && not (model == ""))
    kept e = elim (Bool-cases (n == model)) [
      | inl q ↦ rw (q, subst (λ m. (m == "") ≡ false) ((eq_iff n model).0 q) e) refl
      | inr q ↦ rw q refl
    ]

-- A server whose models are set from a list of names has a model exactly when its name is in the list
-- and is not empty.
pub has_model-set_models :
    (s : ServerInfo) (names : List String) (model : String)
    → has_model (set_models s names) model ≡ (contains names model && not (model == ""))
unfolding has_model set_models
has_model-set_models s names model = any-to_model_infos names model

models-probe : (p : Probe) (s : ServerInfo) → (probe_loaded_models p s).models ≡ s.models
unfolding probe_loaded_models set_loaded_models
models-probe no_prober s = refl
models-probe unsupported s = refl
models-probe probe_failed s = refl
models-probe (probed_models loaded) s = refl

models-mark_healthy : (s : ServerInfo) → (mark_healthy s).models ≡ s.models
unfolding mark_healthy wake
models-mark_healthy s = elim (Bool-cases s.healthy) [ inl h ↦ simp h refl | inr h ↦ simp h refl ]

models-poll_succeeded :
    (p : Probe) (e : DiscoveryEntry) → (poll_succeeded p e).server.models ≡ e.server.models
unfolding poll_succeeded
models-poll_succeeded p e = models-probe p (mark_healthy e.server) ∙ models-mark_healthy e.server

models-poll_failed :
    (t : ℤ) (e : DiscoveryEntry) → (poll_failed t e).server.models ≡ e.server.models
unfolding poll_failed
models-poll_failed t e =
    elim (Bool-cases (leb_ℤ t (pos (e.failed_polls + 1)) && e.server.healthy)) [
      | inl h ↦ rw h refl
      | inr h ↦ rw h refl
    ]

-- The models and the configuration of an entry stay as they are.
abbrev Unchanged : DiscoveryEntry → DiscoveryEntry → Type 0
Unchanged e e' = (e'.server.models ≡ e.server.models) × (e'.explicit_models ≡ e.explicit_models)

succeeded-Unchanged : (p : Probe) (e : DiscoveryEntry) → Unchanged e (poll_succeeded p e)
unfolding poll_succeeded
succeeded-Unchanged p e = (models-poll_succeeded p e, refl)

failed-Unchanged : (t : ℤ) (e : DiscoveryEntry) → Unchanged e (poll_failed t e)
unfolding poll_failed
failed-Unchanged t e = (models-poll_failed t e, refl)

poll_one-Unchanged :
    (t : ℤ) (l : Listed) (p : Probe) (e : DiscoveryEntry)
    → has_explicit e.explicit_models ≡ true
    → Unchanged e (poll_one t l p e)
unfolding poll_one
poll_one-Unchanged t (listed models) p e h = rw h (succeeded-Unchanged p e)
poll_one-Unchanged t (list_failed shape) p e h =
    elim (Bool-cases (has_explicit e.explicit_models && shape)) [
      | inl b ↦ rw b (succeeded-Unchanged p e)
      | inr b ↦ rw b (failed-Unchanged t e)
    ]

poll_times-Unchanged :
    (t : ℤ) (ps : List (Listed × Probe)) (e : DiscoveryEntry)
    → has_explicit e.explicit_models ≡ true
    → Unchanged e (poll_times t ps e)
unfolding poll_times
poll_times-Unchanged t [] e h = (refl, refl)
poll_times-Unchanged t (p ∷ ps) e h =
    let (m, x) = poll_one-Unchanged t p.0 p.1 e h in
    let (m', x') = poll_times-Unchanged t ps (poll_one t p.0 p.1 e) (ap has_explicit x ∙ h) in
    (m' ∙ m, x' ∙ x)

-- FR-25: a server that is added with a list of models in the configuration has exactly the models with
-- a name of that list that is not empty, after any number of polls with any outcomes.
poll_times-explicit :
    (t : ℤ) (ps : List (Listed × Probe)) (s : ServerInfo) (explicit_models : List String)
    (model : String)
    → has_explicit explicit_models ≡ true
    → has_model (poll_times t ps (entry_of s explicit_models)).server model
      ≡ (contains explicit_models model && not (model == ""))
unfolding entry_of has_model set_models
poll_times-explicit t ps s explicit_models model h =
    ap (any (λ m. m.name == model))
      ((poll_times-Unchanged t ps (entry_of s explicit_models) h).0 ∙ initial)
    ∙ any-to_model_infos explicit_models model
  where
    initial : (entry_of s explicit_models).server.models ≡ to_model_infos explicit_models
    initial = rw h refl

-- A server without a list of models in the configuration has, after an answer to a poll, exactly the
-- models with a name of the answer that is not empty; after a poll that fails it has those it had.
pub poll_one-models :
    (t : ℤ) (l : Listed) (p : Probe) (e : DiscoveryEntry) (model : String)
    → has_explicit e.explicit_models ≡ false
    → has_model (poll_one t l p e).server model ≡ elim l [
      | listed names ↦ contains names model && not (model == "")
      | list_failed shape ↦ has_model e.server model
    ]
unfolding poll_one has_model set_models
poll_one-models t (listed names) p e model h = rw h (any-to_model_infos names model)
poll_one-models t (list_failed shape) p e model h =
    rw h (ap (any (λ m. m.name == model)) (models-poll_failed t e))
