-- ===== src/Core/Discovery/Health.antt =====
-- A poll that puts a server in service.
use proxy_lm_go.Common.{ℤ, String, ◌≡◌, refl, ◌∙◌, inl, inr, true, false, ◌&&◌, List, Bool-cases}
use proxy_lm_go.Core.Models.{ServerInfo, wake, set_loaded_models}
use proxy_lm_go.Core.Discovery.{
  Listed, listed, list_failed, Probe, no_prober, unsupported, probe_failed, probed_models,
  DiscoveryEntry, has_explicit, set_models, probe_loaded_models, mark_healthy, poll_succeeded,
  poll_one,
}

-- The poll counts as a failure for an entry with these explicit models.
abbrev pub CountsAsFailure : List String → Listed × Probe → Type 0
CountsAsFailure explicit_models (listed models, probe) = ⊥
CountsAsFailure explicit_models (list_failed shape_err, probe) =
    (has_explicit explicit_models && shape_err) ≡ false

healthy-probe_loaded_models :
    (p : Probe) (s : ServerInfo) → (probe_loaded_models p s).healthy ≡ s.healthy
unfolding probe_loaded_models set_loaded_models
healthy-probe_loaded_models no_prober s = refl
healthy-probe_loaded_models unsupported s = refl
healthy-probe_loaded_models probe_failed s = refl
healthy-probe_loaded_models (probed_models loaded) s = refl

notify-probe_loaded_models :
    (p : Probe) (s : ServerInfo) → (probe_loaded_models p s).notify ≡ s.notify
unfolding probe_loaded_models set_loaded_models
notify-probe_loaded_models no_prober s = refl
notify-probe_loaded_models unsupported s = refl
notify-probe_loaded_models probe_failed s = refl
notify-probe_loaded_models (probed_models loaded) s = refl

-- In service, with no failure counted, and woken if it was out of service before.
pub record InService (before : ServerInfo) (e : DiscoveryEntry) : Type 0 where
  pub healthy : e.server.healthy ≡ true
  pub no_failure : e.failed_polls ≡ 0
  pub woken : before.healthy ≡ false → e.server.notify ≡ true

mark_healthy-healthy : (s : ServerInfo) → (mark_healthy s).healthy ≡ true
unfolding mark_healthy wake
mark_healthy-healthy s = elim (Bool-cases s.healthy) [ inl h ↦ simp h refl | inr h ↦ simp h refl ]

mark_healthy-notify : (s : ServerInfo) → s.healthy ≡ false → (mark_healthy s).notify ≡ true
unfolding mark_healthy wake
mark_healthy-notify s h = simp h refl

poll_succeeded-InService :
    (p : Probe) (e : DiscoveryEntry) → InService e.server (poll_succeeded p e)
unfolding poll_succeeded
poll_succeeded-InService p e = record {
  healthy = healthy-probe_loaded_models p _ ∙ mark_healthy-healthy e.server;
  no_failure = refl;
  woken = λ h. notify-probe_loaded_models p _ ∙ mark_healthy-notify e.server h;
}

-- A poll that does not count as a failure (the server answers, or it has explicit models and its answer
-- has the wrong shape) puts the server in service, clears the counter, and wakes its worker if the
-- server was out of service.
pub poll_one-InService :
    (t : ℤ) (l : Listed) (p : Probe) (e : DiscoveryEntry)
    → (CountsAsFailure e.explicit_models (l, p) → ⊥)
    → InService e.server (poll_one t l p e)
unfolding poll_one set_models
poll_one-InService t (listed models) p e h = elim (Bool-cases (has_explicit e.explicit_models)) [
  | inl b ↦ rw b (poll_succeeded-InService p e)
  | inr b ↦ rw b (with_models (poll_succeeded-InService p e))
]
  where
    with_models :
        InService e.server (poll_succeeded p e)
        → InService e.server (record (poll_succeeded p e) {
          server = set_models ((poll_succeeded p e).server) models;
        })
    with_models r = record { healthy = r.healthy; no_failure = r.no_failure; woken = r.woken }
poll_one-InService t (list_failed shape) p e h =
    elim (Bool-cases (has_explicit e.explicit_models && shape)) [
      | inl b ↦ rw b (poll_succeeded-InService p e)
      | inr b ↦ absurd (h b)
    ]
