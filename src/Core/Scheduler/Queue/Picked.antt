-- ===== src/Core/Scheduler/Queue/Picked.antt =====
-- `pickNext` and `cancelQueued`: INV-2, the switch of models, and the order of the push queue.
use proxy_lm_go.Common.{
  String, ◌==◌, ◌≡◌, refl, ◌⊎◌, inl, inr, Bool, true, false, Option, none, some, List, [], ◌∷◌,
  ◌++◌, NoneOf, eq_iff, take_first, Takes, found, missing, take_first-Takes, Bool-cases,
  if◌then◌else◌,
}
use proxy_lm_go.Core.Models.{Job, ServerInfo, set_current_model}
use proxy_lm_go.Core.Pool.{has_current}
use proxy_lm_go.Core.Scheduler.Queue.{
  cancelled, cancel_queued, is_current, take_head, drained, pick_next,
}

-- What `pickNext` may do with a server.
pub data Next (s : ServerInfo) : ServerInfo × Option Job → Type 0 where
  idles : (s.healthy ≡ false) ⊎ (s.queue ≡ []) → Next s (s, none)
  continues :
      (before : List Job) (j : Job) (after : List Job)
      → s.healthy ≡ true
      → s.queue ≡ before ++ (j ∷ after)
      → has_current s ≡ true
      → is_current s j ≡ true
      → NoneOf (is_current s) before
      → Next s (record s { queue = before ++ after }, some j)
  changes :
      (j : Job) (rest : List Job)
      → s.healthy ≡ true
      → s.queue ≡ j ∷ rest
      → (has_current s ≡ false) ⊎ NoneOf (is_current s) s.queue
      → Next s (set_current_model (record s { queue = rest }) j.model, some j)

take_head-Next :
    (s : ServerInfo) (q : List Job)
    → s.healthy ≡ true
    → s.queue ≡ q
    → (has_current s ≡ false) ⊎ NoneOf (is_current s) s.queue
    → Next s (take_head s q)
take_head-Next s [] h e n = idles (inr e)
take_head-Next s (j ∷ rest) h e n = changes j rest h e n

drained-Next :
    (s : ServerInfo) {r : Option (Job × List Job)}
    → s.healthy ≡ true
    → has_current s ≡ true
    → Takes (is_current s) s.queue r
    → Next s (drained s r)
drained-Next s h c (found before j after e p n) = continues before j after h e c p n
drained-Next s h c (missing n) = take_head-Next s s.queue h refl (inr n)

-- INV-2: a healthy server takes the oldest job for its loaded model; only when there is none does it
-- take the oldest job of all, whose model becomes the loaded one; and it takes none only if it is not
-- healthy or its queue is empty. The order of the other jobs stays.
pub pick_next-Next : (s : ServerInfo) → Next s (pick_next s)
unfolding pick_next
pick_next-Next s = elim (Bool-cases s.healthy) [
  | inl h ↦ simp h (healthy h)
  | inr h ↦ simp h (idles (inl h))
]
  where
    healthy :
        s.healthy ≡ true
        → Next s (drained s (if has_current s then take_first (is_current s) s.queue else none))
    healthy h = elim (Bool-cases (has_current s)) [
      | inl c ↦ rw c (drained-Next s h c (take_first-Takes (is_current s) s.queue))
      | inr c ↦ rw c (take_head-Next s s.queue h refl (inl c))
    ]

-- What `cancelQueued` may do: it removes the oldest job with the ID, or there is none.
pub data Cancels (s : ServerInfo) (id : String) : ServerInfo × Bool → Type 0 where
  removes :
      (before : List Job) (j : Job) (after : List Job)
      → s.queue ≡ before ++ (j ∷ after)
      → j.id ≡ id
      → NoneOf (λ k. k.id == id) before
      → Cancels s id (record s { queue = before ++ after }, true)
  absent : NoneOf (λ k. k.id == id) s.queue → Cancels s id (s, false)

cancelled-Cancels :
    (s : ServerInfo) (id : String) {r : Option (Job × List Job)}
    → Takes (λ j. j.id == id) s.queue r
    → Cancels s id (cancelled s r)
cancelled-Cancels s id (found before j after e p n) =
    removes before j after e ((eq_iff j.id id).0 p) n
cancelled-Cancels s id (missing n) = absent n

-- `cancelQueued` removes the oldest job with the ID and keeps the others in their order, and answers
-- true; it answers false and changes nothing exactly when no job in the queue has the ID.
pub cancel_queued-Cancels : (s : ServerInfo) (id : String) → Cancels s id (cancel_queued s id)
unfolding cancel_queued
cancel_queued-Cancels s id = cancelled-Cancels s id (take_first-Takes (λ j. j.id == id) s.queue)
