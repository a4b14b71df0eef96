-- ===== src/Core/Scheduler/Queue/Settled.antt =====
-- internal/core/scheduler.go: the push queue over whole histories, with what comes in, leaves and waits.

use mathlib.Core.List.Perm
use proxy_lm_go.Common.{
  String, ◌==◌, ◌≡◌, refl, sym, ap, subst, inl, inr, Bool, true, false, Option, none, some, List,
  [], ◌∷◌, ◌++◌, map, append-nil, append_assoc, Perm, perm_middle, Bool-cases,
}
use proxy_lm_go.Core.Models.{Err, Job, JobResult, zero_result, ServerInfo, set_current_model}
use proxy_lm_go.Core.Scheduler.Queue.{enqueue, cancel_queued, pick_next, fail_server_queue, Message}
use proxy_lm_go.Core.Scheduler.Queue.Picked.{
  Next, idles, continues, changes, pick_next-Next, Cancels, removes, absent, cancel_queued-Cancels,
}

-- What happens to a push queue: Submit adds a job or takes it back, the worker takes one, a crash of
-- the server fails them all.
pub data QueueEvent : Type 0 where
  enqueues : Job → QueueEvent
  picks : QueueEvent
  cancels : String → QueueEvent
  crashes : Err → QueueEvent

unfoldable pub queue_step : ServerInfo → QueueEvent → ServerInfo
queue_step s (enqueues j) = enqueue s j
queue_step s picks = (pick_next s).0
queue_step s (cancels id) = (cancel_queued s id).0
queue_step s (crashes e) = (fail_server_queue s e).0

abbrev pub ids : List Job → List String
ids = map (λ j. j.id)

abbrev picked_id : Option Job → List String
picked_id none = []
picked_id (some j) = j.id ∷ []

abbrev cancelled_id : String → Bool → List String
cancelled_id id true = id ∷ []
cancelled_id id false = []

abbrev pub enqueued : QueueEvent → List String
enqueued (enqueues j) = j.id ∷ []
enqueued picks = []
enqueued (cancels id) = []
enqueued (crashes e) = []

-- The IDs that a step settles: the job that the worker takes, the one that `cancelQueued` reports as
-- cancelled, those that a message fails.
unfoldable pub settled : ServerInfo → QueueEvent → List String
settled s (enqueues j) = []
settled s picks = picked_id (pick_next s).1
settled s (cancels id) = cancelled_id id (cancel_queued s id).1
settled s (crashes e) = map (λ (m : Message). m.0) (fail_server_queue s e).1

unfoldable pub all_enqueued : List QueueEvent → List String
all_enqueued [] = []
all_enqueued (e ∷ es) = enqueued e ++ all_enqueued es

unfoldable pub all_settled : ServerInfo → List QueueEvent → List String
all_settled s [] = []
all_settled s (e ∷ es) = settled s e ++ all_settled (queue_step s e) es

unfoldable pub queue_after : ServerInfo → List QueueEvent → ServerInfo
queue_after s [] = s
queue_after s (e ∷ es) = queue_after (queue_step s e) es

map_ids : (before after : List Job) → ids (before ++ after) ≡ ids before ++ ids after
map_ids [] after = refl
map_ids (j ∷ before) after = ap (◌∷◌ j.id) (map_ids before after)

ids-middle :
    (q before : List Job) (j : Job) (after : List Job)
    → q ≡ before ++ (j ∷ after)
    → Perm (ids q) (j.id ∷ ids (before ++ after))
ids-middle q before j after e =
    rw (e, map_ids before (j ∷ after), map_ids before after) (perm_middle (ids before) (ids after))

pub queue-set_current_model :
    (s : ServerInfo) (m : String) → (set_current_model s m).queue ≡ s.queue
unfolding set_current_model
queue-set_current_model s m = elim (Bool-cases (m == "")) [ inl e ↦ rw e refl | inr e ↦ rw e refl ]

Next-settled :
    (s : ServerInfo) {r : ServerInfo × Option Job}
    → Next s r
    → Perm (ids s.queue) (picked_id r.1 ++ ids r.0.queue)
Next-settled s (idles h) = Perm.refl _
Next-settled s (continues before j after h e c p n) = ids-middle s.queue before j after e
Next-settled s (changes j rest h e n) =
    rw (queue-set_current_model (record s { queue = rest }) j.model, e) (Perm.refl _)

Cancels-settled :
    (s : ServerInfo) (id : String) {r : ServerInfo × Bool}
    → Cancels s id r
    → Perm (ids s.queue) (cancelled_id id r.1 ++ ids r.0.queue)
Cancels-settled s id (removes before j after e p n) =
    subst (λ i. Perm (ids s.queue) (i ∷ ids (before ++ after))) p
      (ids-middle s.queue before j after e)
Cancels-settled s id (absent n) = Perm.refl _

messages-ids :
    (f : Job → JobResult) (q : List Job)
    → map (λ (m : Message). m.0) (map (λ (j : Job). (j.id, f j)) q) ≡ ids q
messages-ids f [] = refl
messages-ids f (j ∷ q) = ap (◌∷◌ j.id) (messages-ids f q)

queue_step-settled :
    (s : ServerInfo) (e : QueueEvent)
    → Perm (ids s.queue ++ enqueued e) (settled s e ++ ids (queue_step s e).queue)
unfolding queue_step settled enqueue fail_server_queue
queue_step-settled s (enqueues j) = rw (map_ids s.queue (j ∷ [])) (Perm.refl _)
queue_step-settled s picks = rw append-nil (Next-settled s (pick_next-Next s))
queue_step-settled s (cancels id) =
    rw append-nil (Cancels-settled s id (cancel_queued-Cancels s id))
queue_step-settled s (crashes e) =
    rw
      (
        append-nil,
        messages-ids (λ j. record zero_result { err = some e; server = s.name }) s.queue,
        append-nil,
      )
      (Perm.refl _)

-- Whatever the submitters, the worker and a crash do, in any order: the IDs that wait at the start
-- and those that are enqueued are, each as often, the IDs that are settled (taken by the worker,
-- reported as cancelled, or failed by a message) and those that wait at the end.
pub queue-settled :
    (s : ServerInfo) (es : List QueueEvent)
    → Perm (ids s.queue ++ all_enqueued es) (all_settled s es ++ ids (queue_after s es).queue)
unfolding all_enqueued all_settled queue_after
queue-settled s [] = rw append-nil (Perm.refl _)
queue-settled s (e ∷ es) =
    rw
      (
        append_assoc (settled s e) (all_settled (queue_step s e) es)
            (ids (queue_after (queue_step s e) es).queue),
        sym (append_assoc (ids s.queue) (enqueued e) (all_enqueued es)),
      )
      (Perm.trans (Perm.append_right (all_enqueued es) (queue_step-settled s e)) (
        rw (append_assoc (settled s e) (ids (queue_step s e).queue) (all_enqueued es))
          (Perm.append_left (settled s e) (queue-settled (queue_step s e) es))))
