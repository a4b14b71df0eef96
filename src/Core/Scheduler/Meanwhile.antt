-- ===== src/Core/Scheduler/Meanwhile.antt =====
-- internal/core/scheduler.go and discovery.go: what Submit (`runOnServer`, `cancelQueued`) and the polls do
-- to a server while its worker is in a round.
use proxy_lm_go.Common.{
  String, ℕ, suc, ◌+◌, ◌≤◌, ◌<◌, ◌≡◌, refl, ap, ◌⊎◌, Bool, false, Option, none, some, List, [], ◌∷◌,
  arith, length, length-append,
}
use proxy_lm_go.Core.Models.{Job, ServerInfo}
use proxy_lm_go.Core.Scheduler.Queue.{enqueue, cancel_queued}
use proxy_lm_go.Core.Scheduler.Queue.Picked.{
  Next, idles, continues, changes, Cancels, removes, absent, cancel_queued-Cancels,
}
use proxy_lm_go.Core.Scheduler.Queue.Settled.{queue-set_current_model}

-- A job is added, a job is taken back, a poll writes the health. The models that a poll also writes are not
-- read by the loop.
pub data Meanwhile : Type 0 where
  joins : Job → Meanwhile
  leaves : String → Meanwhile
  turns : Bool → Meanwhile

unfoldable pub meanwhile : List Meanwhile → ServerInfo → ServerInfo
meanwhile [] s = s
meanwhile (joins j ∷ ms) s = meanwhile ms (enqueue s j)
meanwhile (leaves id ∷ ms) s = meanwhile ms (cancel_queued s id).0
meanwhile (turns healthy ∷ ms) s = meanwhile ms (record s { healthy = healthy })

-- How many jobs are added.
unfoldable pub joined : List Meanwhile → ℕ
joined [] = 0
joined (joins j ∷ ms) = suc (joined ms)
joined (leaves id ∷ ms) = joined ms
joined (turns healthy ∷ ms) = joined ms

Cancels-length :
    (s : ServerInfo) (id : String) {r : ServerInfo × Bool}
    → Cancels s id r
    → length r.0.queue ≤ length s.queue
Cancels-length s id (removes before j after e p n) =
    omega (arith, ap length e, length-append before (j ∷ after), length-append before after)
Cancels-length s id (absent n) = omega arith

pub meanwhile-length :
    (ms : List Meanwhile) (s : ServerInfo)
    → length (meanwhile ms s).queue ≤ length s.queue + joined ms
unfolding meanwhile joined enqueue
meanwhile-length [] s = omega arith
meanwhile-length (joins j ∷ ms) s =
    omega (arith, meanwhile-length ms (enqueue s j), length-append s.queue (j ∷ []))
meanwhile-length (leaves id ∷ ms) s = omega (
  arith,
  meanwhile-length ms (cancel_queued s id).0,
  Cancels-length s id (cancel_queued-Cancels s id),
)
meanwhile-length (turns healthy ∷ ms) s = meanwhile-length ms (record s { healthy = healthy })

-- The queue after a pick: one job less, if one was taken.
abbrev pub Shorter : ServerInfo → ServerInfo × Option Job → Type 0
Shorter s (t, none) = (t ≡ s) × ((s.healthy ≡ false) ⊎ (s.queue ≡ []))
Shorter s (t, some j) = length t.queue < length s.queue

pub Next-Shorter : (s : ServerInfo) {r : ServerInfo × Option Job} → Next s r → Shorter s r
Next-Shorter s (idles e) = (refl, e)
Next-Shorter s (continues before j after healthy up c p n) =
    omega (arith, ap length up, length-append before (j ∷ after), length-append before after)
Next-Shorter s (changes j waiting up e n) =
    omega (
      arith,
      ap length (queue-set_current_model (record s { queue = waiting }) j.model),
      ap length e,
    )
