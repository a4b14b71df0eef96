-- ===== src/Core/Scheduler/Worker.antt =====
-- internal/core/scheduler.go: the inner loop of `worker` in the push mode. What the clocks and `Run` do
-- in each round is given, and so is what the rest of the program does to the server in the meantime:
-- Submit adds jobs and takes them back, and the polls write the health. The loop runs on fuel.
use proxy_lm_go.Common.{
  ℕ, zero, suc, ◌+◌, ◌≤◌, ◌<◌, ◌≡◌, refl, sym, subst, ◌⊎◌, Bool, true, false, Option, none, some,
  List, [], ◌∷◌, arith, if◌then◌else◌, length, append-nil, map, ◌&&◌,
}
use proxy_lm_go.Core.Models.{Err, Job, ServerInfo}
use proxy_lm_go.Core.Perf.{PerfTracker}
use proxy_lm_go.Core.Scheduler.Queue.{pick_next, fail_pending, Message}
use proxy_lm_go.Core.Scheduler.Queue.Picked.{pick_next-Next}
use proxy_lm_go.Core.Scheduler.Meanwhile.{
  Meanwhile, meanwhile, joined, meanwhile-length, Shorter, Next-Shorter,
}
use proxy_lm_go.Core.Scheduler.Dispatch.{Float64, Attempt, dispatch, run_with_panic_guard}
use proxy_lm_go.Core.Scheduler.Crash.{crashed, dispatch-Left}

module _ (fl : Float64) where
  -- One round: what has happened when it starts, whether the context has ended then, the clock, what
  -- happens while the job runs, and the attempt.
  pub record WorkRound : Type 0 where
    pub before : List Meanwhile
    pub context_done : Option Err
    pub now : ℕ
    pub during : List Meanwhile
    pub attempt : Attempt fl

  -- The worker waits for the next signal, with the server then and the jobs that it took; or the
  -- context has ended, with the messages that fail the waiting jobs; or the fuel of the model ran out.
  pub data Worked : Type 0 where
    waits : ServerInfo → List Job → Worked
    shut_down : ServerInfo → List Job → List Message → Worked
    out_of_fuel : Worked

  abbrev pub taking : Job → Worked → Worked
  taking j (waits s jobs) = waits s (j ∷ jobs)
  taking j (shut_down s jobs sent) = shut_down s (j ∷ jobs) sent
  taking j out_of_fuel = out_of_fuel

  -- `dispatch` reads the queue and the health only after `Run`.
  abbrev pub work_on :
      (ServerInfo → Option PerfTracker → Worked)
      → WorkRound
      → Option PerfTracker
      → ServerInfo × Option Job
      → Worked
  work_on rest round perf (s, none) = waits s []
  work_on rest round perf (s, some j) =
      let d = dispatch fl (meanwhile (round.during) s) j (round.now) (round.attempt) perf in
      taking j (rest (d.server) (d.perf))

  -- The test of the context, before a job is taken.
  abbrev pub unless_done : Option Err → ServerInfo → Worked → Worked
  unless_done none s rest = rest
  unless_done (some e) s rest =
      let (stopped_server, _, sent) = fail_pending s none e in shut_down stopped_server [] sent

  unfoldable pub work : (ℕ → WorkRound) → ℕ → ServerInfo → Option PerfTracker → Worked
  work env zero s perf = out_of_fuel
  work env (suc fuel) s perf =
      let round = env fuel in
      let current = meanwhile (round.before) s in
      unless_done (round.context_done) current
        (work_on (work env fuel) round perf (pick_next current))

  -- The jobs added in the rounds that the fuel allows.
  unfoldable pub added : (ℕ → WorkRound) → ℕ → ℕ
  added env zero = 0
  added env (suc fuel) = joined ((env fuel).before) + joined ((env fuel).during) + added env fuel

  -- The worker waits, and its server is out of service or has an empty queue; or it was shut down, and its
  -- queue is empty. The jobs taken, and the messages sent at the shutdown, are at most `jobs_seen`.
  pub data Idle (jobs_seen : ℕ) : Worked → Type 0 where
    idle :
        (s : ServerInfo) (jobs : List Job)
        → (s.healthy ≡ false) ⊎ (s.queue ≡ [])
        → length jobs ≤ jobs_seen
        → Idle jobs_seen (waits s jobs)
    stopped :
        (s : ServerInfo) (jobs : List Job) (sent : List Message)
        → s.queue ≡ []
        → length jobs + length sent ≤ jobs_seen
        → Idle jobs_seen (shut_down s jobs sent)

  taking-Idle : (n m : ℕ) (j : Job) {w : Worked} → suc n ≤ m → Idle n w → Idle m (taking j w)
  taking-Idle n m j more (idle s jobs h l) = idle s (j ∷ jobs) h (omega (arith, l, more))
  taking-Idle n m j more (stopped s jobs sent e l) =
      stopped s (j ∷ jobs) sent e (omega (arith, l, more))

  waiting_after :
      (s : ServerInfo) (j : Job) (now : ℕ) (a : Attempt fl) (perf : Option PerfTracker)
      → length (dispatch fl s j now a perf).server.queue ≤ length s.queue
  waiting_after s j now a perf =
      rw ((dispatch-Left fl s j now a perf).waiting)
        (cut (crashed (run_with_panic_guard a.outcome) && s.healthy))
    where
      cut : (b : Bool) → length (if b then [] else s.queue) ≤ length s.queue
      cut true = omega arith
      cut false = omega arith

  length-map_sent : (f : Job → Message) (q : List Job) → length (map f q) ≡ length q
  length-map_sent f [] = refl
  length-map_sent f (j ∷ q) = omega (arith, length-map_sent f q)

  unless_done-Idle :
      (n : ℕ) (o : Option Err) (s : ServerInfo) {w : Worked}
      → length s.queue ≤ n
      → Idle n w
      → Idle n (unless_done o s w)
  unfolding fail_pending
  unless_done-Idle n none s l h = h
  unless_done-Idle n (some e) s l h =
      stopped _ [] _ refl (rw append-nil (omega (arith, l, length-map_sent _ s.queue)))

  -- A job that is taken makes the queue shorter, whatever its attempt does.
  work_on-Idle :
      (n more : ℕ) (s : ServerInfo) (rest : ServerInfo → Option PerfTracker → Worked)
      (round : WorkRound) (perf : Option PerfTracker) (r : ServerInfo × Option Job)
      → ((t : ServerInfo) (p : Option PerfTracker)
          → length t.queue < length s.queue + joined round.during
          → Idle (length t.queue + more) (rest t p))
      → length s.queue + joined round.during + more ≤ n
      → Shorter s r
      → Idle n (work_on rest round perf r)
  work_on-Idle n more s rest round perf (t, none) h enough (same, e) =
      idle t [] (subst (λ x. (x.healthy ≡ false) ⊎ (x.queue ≡ [])) (sym same) e) (omega arith)
  work_on-Idle n more s rest round perf (t, some j) h enough shorter =
      let kept = waiting_after (meanwhile round.during t) j round.now round.attempt perf in
      let after = (dispatch fl (meanwhile round.during t) j round.now round.attempt perf).server in
      let less : length after.queue < length s.queue + joined round.during =
        omega (arith, kept, shorter, meanwhile-length round.during t) in
      taking-Idle _ n j (omega (arith, less, enough)) (h after _ less)

  -- After a signal the worker's loop in the push mode ends, if the fuel is more than the number of jobs
  -- that wait or are added in its rounds, whatever is added, taken back and polled meanwhile: it waits for
  -- the next signal only when its server, as it is when the last pick is made, is out of service or has an
  -- empty queue; or the context has ended and the queue was emptied. The jobs taken, and the messages sent
  -- when the context has ended, are together at most the jobs that waited or were added.
  pub work-Idle :
      (env : ℕ → WorkRound) (fuel : ℕ) (s : ServerInfo) (perf : Option PerfTracker)
      → length s.queue + added env fuel < fuel
      → Idle (length s.queue + added env fuel) (work env fuel s perf)
  unfolding work added
  work-Idle env zero s perf enough = absurd (omega arith)
  work-Idle env (suc fuel) s perf enough =
      let current = meanwhile (env fuel).before s in
      let grown = meanwhile-length (env fuel).before s in
      unless_done-Idle _ ((env fuel).context_done) current (omega (arith, grown)) (
        work_on-Idle _ (added env fuel) current (work env fuel) (env fuel) perf (pick_next current)
          (λ t p shorter. work-Idle env fuel t p (omega (arith, shorter, grown, enough)))
          (omega (arith, grown)) (Next-Shorter current (pick_next-Next current)))
