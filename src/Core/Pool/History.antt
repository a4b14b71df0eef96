-- ===== src/Core/Pool/History.antt =====
-- INV-3 over whole histories of the pool: arrivals and pops, interleaved in any way.
use proxy_lm_go.Common.{
  ℤ, String, ◌≡◌, refl, sym, ap, ◌∙◌, Option, none, List, [], ◌∷◌, ◌++◌, append-nil, append_assoc,
  All, All-append,
}
use proxy_lm_go.Core.Models.{Job, ServerInfo}
use proxy_lm_go.Core.Pool.{JobPool, push, pop_for, pop_for_fair_share, pop_for_coverage}
use proxy_lm_go.Core.Pool.Order.{
  Unvisited, of_model, handed, keep-append, InOrder, pop_for-InOrder, pop_for_fair_share-InOrder,
  pop_for_coverage-InOrder,
}

-- What happens to the pool: a job comes in, or a server takes work by one of the strategies.
pub data PoolEvent : Type 0 where
  pushes : Job → PoolEvent
  pops : ServerInfo → PoolEvent
  pops_fair : ServerInfo → ℤ → PoolEvent
  pops_coverage : ServerInfo → List ServerInfo → PoolEvent

unfoldable pub pool_step : JobPool → PoolEvent → JobPool × Option Job
pool_step p (pushes j) = (push p j, none)
pool_step p (pops s) = pop_for p s
pool_step p (pops_fair s max) = pop_for_fair_share p s max
pool_step p (pops_coverage s all) = pop_for_coverage p s all

abbrev pub arrived : PoolEvent → List Job
arrived (pushes j) = j ∷ []
arrived (pops s) = []
arrived (pops_fair s max) = []
arrived (pops_coverage s all) = []

-- The jobs that come in, and those that are handed out, in the order of the events.
unfoldable pub arrivals : List PoolEvent → List Job
arrivals [] = []
arrivals (e ∷ es) = arrived e ++ arrivals es

unfoldable pub departures : JobPool → List PoolEvent → List Job
departures p [] = []
departures p (e ∷ es) = handed (pool_step p e).1 ++ departures (pool_step p e).0 es

unfoldable pub pool_after : JobPool → List PoolEvent → JobPool
pool_after p [] = p
pool_after p (e ∷ es) = pool_after (pool_step p e).0 es

of_popped :
    (m : String) (p : JobPool) (r : JobPool × Option Job)
    → InOrder m p.jobs r
    → InOrder m (p.jobs ++ []) r
of_popped m p r h = rw append-nil h

pool_step-InOrder :
    (m : String) (p : JobPool) (e : PoolEvent)
    → All Unvisited p.jobs
    → All Unvisited (arrived e)
    → InOrder m (p.jobs ++ arrived e) (pool_step p e)
unfolding pool_step push
pool_step-InOrder m p (pushes j) u v = (refl, All-append Unvisited p.jobs (j ∷ []) u v)
pool_step-InOrder m p (pops s) u v = of_popped m p _ (pop_for-InOrder m p u s)
pool_step-InOrder m p (pops_fair s max) u v =
    of_popped m p _ (pop_for_fair_share-InOrder m p u s max)
pool_step-InOrder m p (pops_coverage s all) u v =
    of_popped m p _ (pop_for_coverage-InOrder m p u s all)

All-append_inv : (xs ys : List Job) → All Unvisited (xs ++ ys) → All Unvisited xs × All Unvisited ys
All-append_inv [] ys a = (tt, a)
All-append_inv (x ∷ xs) ys a = let (l, r) = All-append_inv xs ys a.1 in ((a.0, l), r)

-- As long as no job has failed, whichever servers take work by whichever strategies, the jobs of one
-- model leave the pool in the order in which they came in: those handed out, then those that wait,
-- are those that waited at the start, then those that came in.
pub departures-arrivals :
    (m : String) (p : JobPool) (es : List PoolEvent)
    → All Unvisited p.jobs
    → All Unvisited (arrivals es)
    → of_model m (departures p es) ++ of_model m (pool_after p es).jobs
      ≡ of_model m p.jobs ++ of_model m (arrivals es)
unfolding departures pool_after arrivals
departures-arrivals m p [] u v = simp append-nil
departures-arrivals m p (e ∷ es) u v =
    let (v0, v1) = All-append_inv (arrived e) (arrivals es) v in
    let (q, out) = pool_step p e in
    let (o, w) = pool_step-InOrder m p e u v0 in
    let ih = departures-arrivals m (pool_step p e).0 es w v1 in
    simp (keep-append, append_assoc, ih)
      (sym (append_assoc (of_model m (handed out)) (of_model m q.jobs) (of_model m (arrivals es)))
        ∙ ap (λ l. l ++ of_model m (arrivals es)) (sym o ∙ keep-append _ p.jobs (arrived e))
        ∙ append_assoc (of_model m p.jobs) (of_model m (arrived e)) (of_model m (arrivals es)))
