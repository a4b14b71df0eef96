-- ===== src/Core/Pool/Idle.antt =====
-- Which idle server is woken for a new job.
use proxy_lm_go.Common.{
  String, ◌≡◌, refl, sym, subst, ◌∙◌, true≢false, All-middle, Bool, false, Option, none, List, [],
  ◌∷◌, arith, NoneOf, ltb_ℤ,
}
use proxy_lm_go.Common.Sort.{IsStrictWeak, Least, first-stable_sort}
use proxy_lm_go.Core.Models.{ServerInfo}
use proxy_lm_go.Core.Pool.{idle, pick_idle_by_priority, any_healthy_compatible}

by_priority-IsStrictWeak : IsStrictWeak {A = ServerInfo} (λ a b. ltb_ℤ a.priority b.priority)
by_priority-IsStrictWeak = record {
  asym = λ a b h. ground arith;
  cotrans = λ a b c h k. ground arith;
}

-- The server that is woken is the first of those with the least priority among the healthy ones that
-- are idle, have the model and are not excluded; none is woken exactly when there is no such server.
pub pick_idle_by_priority-Least :
    (servers : List ServerInfo) (model : String) (visited : List String)
    → Least
        (λ a b. ltb_ℤ a.priority b.priority)
        (idle model visited)
        servers
        (pick_idle_by_priority servers model visited)
unfolding pick_idle_by_priority
pick_idle_by_priority-Least servers model visited =
    first-stable_sort by_priority-IsStrictWeak (idle model visited) servers

any-idle :
    (servers : List ServerInfo) (model : String) (visited : List String)
    → any_healthy_compatible servers model visited ≡ false
    → NoneOf (idle model visited) servers
unfolding any_healthy_compatible idle
any-idle [] model visited h = tt
any-idle (s ∷ ss) model visited h = (ground arith, any-idle ss model visited (ground arith))

Least-none :
    {less : ServerInfo → ServerInfo → Bool} {p : ServerInfo → Bool} {xs : List ServerInfo}
    {r : Option ServerInfo}
    → Least less p xs r
    → NoneOf p xs
    → r ≡ none
Least-none (Least.least before x after e q b a) n =
    absurd (true≢false (sym q ∙ All-middle _ before x after (subst (NoneOf _) e n)))
Least-none (Least.no_element _) n = refl

-- A server is woken only for a model that some healthy server outside the excluded ones has.
pub any_healthy_compatible-pick :
    (servers : List ServerInfo) (model : String) (visited : List String)
    → any_healthy_compatible servers model visited ≡ false
    → pick_idle_by_priority servers model visited ≡ none
any_healthy_compatible-pick servers model visited h =
    Least-none (pick_idle_by_priority-Least servers model visited)
      (any-idle servers model visited h)
