-- ===== src/Core/Router.antt =====
-- internal/core/router.go: the choice of a server for a request in the push strategies.
pub mod Order
pub mod Affinity
pub mod RoundRobin
pub mod Chosen
use proxy_lm_go.Common.{
  ℕ, suc, ◌+◌, ◌-◌, ◌%◌, ℤ, String, ◌==◌, Bool, true, false, not, ◌&&◌, Option, none, some, List,
  [], if◌then◌else◌, ltb, eqb, ltb_ℤ, int64_mod, int64_sign, contains, any, keep, length, get_elem?,
}
use proxy_lm_go.Common.Sort.{stable_sort, first}
use proxy_lm_go.Core.Models.{ServerInfo, Err, no_server, current_model_string}

-- A string type in the source: `other` is any other string, which `Pick` treats as the default.
pub data RouterStrategy : Type 0 where
  model_affinity_least_busy round_robin least_busy : RouterStrategy
  deferred_model_then_capable preserve_model_coverage fair_share_round_robin : RouterStrategy
  other : String → RouterStrategy

-- `rr_idx` is the bit pattern of the int64 counter.
pub record Router : Type 0 where
  pub servers : List ServerInfo
  pub strategy : RouterStrategy
  pub rr_idx : ℕ

unfoldable pub new_router : List ServerInfo → RouterStrategy → Router
new_router servers strategy = record { servers = servers; strategy = strategy; rr_idx = 0 }

-- A server, the error `ErrNoServer`, or an index out of range, which panics in Go.
pub data Choice : Type 0 where
  chosen : ServerInfo → Choice
  failed : Err → Choice
  panics : Choice

unfoldable pub server_has_model : ServerInfo → String → Bool
server_has_model s model = any (λ m. m.name == model) s.models

unfoldable pub is_candidate : String → List String → ServerInfo → Bool
is_candidate model exclude s =
    not (contains exclude s.name) && s.healthy && server_has_model s model

unfoldable pub candidates : Router → String → List String → List ServerInfo
candidates r model exclude = keep (is_candidate model exclude) r.servers

unfoldable pub load : ServerInfo → ℕ
load s = if s.in_flight then length s.queue + 1 else length s.queue

-- The comparison that `pickLeastBusy` sorts by.
unfoldable pub less_busy : ServerInfo → ServerInfo → Bool
less_busy a b =
    if not (eqb (load a) (load b)) then ltb (load a) (load b) else ltb_ℤ a.priority b.priority

abbrev pub choice_of : Option ServerInfo → Choice
choice_of none = panics
choice_of (some s) = chosen s

-- `ranked[0].s`
unfoldable pub pick_least_busy : List ServerInfo → Choice
pick_least_busy servers = choice_of (first (stable_sort less_busy servers))

unfoldable pub is_loaded : String → ServerInfo → Bool
is_loaded model s = current_model_string s == model

unfoldable pub pick_model_affinity_least_busy : String → List ServerInfo → Choice
pick_model_affinity_least_busy model servers =
    let preferred = keep (is_loaded model) servers in
    let others = keep (λ s. not (is_loaded model s)) servers in
    if ltb 0 (length preferred) then pick_least_busy preferred else pick_least_busy others

-- `idx % int64(n)` for an int64 pattern: the remainder of a negative number is negative or zero, and
-- a negative index panics.
unfoldable pub index_mod : ℕ → ℕ → Option ℕ
index_mod idx n =
    if ltb idx int64_sign
    then some (idx % n)
    else if eqb ((int64_mod - idx) % n) 0
    then some 0
    else none

abbrev pub elem_at : List ServerInfo → Option ℕ → Option ServerInfo
elem_at servers none = none
elem_at servers (some i) = get_elem? servers i

-- The counter after `Add(1)`, and the server at the old count.
unfoldable pub pick_round_robin : Router → List ServerInfo → Router × Choice
pick_round_robin r servers = (
  record r { rr_idx = (r.rr_idx + 1) % int64_mod },
  choice_of (elem_at servers (index_mod r.rr_idx (length servers))),
)

-- The `switch` of `Pick`.
unfoldable pub pick_by : RouterStrategy → Router → String → List ServerInfo → Router × Choice
pick_by round_robin r model servers = pick_round_robin r servers
pick_by least_busy r model servers = (r, pick_least_busy servers)
pick_by _ r model servers = (r, pick_model_affinity_least_busy model servers)

unfoldable pub pick : Router → String → List String → Router × Choice
pick r model exclude =
    let servers = candidates r model exclude in
    if eqb (length servers) 0
    then (r, failed (no_server model))
    else pick_by r.strategy r model servers
