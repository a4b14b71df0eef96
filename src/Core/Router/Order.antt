-- ===== src/Core/Router/Order.antt =====
-- What the push strategies choose from, and the order of `pickLeastBusy`.
use proxy_lm_go.Common.{
  ◌≡◌, refl, ◌↔◌, Bool, Option, some, List, [], ◌∷◌, arith, NoneOf, keep, length,
}
use proxy_lm_go.Common.Sort.{IsStrictWeak, Least, first-stable_sort}
use proxy_lm_go.Core.Models.{ServerInfo}
use proxy_lm_go.Core.Router.{chosen, less_busy, choice_of, pick_least_busy}

pub less_busy-IsStrictWeak : IsStrictWeak less_busy
unfolding less_busy
less_busy-IsStrictWeak = record {
  asym = λ a b h. ground arith;
  cotrans = λ a b c h k. ground arith;
}

pub keep-nil_iff :
    {A : Type 0} (p : A → Bool) (xs : List A) → (length (keep p xs) ≡ 0) ↔ NoneOf p xs
keep-nil_iff p [] = (λ _. tt, λ _. refl)
keep-nil_iff p (x ∷ xs) = let ih = keep-nil_iff p xs in (ground (arith, ih), ground (arith, ih))

pub choice_of-Least :
    {p : ServerInfo → Bool} {xs : List ServerInfo} {r : Option ServerInfo}
    → Least less_busy p xs r
    → ¬ NoneOf p xs
    → (s : ServerInfo) × (choice_of r ≡ chosen s) × Least less_busy p xs (some s)
choice_of-Least (Least.least before x after e q b a) n =
    (x, refl, Least.least before x after e q b a)
choice_of-Least (Least.no_element m) n = absurd (n m)

-- Among the servers that pass, the first of those with the least load, and of the least priority
-- among these.
pub pick_least_busy-Least :
    (p : ServerInfo → Bool) (servers : List ServerInfo)
    → ¬ NoneOf p servers
    → (s : ServerInfo) × (pick_least_busy (keep p servers) ≡ chosen s)
      × Least less_busy p servers (some s)
unfolding pick_least_busy
pick_least_busy-Least p servers n =
    choice_of-Least (first-stable_sort less_busy-IsStrictWeak p servers) n
