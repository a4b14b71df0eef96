-- ===== src/Api/Handlers/Serve/Story.antt =====
-- The states of a request in the history, and what a client gets when all attempts failed.
use proxy_lm_go.Common.{
  ℕ, ◌≤◌, ◌<◌, if◌then◌else◌, Bool, ◌≡◌, refl, sym, ap, ◌∙◌, inl, inr, ◌⊎◌, true, false, Option,
  none, some, List, [], ◌∷◌, ◌++◌, map, append-nil, append_assoc, tests,
}
use proxy_lm_go.Core.Models.{Err, JobResult, ServerInfo}
use proxy_lm_go.Core.LiveTail.{LiveTail}
use proxy_lm_go.Api.Handlers.{Client, put, write_header}
use proxy_lm_go.Api.Handlers.Serve.{
  Server, Request, RequestRecord, Status, pending, running, completed, failed, new_record, Exchange,
  persist, begin, running_record, attempted, after_attempt, run_closure, Call, Try, ran, left_queue,
  run_try, run_tries, map_error_status, error_body, write_error, outcome, finish, serve,
}

abbrev pub statuses : List RequestRecord → List Status
statuses = map (λ r. r.status)

-- The attempts with their results, and the states that they add to the history: an attempt that ran adds
-- `running`, and then `pending` exactly when it failed before its response had started; a job that left
-- the queue without a run adds nothing.
pub data Rounds : List Try → List JobResult → List Status → Type 0 where
  over : Rounds [] [] []
  not_run :
      (server : ServerInfo) (e : Err) (r : JobResult) {ts : List Try} {rs : List JobResult}
      {ls : List Status}
      → Rounds ts rs ls
      → Rounds (left_queue server e ∷ ts) (r ∷ rs) ls
  kept_running :
      (c : Call) (r : JobResult) {ts : List Try} {rs : List JobResult} {ls : List Status}
      → (r.err ≡ none) ⊎ (r.response_started ≡ true)
      → Rounds ts rs ls
      → Rounds (ran c ∷ ts) (r ∷ rs) (running ∷ ls)
  put_back :
      (c : Call) (r : JobResult) (e : Err) {ts : List Try} {rs : List JobResult} {ls : List Status}
      → r.err ≡ some e
      → r.response_started ≡ false
      → Rounds ts rs ls
      → Rounds (ran c ∷ ts) (r ∷ rs) (running ∷ (pending ∷ ls))

abbrev pub final_status : Option Err → Status
final_status none = completed
final_status (some e) = failed

-- What one attempt adds to the history.
record Adds (t : Try) (r : JobResult) (x y : Exchange) : Type 0 where
  pub more : List Status
  pub rounds :
      {ts : List Try} {rs : List JobResult} {ls : List Status}
      → Rounds ts rs ls
      → Rounds (t ∷ ts) (r ∷ rs) (more ++ ls)
  pub history : statuses y.saved ≡ statuses x.saved ++ more

statuses-append : (xs ys : List RequestRecord) → statuses (xs ++ ys) ≡ statuses xs ++ statuses ys
statuses-append [] ys = refl
statuses-append (x ∷ xs) ys = ap (◌∷◌ x.status) (statuses-append xs ys)

after-Adds :
    (s : Server) (c : Call) (r : JobResult) (o : Option Err) (x y : Exchange)
    → r.err ≡ o
    → statuses y.saved ≡ statuses x.saved ++ (running ∷ [])
    → Adds (ran c) r x (after_attempt s c.server.name r o y)
after-Adds s c r none x y n h = record {
  more = running ∷ [];
  rounds = kept_running c r (inl n);
  history = h;
}
after-Adds s c r (some e) x y n h = put_back-Adds r.response_started refl
  where
    put_back-Adds :
        (b : Bool)
        → r.response_started ≡ b
        → Adds (ran c) r x (
            if b
            then y
            else persist (record y {
              rec = record (y.rec) {
                status = pending;
                error_message = s.error_text e;
                last_failed_server = c.server.name;
              };
            }))
    put_back-Adds true b = record {
      more = running ∷ [];
      rounds = kept_running c r (inr b);
      history = h;
    }
    put_back-Adds false b = record {
      more = running ∷ pending ∷ [];
      rounds = put_back c r e n b;
      history =
          statuses-append y.saved _
          ∙ ap (λ l. l ++ (pending ∷ [])) h
          ∙ append_assoc (statuses x.saved) (running ∷ []) (pending ∷ []);
    }

try-Adds :
    (s : Server) (q : Request) (t : Try) (x : Exchange)
    → Adds t (run_try s q t x).1 x (run_try s q t x).0
unfolding run_closure
try-Adds s q (ran c) x =
    let begun = persist (record x { rec = running_record c x.rec }) in
    let done = attempted s q c begun in
    after-Adds s c done.run.result done.run.result.err x
      (record begun { client = done.run.client; tail = done.tail }) refl
      (statuses-append x.saved (running_record c x.rec ∷ []))
try-Adds s q (left_queue server e) x = record {
  more = [];
  rounds = not_run server e _;
  history = sym (append-nil (statuses x.saved));
}

-- What a list of attempts adds.
record AllAdd (ts : List Try) (rs : List JobResult) (x y : Exchange) : Type 0 where
  pub more : List Status
  pub rounds : Rounds ts rs more
  pub history : statuses y.saved ≡ statuses x.saved ++ more

tries-AllAdd :
    (s : Server) (q : Request) (ts : List Try) (x : Exchange)
    → AllAdd ts (run_tries s q ts x).1 x (run_tries s q ts x).0
unfolding run_tries
tries-AllAdd s q [] x = record {
  more = [];
  rounds = over;
  history = sym (append-nil (statuses x.saved));
}
tries-AllAdd s q (t ∷ ts) x =
    let one = try-Adds s q t x in
    let rest = tries-AllAdd s q ts (run_try s q t x).0 in
    record {
      more = one.more ++ rest.more;
      rounds = one.rounds rest.rounds;
      history =
          rest.history
          ∙ ap (λ l. l ++ rest.more) one.history
          ∙ append_assoc (statuses x.saved) one.more rest.more;
    }

outcome-status :
    (s : Server) (r : JobResult) (e : Option Err) (x : Exchange)
    → statuses (persist (outcome s r e x)).saved ≡ statuses x.saved ++ (final_status e ∷ [])
outcome-status s r none x = statuses-append x.saved _
outcome-status s r (some e) x = statuses-append x.saved _

-- The states of a request in the history, for any attempts and any answer of `Submit`: pending first;
-- then running for each attempt that ran, followed by pending exactly when it failed before its response
-- had started; and last completed if `Submit` returned no error and failed otherwise.
pub serve-Rounds :
    (s : Server) (q : Request) (w : Client) (tail : LiveTail) (tries : List Try) (now : ℕ)
    (r : JobResult) (e : Option Err)
    → (rounds : List Status) × Rounds tries (run_tries s q tries (begin s q w tail)).1 rounds
      × (statuses (serve s q w tail tries now r e).saved
          ≡ pending ∷ (rounds ++ (final_status e ∷ [])))
unfolding serve finish begin new_record
serve-Rounds s q w tail tries now r e =
    let tried_so = tries-AllAdd s q tries (begin s q w tail) in
    (
      tried_so.more,
      tried_so.rounds,
      outcome-status s r e _ ∙ ap (λ l. l ++ (final_status e ∷ [])) tried_so.history,
    )

map_error_status-range : (n : ℕ) → (400 ≤ map_error_status n) × (map_error_status n < 600)
unfolding map_error_status
map_error_status-range n = grind tests

-- A request that fails before its response has started is answered by one error body, with a status
-- from 400 to 599, if no status was sent before.
pub finish-answers :
    (s : Server) (now : ℕ) (r : JobResult) (e : Err) (x : Exchange)
    → r.response_started ≡ false
    → x.client.status ≡ none
    → (code : ℕ) × ((400 ≤ code) × (code < 600))
      × ((finish s now r (some e) x).client.status ≡ some code)
      × ((finish s now r (some e) x).client.written
          ≡ x.client.written ++ (error_body s s.handler "api_error" code (s.error_text e) ∷ []))
unfolding finish write_error write_header put
finish-answers s now r e x n none_sent = (
  map_error_status r.http_status,
  map_error_status-range r.http_status,
  simp (n, none_sent),
  simp n,
)
