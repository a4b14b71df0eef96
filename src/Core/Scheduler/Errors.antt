-- ===== src/Core/Scheduler/Errors.antt =====
-- `isConnectionError`, and the walks of the standard library's `errors.As` and `errors.Is`.
use proxy_lm_go.Common.{String, ◌==◌, Bool, true, false, ◌||◌, Option, none, some, if◌then◌else◌}
use proxy_lm_go.Core.Models.{
  Err, canceled, deadline_exceeded, scheduler_stopped, url_error, op_error, syscall_error, errno,
  wrapped,
}

-- `errors.As(err, &urlErr)`: the first `url.Error` of the chain, with its `Timeout()` and its `Err`.
unfoldable pub as_url_error : Err → Option (Bool × Err)
as_url_error (url_error timeout e) = some (timeout, e)
as_url_error (scheduler_stopped e) = as_url_error e
as_url_error (op_error op e) = as_url_error e
as_url_error (syscall_error e) = as_url_error e
as_url_error (wrapped text e) = as_url_error e
as_url_error _ = none

-- `errors.As(err, &opErr)`: the `Op` of the first `net.OpError`.
unfoldable pub as_op_error : Err → Option String
as_op_error (op_error op e) = some op
as_op_error (url_error timeout e) = as_op_error e
as_op_error (scheduler_stopped e) = as_op_error e
as_op_error (syscall_error e) = as_op_error e
as_op_error (wrapped text e) = as_op_error e
as_op_error _ = none

-- `errors.As(err, &sysErr)`
unfoldable pub has_syscall_error : Err → Bool
has_syscall_error (syscall_error e) = true
has_syscall_error (url_error timeout e) = has_syscall_error e
has_syscall_error (op_error op e) = has_syscall_error e
has_syscall_error (scheduler_stopped e) = has_syscall_error e
has_syscall_error (wrapped text e) = has_syscall_error e
has_syscall_error _ = false

-- `errors.Is(err, syscall.<code>)`
unfoldable pub is_errno : String → Err → Bool
is_errno code (errno c) = c == code
is_errno code (url_error timeout e) = is_errno code e
is_errno code (op_error op e) = is_errno code e
is_errno code (syscall_error e) = is_errno code e
is_errno code (scheduler_stopped e) = is_errno code e
is_errno code (wrapped text e) = is_errno code e
is_errno code _ = false

-- `errors.Is(err, context.Canceled) || errors.Is(err, context.DeadlineExceeded)`
unfoldable pub is_context_error : Err → Bool
is_context_error canceled = true
is_context_error deadline_exceeded = true
is_context_error (url_error timeout e) = is_context_error e
is_context_error (op_error op e) = is_context_error e
is_context_error (syscall_error e) = is_context_error e
is_context_error (scheduler_stopped e) = is_context_error e
is_context_error (wrapped text e) = is_context_error e
is_context_error _ = false

is_network_op : Option String → Bool
is_network_op none = false
is_network_op (some op) = op == "dial" || op == "read" || op == "write"

-- The tests after the `url.Error` has been unwrapped.
unfoldable pub is_unreachable : Err → Bool
unfolding is_network_op
is_unreachable e =
    is_network_op (as_op_error e)
    || has_syscall_error e
    || is_errno "ECONNREFUSED" e
    || is_errno "ECONNRESET" e
    || is_errno "EHOSTUNREACH" e
    || is_errno "ENETUNREACH" e

connection_of : Err → Option (Bool × Err) → Bool
connection_of e none = is_unreachable e
connection_of e (some (timeout, inner)) = if timeout then true else is_unreachable inner

unfoldable pub is_connection_error : Option Err → Bool
unfolding connection_of
is_connection_error none = false
is_connection_error (some e) = connection_of e (as_url_error e)
