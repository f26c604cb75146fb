-- ===== src/Options/Apply.antt =====
-- How socket_options is applied to a socket (src/socket/options.cpp). `os` answers a call by the error
-- that it gives, normalised, from the calls before it; `get` is what `getsockopt` gives.
use socketpp.Base.{
  ℕ, ◌*◌, ◌%◌, ◌^◌, Bool, true, false, ◌&&◌, ◌||◌, not, Option, none, some, List, [], ◌∷◌, ◌++◌,
  is_some, if◌then◌else◌,
}
use socketpp.Errors.{ErrorCode}
use socketpp.Net.Inet4.{Result, ok, err}
use socketpp.Options.{
  Platform, windows, SocketOptionId, OptionEntry, SocketOptions, Layout, Setting, keepalive_vals,
}
use socketpp.Options.Requests.{
  Request, call, remember_idle, remember_interval, refuse, is_multicast_entry, apply_multicast,
  request,
}

abbrev pub Os : Type 0
Os = List Setting → Setting → Option ErrorCode

-- The calls made, the failing one included, and the keep-alive times that Windows remembers.
pub record Progress : Type 0 where
  pub calls : List Setting
  pub idle : Option ℕ
  pub interval : Option ℕ

abbrev pub no_calls : Progress
no_calls = record { calls = []; idle = none; interval = none }

pub record ApplyResult : Type 0 where
  pub actual_send_buf : ℕ
  pub actual_recv_buf : ℕ

-- The value where there is one.
abbrev pub value_or : ℕ → Option ℕ → ℕ
value_or d none = d
value_or d (some v) = v

unfoldable pub called :
    Option ErrorCode
    → Progress
    → (Progress → Progress × Option ErrorCode)
    → Progress × Option ErrorCode
called none s k = k s
called (some e) s k = (s, some e)

-- One entry, and then the rest unless there is an error.
unfoldable pub step :
    Os → Request → Progress → (Progress → Progress × Option ErrorCode) → Progress × Option ErrorCode
unfolding called
step os (call c) s k = called (os s.calls c) (record s { calls = s.calls ++ c ∷ [] }) k
step os (remember_idle v) s k = k (record s { idle = some v })
step os (remember_interval v) s k = k (record s { interval = some v })
step os (refuse e) s k = (s, some e)

-- A time in milliseconds, as a `ULONG`.
abbrev pub millis : ℕ → Option ℕ → ℕ
millis d none = d
millis d (some v) = v * 1000 % 2 ^ 32

abbrev pub keepalive_of : Option ℕ → Option ℕ → Setting
keepalive_of idle interval = keepalive_vals (millis 7200000 idle) (millis 1000 interval)

abbrev pub is_join : SocketOptionId → Bool
is_join SocketOptionId.multicast_join = true
is_join _ = false

module _ (p : Platform) (l : Layout) (os : Os) where
  -- After the loop: `apply_windows_keepalive`.
  unfoldable pub apply_keepalive : Platform → Progress → Progress × Option ErrorCode
  unfolding step
  apply_keepalive windows s =
      if is_some s.idle || is_some s.interval
      then step os (call (keepalive_of s.idle s.interval)) s (λ t. (t, none))
      else (s, none)
  apply_keepalive _ s = (s, none)

  unfoldable pub apply_loop : Bool → List OptionEntry → Progress → Progress × Option ErrorCode
  unfolding apply_keepalive step request
  apply_loop skip [] s = apply_keepalive p s
  apply_loop skip (e ∷ es) s =
      let rest : Progress → Progress × Option ErrorCode = λ t. apply_loop skip es t in
      if skip && is_multicast_entry e.id then rest s else step os (request p l e) s rest

  unfoldable pub result_of :
      (Bool → Option ℕ) → SocketOptions → Option ErrorCode → Result ApplyResult
  result_of get o (some e) = err e
  result_of get o none = ok (record {
    actual_send_buf = if o.has_send_buf then value_or 0 (get true) else 0;
    actual_recv_buf = if o.has_recv_buf then value_or 0 (get false) else 0;
  })

  -- `get true` is the size of the send buffer, `get false` that of the receive buffer.
  unfoldable pub apply_entries :
      (Bool → Option ℕ) → SocketOptions → Bool → List Setting × Result ApplyResult
  unfolding apply_loop result_of
  apply_entries get o skip =
      let (s, e) = apply_loop skip o.entries no_calls in (s.calls, result_of get o e)

  unfoldable pub apply_to : (Bool → Option ℕ) → SocketOptions → List Setting × Result ApplyResult
  unfolding apply_entries
  apply_to get o = apply_entries get o false

  unfoldable pub apply_pre_bind :
      (Bool → Option ℕ) → SocketOptions → List Setting × Result ApplyResult
  unfolding apply_entries
  apply_pre_bind get o = apply_entries get o true

  unfoldable pub post_loop : List OptionEntry → Progress → Progress × Option ErrorCode
  unfolding step request
  post_loop [] s = (s, none)
  post_loop (e ∷ es) s =
      let rest : Progress → Progress × Option ErrorCode = λ t. post_loop es t in
      if not (is_multicast_entry e.id) then rest s else step os (request p l e) s rest

  unfoldable pub apply_post_bind : SocketOptions → List Setting × Option ErrorCode
  unfolding post_loop
  apply_post_bind o = let (s, e) = post_loop o.entries no_calls in (s.calls, e)

  unfoldable pub leave_loop : List OptionEntry → Progress → Progress × Option ErrorCode
  unfolding step apply_multicast
  leave_loop [] s = (s, none)
  leave_loop (e ∷ es) s =
      let rest : Progress → Progress × Option ErrorCode = λ t. leave_loop es t in
      if not (is_join e.id) then rest s else step os (apply_multicast l false e.bytes) s rest

  unfoldable pub leave_all_multicast : SocketOptions → List Setting × Option ErrorCode
  unfolding leave_loop
  leave_all_multicast o = let (s, e) = leave_loop o.entries no_calls in (s.calls, e)
