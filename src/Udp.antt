-- ===== src/Udp.antt =====
-- Datagrams that are sent: src/socket/udp.cpp (send_to_raw and send_batch of udp_socket_base) and
-- do_send_batch of src/high/dgram.cpp. `sendto` and `sendmmsg` are parameters: what they answer, errors
-- normalised, from what was sent before. The lock and the flags are left out.
pub mod Prefix
mod Examples
use socketpp.Base.{
  ℕ, suc, ◌-◌, ◌^◌, Bool, true, false, Option, none, some, List, [], ◌∷◌, ◌++◌, map, length, take,
  min, ◌==◌, if◌then◌else◌,
}
use socketpp.Errors.{ErrorCode, socketpp_code, invalid_state}
use socketpp.Net.Inet4.{Result, ok, err}
use socketpp.Net.SockAddress.{SockAddress}
use socketpp.Options.{Platform, linux, macos, windows}

pub record Datagram : Type 0 where
  pub bytes : List ℕ
  pub dest : SockAddress

-- An entry, with the bytes that `buf` and `len` stand for.
pub record MsgBatchEntry : Type 0 where
  pub buf : List ℕ
  pub addr : SockAddress
  pub transferred : ℕ

-- What was handed to the system, and its answers, in order.
abbrev pub Log : Type 0
Log = List (Datagram × Result ℕ)

abbrev pub Sendto : Type 0
Sendto = Log → Datagram → Result ℕ

-- The log afterwards, and the lengths of the messages that were sent.
abbrev pub Sendmmsg : Type 0
Sendmmsg = Log → List Datagram → Log × Result (List ℕ)

-- The length is clamped to INT_MAX on Windows.
unfoldable pub clamp : Platform → ℕ → ℕ
clamp windows len = min len (2 ^ 31 - 1)
clamp _ len = len

unfoldable pub datagram : Platform → MsgBatchEntry → Datagram
datagram p m = record { bytes = take (clamp p (length m.buf)) m.buf; dest = m.addr }

module _ (p : Platform) (sendto : Sendto) where
  unfoldable pub send_to_raw : Bool → Datagram → Log → Log × Result ℕ
  send_to_raw is_open d log =
      if is_open
      then (log ++ (d, sendto log d) ∷ [], sendto log d)
      else (log, err (socketpp_code invalid_state))

  -- What the loop does with the answer for an entry.
  unfoldable pub after_send :
      Log × Result ℕ
      → ℕ
      → MsgBatchEntry
      → List MsgBatchEntry
      → (Log → Log × List MsgBatchEntry × Result ℕ)
      → Log × List MsgBatchEntry × Result ℕ
  after_send (log, err e) i m ms rest = (log, m ∷ ms, if i == 0 then err e else ok i)
  after_send (log, ok n) i m ms rest =
      let (log, ms, r) = rest log in (log, record m { transferred = n } ∷ ms, r)

  -- From the entry of this index on.
  unfoldable pub send_loop :
      Bool → ℕ → List MsgBatchEntry → Log → Log × List MsgBatchEntry × Result ℕ
  unfolding send_to_raw datagram after_send
  send_loop is_open i [] log = (log, [], ok i)
  send_loop is_open i (m ∷ ms) log =
      let rest : Log → Log × List MsgBatchEntry × Result ℕ =
        λ log. send_loop is_open (suc i) ms log in
      after_send (send_to_raw is_open (datagram p m) log) i m ms rest

-- The lengths are written to the entries that were sent.
unfoldable pub set_transferred : List ℕ → List MsgBatchEntry → List MsgBatchEntry
set_transferred [] ms = ms
set_transferred (n ∷ ns) [] = []
set_transferred (n ∷ ns) (m ∷ ms) = record m { transferred = n } ∷ set_transferred ns ms

unfoldable pub after_mmsg :
    Log × Result (List ℕ) → List MsgBatchEntry → Log × List MsgBatchEntry × Result ℕ
unfolding set_transferred
after_mmsg (log, err e) ms = (log, ms, err e)
after_mmsg (log, ok lens) ms = (log, set_transferred lens ms, ok (length lens))

-- `sendmmsg` on Linux, a loop of `sendto` elsewhere.
unfoldable pub send_open :
    Platform → Sendto → Sendmmsg → List MsgBatchEntry → Log → Log × List MsgBatchEntry × Result ℕ
unfolding send_loop after_mmsg datagram
send_open linux sendto sendmmsg ms log = after_mmsg (sendmmsg log (map (datagram linux) ms)) ms
send_open macos sendto sendmmsg ms log = send_loop macos sendto true 0 ms log
send_open windows sendto sendmmsg ms log = send_loop windows sendto true 0 ms log

unfoldable pub send_batch :
    Platform
    → Sendto
    → Sendmmsg
    → Bool
    → List MsgBatchEntry
    → Log
    → Log × List MsgBatchEntry × Result ℕ
unfolding send_open
send_batch p sendto sendmmsg is_open ms log =
    if is_open
    then send_open p sendto sendmmsg ms log
    else (log, ms, err (socketpp_code invalid_state))

-- A datagram that a user sends.
pub record SendEntry : Type 0 where
  pub data_bytes : List ℕ
  pub dest : SockAddress

unfoldable pub entry : SendEntry → MsgBatchEntry
entry m = record { buf = m.data_bytes; addr = m.dest; transferred = 0 }

unfoldable pub do_send_batch :
    Platform → Sendto → Sendmmsg → Bool → List SendEntry → Log → Log × Result ℕ
unfolding send_batch entry
do_send_batch p sendto sendmmsg is_open msgs log =
    let (log, ms, r) = send_batch p sendto sendmmsg is_open (map entry msgs) log in (log, r)
