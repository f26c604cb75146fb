-- ===== src/Stream.antt =====
-- src/high/stream.cpp (stream_impl): the server's connections, their count and their limit, and the
-- guards of arming, pausing and resuming. A function is what one thread does under the loop, or one
-- atomic access.
pub mod System
pub mod Tracking
pub mod Reuse
pub mod Pausing
mod Examples
use socketpp.Base.{
  ℕ, ◌+◌, ◌-◌, ◌%◌, ◌^◌, Bool, true, false, ◌&&◌, ◌||◌, not, Option, none, some, List, [], ◌∷◌,
  ◌++◌, length, ltb, leb, ◌==◌, if◌then◌else◌, nat_eq,
}
use socketpp.Base.Map.{Map, insert, erase}

pub data Mode : Type 0 where
  listen client : Mode

-- What is posted to the loop.
pub data Post : Type 0 where
  accept_loop stop_listener connect_async : Post
  erase_entry : ℕ → Post

-- `connections` maps a descriptor to the connection that was accepted on it; `connection_count` is
-- a `std::atomic<size_t>` of 64 bits. `accepting`: the listener is registered with the dispatcher.
pub record Stream : Type 0 where
  pub mode : Mode
  pub armed : Bool
  pub listen_paused : Bool
  pub has_on_connect : Bool
  pub has_on_error : Bool
  pub max_conn : ℕ
  pub connections : Map ℕ ℕ
  pub connection_count : ℕ
  pub listener_open : Bool
  pub accepting : Bool
  pub posted : List Post

-- What the handler of the accept loop does with what `accept` returned.
pub data Accepted : Type 0 where
  error_reported error_ignored rejected : Accepted
  start_reading : Accepted
  connect_submitted : Accepted

abbrev pub add64 : ℕ → ℕ → ℕ
add64 a b = (a + b) % 2 ^ 64

abbrev pub sub64 : ℕ → ℕ → ℕ
sub64 a b = (a + 2 ^ 64 - b) % 2 ^ 64

abbrev pub post : Stream → Post → Stream
post s p = record s { posted = s.posted ++ p ∷ [] }

abbrev is_listen : Mode → Bool
is_listen listen = true
is_listen client = false

unfoldable pub create : Mode → ℕ → Stream
create m max = record {
  mode = m;
  armed = false;
  listen_paused = false;
  has_on_connect = false;
  has_on_error = false;
  max_conn = max;
  connections = [];
  connection_count = 0;
  listener_open = is_listen m;
  accepting = false;
  posted = [];
}

-- `connections[fd] = …; connection_count.fetch_add(1);`
track : Stream → ℕ → ℕ → Stream
track s fd conn = record s {
  connections = insert fd conn s.connections;
  connection_count = add64 s.connection_count 1;
}

-- The handler that `accept_loop` calls: `none` for an error, or the descriptor and the connection.
unfoldable pub on_accept : Stream → Option (ℕ × ℕ) → Stream × Accepted
unfolding track
on_accept s none = (s, if s.has_on_error then error_reported else error_ignored)
on_accept s (some (fd, conn)) =
    if ltb 0 s.max_conn && leb s.max_conn (length s.connections)
    then (s, rejected)
    else (track s fd conn, if s.has_on_connect then connect_submitted else start_reading)

-- The callback that `on_close_` posts.
unfoldable pub erase_connection : Stream → ℕ → Stream
erase_connection s fd = record s {
  connections = erase fd s.connections;
  connection_count = sub64 s.connection_count 1;
}

unfoldable pub arm_listen : Stream → Stream
arm_listen s = if s.armed then s else post (record s { armed = true }) accept_loop

unfoldable pub arm_connect : Stream → Stream
arm_connect s = if s.armed then s else post (record s { armed = true }) connect_async

unfoldable pub on_connect : Stream → Stream
unfolding arm_listen arm_connect
on_connect s =
    let t = record s { has_on_connect = true } in
    if is_listen t.mode then arm_listen t else arm_connect t

unfoldable pub do_pause : Stream → Stream
do_pause s =
    if not (is_listen s.mode) || not s.armed
    then s
    else post (record s { listen_paused = true }) stop_listener

unfoldable pub do_resume : Stream → Stream
do_resume s =
    if not (is_listen s.mode) || not s.armed
    then s
    else post (record s { listen_paused = false }) accept_loop

-- What the loop's thread does with a post. `listener.stop` closes the listening socket, which takes
-- it out of the dispatcher; `accept_loop` registers the socket, which fails if it is closed.
unfoldable pub run_post : Post → Stream → Stream
unfolding erase_connection
run_post accept_loop s = if s.listener_open then record s { accepting = true } else s
run_post stop_listener s = record s { listener_open = false; accepting = false }
run_post connect_async s = s
run_post (erase_entry fd) s = erase_connection s fd

run_front : List Post → Stream → Stream
run_front [] s = s
run_front (p ∷ ps) s = run_post p (record s { posted = ps })

-- The loop's thread runs the oldest post.
unfoldable pub run_next : Stream → Stream
unfolding run_front run_post
run_next s = run_front s.posted s

-- The end of `do_destroy`, after the loop's thread has been joined.
unfoldable pub clear_connections : Stream → Stream
clear_connections s = record s { connections = []; connection_count = 0 }
