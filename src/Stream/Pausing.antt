-- ===== src/Stream/Pausing.antt =====
-- `do_pause` and `do_resume` of src/high/stream.cpp on the listener of
-- src/socket/tcp_listener.hpp, whose `stop` closes the socket.
use socketpp.Base.{◌≡◌, true, false, List, [], ◌∷◌, arith}
use socketpp.Stream.{
  Stream, listen, Post, accept_loop, stop_listener, connect_async, erase_entry, on_connect,
  do_pause, do_resume, run_next, run_post, run_front,
}

-- What the user and the loop's thread do.
pub data Action : Type 0 where
  connects pauses resumes runs : Action

unfoldable pub act : Stream → Action → Stream
act s connects = on_connect s
act s pauses = do_pause s
act s resumes = do_resume s
act s runs = run_next s

unfoldable pub act_all : Stream → List Action → Stream
act_all s [] = s
act_all s (a ∷ as') = act_all (act s a) as'

abbrev IsDeaf : Stream → Type 0
IsDeaf s = (s.listener_open ≡ false) × (s.accepting ≡ false)

run_post-IsDeaf : (p : Post) (s : Stream) → IsDeaf s → IsDeaf (run_post p s)
unfolding run_post
run_post-IsDeaf accept_loop s d = ground arith
run_post-IsDeaf stop_listener s d = ground arith
run_post-IsDeaf connect_async s d = d
run_post-IsDeaf (erase_entry fd) s d = d

run_front-IsDeaf : (ps : List Post) (s : Stream) → IsDeaf s → IsDeaf (run_front ps s)
unfolding run_front
run_front-IsDeaf [] s d = d
run_front-IsDeaf (p ∷ ps) s d = run_post-IsDeaf p (record s { posted = ps }) d

act-IsDeaf : (s : Stream) (a : Action) → IsDeaf s → IsDeaf (act s a)
unfolding act on_connect do_pause do_resume run_next
act-IsDeaf s connects d = ground arith
act-IsDeaf s pauses d = ground arith
act-IsDeaf s resumes d = ground arith
act-IsDeaf s runs d = run_front-IsDeaf s.posted s d

act_all-IsDeaf : (s : Stream) (as' : List Action) → IsDeaf s → IsDeaf (act_all s as')
unfolding act_all
act_all-IsDeaf s [] d = d
act_all-IsDeaf s (a ∷ as') d = act_all-IsDeaf (act s a) as' (act-IsDeaf s a d)

-- A listening server that has been paused never accepts again: once the loop's thread has run the
-- callback of `do_pause`, no sequence of `on_connect`, `do_pause`, `do_resume` and posted callbacks
-- brings the listener back into the dispatcher.
pub paused_server_stays_deaf :
    (s : Stream) (as' : List Action)
    → s.mode ≡ listen
    → s.armed ≡ true
    → s.posted ≡ []
    → (act_all (run_next (do_pause s)) as').accepting ≡ false
unfolding do_pause run_next
paused_server_stays_deaf s as' m a p = (act_all-IsDeaf (run_next (do_pause s)) as' (ground arith)).1
