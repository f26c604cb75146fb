-- ===== src/Dgram/Arming.antt =====
-- How the datagram socket of src/high/dgram.cpp gets its handlers, is registered with the dispatcher,
-- and is paused and resumed, on Linux and macOS.
use socketpp.Base.{
  ◌≡◌, refl, Bool, true, false, ◌&&◌, not, List, [], ◌∷◌, ◌++◌, if◌then◌else◌, arith, sym, ap, ◌∙◌,
}

-- What is posted to the loop: the call of `add` or of `remove` for the socket.
pub data Task : Type 0 where
  add_socket remove_socket : Task

-- `registered`: the dispatcher has the socket, for readable events.
pub record Arming : Type 0 where
  pub has_on_data : Bool
  pub has_on_data_batch : Bool
  pub armed : Bool
  pub paused : Bool
  pub posted : List Task
  pub registered : Bool

unfoldable pub create : Arming
create = record {
  has_on_data = false;
  has_on_data_batch = false;
  armed = false;
  paused = false;
  posted = [];
  registered = false;
}

abbrev pub post : Arming → Task → Arming
post s t = record s { posted = s.posted ++ t ∷ [] }

unfoldable pub arm : Arming → Arming
arm s = if s.armed then s else post (record s { armed = true }) add_socket

unfoldable pub do_pause : Arming → Arming
do_pause s = if not s.armed then s else post (record s { paused = true }) remove_socket

unfoldable pub do_resume : Arming → Arming
do_resume s = if not s.armed then s else post (record s { paused = false }) add_socket

-- `handler`: it is a function, and not empty.
unfoldable pub do_on_data : Arming → Bool → Arming
unfolding arm
do_on_data s handler = arm (record s { has_on_data = handler; has_on_data_batch = false })

unfoldable pub do_on_data_batch : Arming → Bool → Arming
unfolding arm
do_on_data_batch s handler = arm (record s { has_on_data_batch = handler; has_on_data = false })

-- What the dispatcher does: `add` fails where the socket is registered, `remove` where it is not, and
-- both leave it as it is then.
unfoldable pub run_task : Bool → Task → Bool
run_task registered add_socket = true
run_task registered remove_socket = false

unfoldable pub run_all : Bool → List Task → Bool
unfolding run_task
run_all registered [] = registered
run_all registered (t ∷ ts) = run_all (run_task registered t) ts

-- One user thread, and the loop's thread, which runs the oldest task.
pub data Step (s : Arming) : Arming → Type 0 where
  sets_on_data : (b : Bool) → Step s (do_on_data s b)
  sets_on_data_batch : (b : Bool) → Step s (do_on_data_batch s b)
  pauses : Step s (do_pause s)
  resumes : Step s (do_resume s)
  runs :
      (t : Task) (ts : List Task)
      → s.posted ≡ t ∷ ts
      → Step s (record s { posted = ts; registered = run_task s.registered t })

pub data Reach (s : Arming) : Arming → Type 0 where
  here : Reach s s
  next : {t u : Arming} → Reach s t → Step t u → Reach s u

record Inv (s : Arming) : Type 0 where
  settles : run_all s.registered s.posted ≡ (s.armed && not s.paused)
  unarmed : s.armed ≡ false → s.paused ≡ false
  exclusive : (s.has_on_data && s.has_on_data_batch) ≡ false

run_all-append : (b : Bool) (ts : List Task) (t : Task) → run_all b (ts ++ t ∷ []) ≡ run_task b t
unfolding run_all run_task
run_all-append b [] t = refl
run_all-append b (u ∷ ts) add_socket = run_all-append (run_task b u) ts add_socket
run_all-append b (u ∷ ts) remove_socket = run_all-append (run_task b u) ts remove_socket

arm-Inv :
    (s : Arming)
    → run_all s.registered s.posted ≡ (s.armed && not s.paused)
    → (s.armed ≡ false → s.paused ≡ false)
    → (s.has_on_data && s.has_on_data_batch) ≡ false
    → Inv (arm s)
unfolding arm run_task
arm-Inv s h u x = record {
  settles = ground (arith, h, u, run_all-append s.registered s.posted add_socket);
  unarmed = ground (arith, u);
  exclusive = ground (arith, x);
}

pause-Inv : (s : Arming) → Inv s → Inv (do_pause s)
unfolding do_pause run_task
pause-Inv s v = record {
  settles = ground (arith, v.settles, run_all-append s.registered s.posted remove_socket);
  unarmed = ground (arith, v.unarmed);
  exclusive = ground (arith, v.exclusive);
}

resume-Inv : (s : Arming) → Inv s → Inv (do_resume s)
unfolding do_resume run_task
resume-Inv s v = record {
  settles = ground (arith, v.settles, run_all-append s.registered s.posted add_socket);
  unarmed = ground (arith, v.unarmed);
  exclusive = ground (arith, v.exclusive);
}

Step-Inv : {s t : Arming} → Step s t → Inv s → Inv t
unfolding do_on_data do_on_data_batch run_all
Step-Inv {s} (sets_on_data b) v = arm-Inv _ v.settles v.unarmed (ground arith)
Step-Inv {s} (sets_on_data_batch b) v = arm-Inv _ v.settles v.unarmed (ground arith)
Step-Inv {s} pauses v = pause-Inv s v
Step-Inv {s} resumes v = resume-Inv s v
Step-Inv {s} (runs t ts e) v = record {
  settles = ap (run_all s.registered) (sym e) ∙ v.settles;
  unarmed = v.unarmed;
  exclusive = v.exclusive;
}

Reach-Inv : {s : Arming} → Reach create s → Inv s
unfolding create run_all
Reach-Inv here = record { settles = refl; unarmed = λ e. refl; exclusive = refl }
Reach-Inv (next r st) = Step-Inv st (Reach-Inv r)

-- Where one thread sets handlers, pauses and resumes: when the loop's thread has run what is posted,
-- the socket is registered exactly if a handler was set and it is not paused; never are both handlers
-- set. A pause before the first handler is ignored: the handler that is set next registers the socket.
pub interest_settles :
    (s : Arming)
    → Reach create s
    → (run_all s.registered s.posted ≡ (s.armed && not s.paused))
      × ((s.has_on_data && s.has_on_data_batch) ≡ false)
      × (s.armed ≡ false
          → (b : Bool)
          → (let t = do_on_data (do_pause s) b in run_all t.registered t.posted) ≡ true)
unfolding do_pause do_on_data run_task
interest_settles s r =
    let v = Reach-Inv r in
    (v.settles, v.exclusive, λ n b. rw n (run_all-append s.registered s.posted add_socket))
