-- ===== src/Connection/System.antt =====
-- A connection (src/high/connection_engine.hpp) among the loop's thread and any threads that send,
-- close, pause and resume.
use socketpp.Base.{
  ℕ, ◌≤◌, ◌<◌, ◌≡◌, ◌≢◌, Bool, true, false, some, List, [], ◌∷◌, ◌++◌, length, take, drop,
  if◌then◌else◌,
}
use socketpp.Connection.{
  Connection, Task, Interest, IoEvents, Recv, flushed, chunk, create, enqueue_locked,
  initiate_close, close_from_user, start_reading, pause_from_user, resume_from_user, run_task,
  on_io_event, drain_next, push_back,
}

-- Where the loop's thread stands: outside the connection, at the top of the loop of
-- `drain_write_queue`, or in its inner loop with a chunk of which `unsent` is left.
pub data Phase {ℓ} (A : Type ℓ) : Type ℓ where
  idle draining : Phase A
  sending : (unsent : List A) → Phase A

-- `accepted`: the bytes of the calls of `enqueue_send` that returned true, in order. `wire`: the
-- bytes that the socket took. `dropped`: those of a chunk whose send failed. `begun`: `start_reading`
-- has been called.
pub record System {ℓ} (A : Type ℓ) : Type ℓ where
  pub conn : Connection A
  pub phase : Phase A
  pub begun : Bool
  pub accepted : List A
  pub wire : List A
  pub dropped : List A

module _ {ℓ} {A : Type ℓ} where
  abbrev pub start : ℕ → Bool → Bool → System A
  start max_bytes with_data with_close = record {
    conn = create max_bytes with_data with_close;
    phase = idle;
    begun = false;
    accepted = [];
    wire = [];
    dropped = [];
  }

  abbrev pub sends : System A → List A → System A
  sends s bytes =
      let (c, ok) = enqueue_locked s.conn bytes in
      record s { conn = c; accepted = if ok then s.accepted ++ bytes else s.accepted }

  pub data Step (s : System A) : System A → Type ℓ where
    user_send : (bytes : List A) → bytes ≢ [] → Step s (sends s bytes)
    user_close : Step s (record s { conn = close_from_user s.conn })
    user_pause : Step s (record s { conn = pause_from_user s.conn })
    user_resume : Step s (record s { conn = resume_from_user s.conn })
    begin : s.begun ≡ false → Step s (record s { conn = start_reading s.conn; begun = true })
    task :
        (t : Task) (ts : List Task)
        → s.phase ≡ idle
        → s.conn.posted ≡ t ∷ ts
        → Step s (record s { conn = run_task t (record (s.conn) { posted = ts }) })
    event :
        (i : Interest) (e : IoEvents) (r : Recv A)
        → s.phase ≡ idle
        → s.conn.interest ≡ some i
        → Step s (record s {
          conn = (on_io_event s.conn e r).0;
          phase = if (on_io_event s.conn e r).1 then draining else idle;
        })
    flush :
        (c : Connection A)
        → s.phase ≡ draining
        → drain_next s.conn ≡ flushed c
        → Step s (record s { conn = c; phase = idle })
    next_chunk :
        (front : List A) (c : Connection A)
        → s.phase ≡ draining
        → drain_next s.conn ≡ chunk front c
        → Step s (record s { conn = c; phase = sending front })
    sent :
        (unsent : List A) (n : ℕ)
        → s.phase ≡ sending unsent
        → 0 < n
        → n ≤ length unsent
        → Step s (record s { phase = sending (drop n unsent); wire = s.wire ++ take n unsent })
    chunk_done : s.phase ≡ sending [] → Step s (record s { phase = draining })
    send_blocks :
        (unsent : List A)
        → s.phase ≡ sending unsent
        → unsent ≢ []
        → Step s (record s { conn = push_back s.conn unsent; phase = idle })
    send_fails :
        (unsent : List A)
        → s.phase ≡ sending unsent
        → unsent ≢ []
        → Step s (record s { conn = initiate_close s.conn; phase = idle; dropped = unsent })

  pub data Reach (s : System A) : System A → Type ℓ where
    here : Reach s s
    next : {t u : System A} → Reach s t → Step t u → Reach s u
