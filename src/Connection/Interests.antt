-- ===== src/Connection/Interests.antt =====
-- The interest of a connection (src/high/connection_engine.hpp, stream_connection_impl.hpp): queued
-- bytes never wait without a writable notification to come, and what becomes of a pause.
use socketpp.Base.{
  ◌⊎◌, ℕ, ◌+◌, ◌≤◌, ◌<◌, ◌≡◌, ◌≢◌, refl, Bool, true, false, List, [], ◌∷◌, ◌++◌, length, is_empty,
  arith, if◌then◌else◌,
}
use socketpp.Connection.{
  Connection, Task, start_task, register_task, close_task, pause_task, resume_task, IoEvents, Recv,
  received, would_block, failed, flushed, chunk, create, enqueue_locked, initiate_close,
  close_from_user, start_reading, pause_from_user, resume_from_user, run_task, on_io_event,
  drain_next, push_back,
}
use socketpp.Connection.System.{
  System, Phase, idle, draining, sending, start, sends, Step, user_send, user_close, user_pause,
  user_resume, begin, task, event, flush, next_chunk, sent, chunk_done, send_blocks, send_fails,
  Reach, here, next,
}
use socketpp.Connection.Watching.{
  starts, registers, starts-append, registers-append, registered, watches_write, watches_read,
}

module _ {ℓ} {A : Type ℓ} where
  abbrev is_sending : Phase A → Bool
  is_sending (sending u) = true
  is_sending _ = false

  abbrev is_idle : Phase A → Bool
  is_idle idle = true
  is_idle _ = false

  -- What is registered, posted or still to come on a connection that is not closed.
  record Ready (begun : Bool) (phase : Phase A) (c : Connection A) : Type ℓ where
    queued : is_empty c.write_queue ≡ false → c.write_registered ≡ true
    in_hand : is_sending phase ≡ true → c.write_registered ≡ true
    flushed_idle : is_idle phase ≡ true → c.write_registered ≡ true → is_empty c.write_queue ≡ false
    one_start : starts c.posted + registered c.interest + (if begun then 0 else 1) ≡ 1
    ready :
        c.write_registered ≡ true
        → registered c.interest ≡ 1
        → (watches_write c.interest ≡ true) ⊎ (0 < registers c.posted)
    open_socket : c.socket_open ≡ true

  abbrev Inv : System A → Type ℓ
  Inv s = s.conn.closed ≡ false → Ready s.begun s.phase s.conn

  task-Inv :
      (begun : Bool) (c : Connection A) (t : Task) (ts : List Task)
      → c.posted ≡ t ∷ ts
      → (c.closed ≡ false → Ready begun idle c)
      → (run_task t (record c { posted = ts })).closed ≡ false
      → Ready begun idle (run_task t (record c { posted = ts }))
  unfolding run_task
  task-Inv begun c start_task ts p v o = ground (arith, v)
  task-Inv begun c register_task ts p v o = ground (arith, v)
  task-Inv begun c close_task ts p v o = ground (arith, v)
  task-Inv begun c pause_task ts p v o = ground (arith, v)
  task-Inv begun c resume_task ts p v o = ground (arith, v)

  append_nonempty : (q : List (List A)) (x : List A) → is_empty (q ++ x ∷ []) ≡ false
  append_nonempty [] x = refl
  append_nonempty (y ∷ q) x = refl

  sends-Inv : (s : System A) (bytes : List A) → Inv s → Inv (sends s bytes)
  unfolding enqueue_locked
  sends-Inv s bytes v o = ground (
    arith,
    v,
    append_nonempty s.conn.write_queue bytes,
    starts-append s.conn.posted register_task,
    registers-append s.conn.posted register_task,
  )

  event-Inv :
      (s : System A) (e : IoEvents) (r : Recv A)
      → s.phase ≡ idle
      → Inv s
      → Inv (record s {
        conn = (on_io_event s.conn e r).0;
        phase = if (on_io_event s.conn e r).1 then draining else idle;
      })
  unfolding on_io_event
  event-Inv s e would_block p v o = ground (arith, v)
  event-Inv s e failed p v o = ground (arith, v)
  event-Inv s e (received []) p v o = ground (arith, v)
  event-Inv s e (received (x ∷ xs)) p v o = ground (arith, v)

  flush_lem :
      (c c' : Connection A)
      → drain_next c ≡ flushed c'
      → (c.write_queue ≡ [])
        × (c'.write_queue ≡ [])
        × (c'.write_registered ≡ false)
        × (c'.closed ≡ c.closed)
        × (c'.posted ≡ c.posted)
        × (c'.socket_open ≡ c.socket_open)
        × (registered c'.interest ≡ registered c.interest)
  unfolding drain_next
  flush_lem c c' h = ground arith

  next_lem :
      (c c' : Connection A) (front : List A)
      → drain_next c ≡ chunk front c'
      → (c.write_queue ≡ front ∷ c'.write_queue)
        × (c'.write_registered ≡ c.write_registered)
        × (c'.closed ≡ c.closed)
        × (c'.posted ≡ c.posted)
        × (c'.socket_open ≡ c.socket_open)
        × (c'.interest ≡ c.interest)
  unfolding drain_next
  next_lem c c' front h = ground arith

  Step-Inv : {s t : System A} → Step s t → Inv s → Inv t
  unfolding close_from_user start_reading pause_from_user resume_from_user push_back initiate_close
  Step-Inv {s} (user_send bytes n) v o = sends-Inv s bytes v o
  Step-Inv {s} user_close v o =
      ground (
        arith,
        v,
        starts-append s.conn.posted close_task,
        registers-append s.conn.posted close_task,
      )
  Step-Inv {s} user_pause v o =
      ground (
        arith,
        v,
        starts-append s.conn.posted pause_task,
        registers-append s.conn.posted pause_task,
      )
  Step-Inv {s} user_resume v o = ground (
    arith,
    v,
    starts-append s.conn.posted resume_task,
    registers-append s.conn.posted resume_task,
  )
  Step-Inv {s} (begin b) v o =
      ground (
        arith,
        v,
        starts-append s.conn.posted start_task,
        registers-append s.conn.posted start_task,
      )
  Step-Inv {s} (task t ts e p) v o = rw e (task-Inv s.begun s.conn t ts p (rw e at v) o)
  Step-Inv {s} (event i ev r e p) v o = event-Inv s ev r e v o
  Step-Inv {s} (flush c e d) v o = ground (arith, v, flush_lem s.conn c d)
  Step-Inv {s} (next_chunk front c e d) v o = ground (arith, v, next_lem s.conn c front d)
  Step-Inv {s} (sent u n e lo hi) v o = ground (arith, v)
  Step-Inv {s} (chunk_done e) v o = ground (arith, v)
  Step-Inv {s} (send_blocks u e n) v o = ground (arith, v)
  Step-Inv {s} (send_fails u e n) v o = ground (arith, v)

  Reach-Inv : (m : ℕ) (d c : Bool) {s : System A} → Reach (start m d c) s → Inv s
  unfolding create
  Reach-Inv m d c here o = ground arith
  Reach-Inv m d c (next r st) o = Step-Inv st (Reach-Inv m d c r) o

  -- Queued bytes never wait for ever: when the loop's thread has left a started connection that is
  -- not closed and bytes are queued, the dispatcher watches for writability, or the task that first
  -- registers the socket is posted, or the socket is registered and the task that adds the writable
  -- interest is posted.
  pub queued_bytes_are_watched :
      (m : ℕ) (d c : Bool) (s : System A)
      → Reach (start m d c) s
      → s.conn.closed ≡ false
      → s.phase ≡ idle
      → s.begun ≡ true
      → s.conn.write_queue ≢ []
      → (watches_write s.conn.interest ≡ true)
        ⊎ (0 < starts s.conn.posted)
        ⊎ ((registered s.conn.interest ≡ 1) × (0 < registers s.conn.posted))
  queued_bytes_are_watched m d c s r o e b n = ground (arith, Reach-Inv m d c r o)

  -- A pause does not outlast a send: on a paused connection with nothing queued and no task posted,
  -- an accepted send posts one task, and that task brings the readable interest back, while
  -- `paused_` stays set.
  pub send_undoes_pause :
      (s : System A) (bytes : List A)
      → s.phase ≡ idle
      → s.conn.closed ≡ false
      → s.conn.paused ≡ true
      → s.conn.posted ≡ []
      → s.conn.write_registered ≡ false
      → registered s.conn.interest ≡ 1
      → bytes ≢ []
      → s.conn.write_queue_bytes + length bytes ≤ s.conn.max_write_queue_bytes
      → let sent = sends s bytes in
        let c = run_task register_task (record (sent.conn) { posted = [] }) in
        (sent.accepted ≡ s.accepted ++ bytes)
        × (sent.conn.posted ≡ register_task ∷ [])
        × Reach s (record sent { conn = c })
        × (c.paused ≡ true)
        × (watches_read c.interest ≡ true)
  unfolding enqueue_locked run_task
  send_undoes_pause s bytes e o p q w i n h = (
    ground arith,
    ground arith,
    next (next here (user_send bytes n)) (task register_task [] e (ground arith)),
    ground arith,
    ground arith,
  )
