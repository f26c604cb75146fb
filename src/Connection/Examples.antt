-- ===== src/Connection/Examples.antt =====
-- The theorems on a connection (src/high/connection_engine.hpp) at concrete runs.
use socketpp.Base.{
  ℕ, ◌+◌, ◌*◌, ◌≤◌, ◌<◌, ◌≡◌, refl, true, false, ◌⊎◌, some, [], ◌∷◌, ◌++◌, length, concat, arith,
  cons_ne_nil,
}
use socketpp.Connection.{
  start_task, register_task, received, IoEvents, create, enqueue_locked, start_reading, run_task,
  on_io_event, drain_next, push_back,
}
use socketpp.Connection.System.{
  sends, System, idle, start, user_send, begin, task, event, next_chunk, sent, send_blocks, Reach,
  here, next,
}
use socketpp.Connection.Writes.{unsent_of}
use socketpp.Connection.Integrity.{stream_integrity, queue_accounting}
use socketpp.Connection.Watching.{registered, registers, starts, watches_write, watches_read}
use socketpp.Connection.Interests.{queued_bytes_are_watched, send_undoes_pause}

abbrev writable_event : IoEvents
writable_event = record { readable = false; writable = true; error = false; hangup = false }

-- Three bytes are sent during `on_connect`, reading starts, the socket becomes writable, takes one
-- byte and blocks.
abbrev Run : System ℕ → Type 0
Run s = Reach (start 4 true true) s

abbrev sending_run : (s : System ℕ) × Run s
unfolding create enqueue_locked start_reading run_task on_io_event drain_next
sending_run = (
  _,
  next
      (next
        (next
          (next (next (next here (user_send (1 ∷ 2 ∷ 3 ∷ []) cons_ne_nil)) (begin refl))
            (task register_task (start_task ∷ []) refl refl))
          (task start_task [] refl refl))
        (event (record { readable = true; writable = true }) writable_event (received []) refl
          refl))
      (next_chunk (1 ∷ 2 ∷ 3 ∷ []) _ refl refl),
)

abbrev blocked_run : (s : System ℕ) × Run s
unfolding create enqueue_locked start_reading run_task on_io_event drain_next push_back
blocked_run = (
  _,
  next (next sending_run.1 (sent (1 ∷ 2 ∷ 3 ∷ []) 1 refl (omega arith) (omega arith)))
      (send_blocks (2 ∷ 3 ∷ []) refl cons_ne_nil),
)

stream_integrity_example :
    (blocked_run.0.wire
        ++ (unsent_of blocked_run.0.phase
            ++ (blocked_run.0.dropped ++ concat blocked_run.0.conn.write_queue))
      ≡ blocked_run.0.accepted)
    × (blocked_run.0.conn.closed ≡ false → blocked_run.0.dropped ≡ [])
stream_integrity_example = stream_integrity 4 true true blocked_run.0 blocked_run.1

queue_accounting_example :
    (blocked_run.0.conn.write_queue_bytes ≡ length (concat blocked_run.0.conn.write_queue))
    × (length (unsent_of blocked_run.0.phase) + blocked_run.0.conn.write_queue_bytes
        ≤ 2 * blocked_run.0.conn.max_write_queue_bytes)
queue_accounting_example = queue_accounting 4 true true blocked_run.0 blocked_run.1

queued_bytes_are_watched_example :
    (watches_write blocked_run.0.conn.interest ≡ true)
    ⊎ (0 < starts blocked_run.0.conn.posted)
    ⊎ ((registered blocked_run.0.conn.interest ≡ 1) × (0 < registers blocked_run.0.conn.posted))
unfolding create enqueue_locked start_reading run_task on_io_event drain_next push_back
queued_bytes_are_watched_example =
    queued_bytes_are_watched 4 true true blocked_run.0 blocked_run.1 refl refl refl cons_ne_nil

-- A connection that has been paused, before the user sends.
abbrev paused_system : System ℕ
unfolding create
paused_system = record {
  conn = record (create {A = ℕ} 4 true true) {
    paused = true;
    interest = some (record { readable = false; writable = false });
  };
  phase = idle;
  begun = true;
  accepted = [];
  wire = [];
  dropped = [];
}

send_undoes_pause_example :
    let sent = sends paused_system (9 ∷ []) in
    let c = run_task register_task (record (sent.conn) { posted = [] }) in
    (sent.accepted ≡ paused_system.accepted ++ (9 ∷ []))
    × (sent.conn.posted ≡ register_task ∷ [])
    × Reach paused_system (record sent { conn = c })
    × (c.paused ≡ true)
    × (watches_read c.interest ≡ true)
unfolding create
send_undoes_pause_example =
    send_undoes_pause paused_system (9 ∷ []) refl refl refl refl refl refl cons_ne_nil (omega arith)
