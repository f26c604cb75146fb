-- ===== src/Connection/Keeping.antt =====
-- The outbound bytes of a connection (src/high/connection_engine.hpp): the steps keep the invariant.
use socketpp.Base.{
  ℕ, ◌≡◌, ◌≢◌, ◌∙◌, refl, Bool, true, false, List, [], ◌++◌, take, drop, concat, length-append,
  length-drop, arith,
}
use socketpp.Connection.{
  Connection, chunk, create, enqueue_locked, initiate_close, close_from_user, start_reading,
  pause_from_user, resume_from_user, drain_next, push_back,
}
use socketpp.Connection.System.{
  System, idle, draining, sending, start, sends, Step, user_send, user_close, user_pause,
  user_resume, begin, task, event, flush, next_chunk, sent, chunk_done, send_blocks, send_fails,
  Reach, here, next,
}
use socketpp.Connection.Writes.{
  Kept, Kept-posted, run_task-Kept, on_io_event-Kept, drain_next-flushed, drain_next-chunk,
  unsent_of, counted, Inv, Short-append, length-concat-append, counted-append, stream-append,
  rest-le, sent-stream,
}

module _ {ℓ} {A : Type ℓ} where
  pub start-Inv : (m : ℕ) (d c : Bool) → Inv (start {A = A} m d c)
  unfolding create
  start-Inv m d c = ground arith

  -- A step that leaves the queue and the chunk in hand alone.
  record Quiet (s t : System A) : Type ℓ where
    kept : Kept s.conn t.conn
    unsent : unsent_of t.phase ≡ unsent_of s.phase
    counts : (q : List (List A)) → counted t.phase q ≡ counted s.phase q
    wire : t.wire ≡ s.wire
    dropped : t.dropped ≡ s.dropped
    accepted : t.accepted ≡ s.accepted
    busy : t.phase ≢ idle → t.conn.closed ≡ false

  Quiet-Inv : (s t : System A) → Inv s → Quiet s t → Inv t
  Quiet-Inv s t v k = record {
    stream = rw (k.wire, k.unsent, k.dropped, k.kept.queue, k.accepted) v.stream;
    busy_open = k.busy;
    none_dropped = λ o. k.dropped ∙ v.none_dropped (k.kept.stays_closed o);
    count = rw (k.kept.queue, k.kept.bytes) v.count;
    short = rw (k.kept.queue, k.kept.limit) v.short;
    short_unsent = rw (k.unsent, k.kept.limit) v.short_unsent;
    limited = rw (k.kept.queue, k.kept.limit, k.counts s.conn.write_queue) v.limited;
  }

  same_phase :
      (s : System A) (c : Connection A)
      → Inv s
      → Kept s.conn c
      → (s.phase ≢ idle → c.closed ≡ false)
      → Inv (record s { conn = c })
  same_phase s c v k o = Quiet-Inv s _ v (record {
    kept = k;
    unsent = refl;
    counts = λ q. refl;
    wire = refl;
    dropped = refl;
    accepted = refl;
    busy = o;
  })

  sends-Inv : (s : System A) (bytes : List A) → Inv s → Inv (sends s bytes)
  unfolding enqueue_locked
  sends-Inv s bytes v = ground (
    arith,
    stream-append (s.wire) (unsent_of s.phase) s.dropped s.accepted bytes s.conn.write_queue,
    length-concat-append s.conn.write_queue bytes,
    Short-append s.conn.max_write_queue_bytes s.conn.write_queue bytes v.short,
    counted-append s.phase s.conn.write_queue bytes,
  )

  next_chunk-Inv :
      (s : System A) (front : List A) (c : Connection A)
      → Inv s
      → s.phase ≡ draining
      → drain_next s.conn ≡ chunk front c
      → Inv (record s { conn = c; phase = sending front })
  next_chunk-Inv s front c v e d = ground (
    arith,
    v.busy_open,
    drain_next-chunk s.conn c front d,
    length-append front (concat c.write_queue),
  )

  sent-Inv :
      (s : System A) (u : List A) (n : ℕ)
      → Inv s
      → s.phase ≡ sending u
      → Inv (record s { phase = sending (drop n u); wire = s.wire ++ take n u })
  sent-Inv s u n v e = record {
    stream =
        sent-stream s.wire u (s.dropped ++ concat s.conn.write_queue) s.accepted n
          (ground (arith, v.stream));
    busy_open = λ _. v.busy_open (λ p. cc);
    none_dropped = v.none_dropped;
    count = v.count;
    short = v.short;
    short_unsent = ground (arith, v.short_unsent, length-drop n u);
    limited = ground (arith, v.limited);
  }

  chunk_done-Inv :
      (s : System A) → Inv s → s.phase ≡ sending [] → Inv (record s { phase = draining })
  chunk_done-Inv s v e = ground (arith, v.busy_open, rest-le draining s.conn.write_queue)

  send_blocks-Inv :
      (s : System A) (u : List A)
      → Inv s
      → s.phase ≡ sending u
      → Inv (record s { conn = push_back s.conn u; phase = idle })
  unfolding push_back
  send_blocks-Inv s u v e = ground (arith, v.busy_open, length-append u (concat s.conn.write_queue))

  send_fails-Inv :
      (s : System A) (u : List A)
      → Inv s
      → s.phase ≡ sending u
      → Inv (record s { conn = initiate_close s.conn; phase = idle; dropped = u })
  unfolding initiate_close
  send_fails-Inv s u v e = ground (arith, v.busy_open, rest-le idle s.conn.write_queue)

  Step-Inv : {s t : System A} → Step s t → Inv s → Inv t
  unfolding close_from_user start_reading pause_from_user resume_from_user
  Step-Inv {s} (user_send bytes n) v = sends-Inv s bytes v
  Step-Inv {s} user_close v = same_phase s _ v (ground arith) (ground (arith, v.busy_open))
  Step-Inv {s} user_pause v = same_phase s _ v (ground arith) (ground (arith, v.busy_open))
  Step-Inv {s} user_resume v = same_phase s _ v (ground arith) (ground (arith, v.busy_open))
  Step-Inv {s} (begin b) v =
      same_phase (record s { begun = true }) (start_reading s.conn)
        (Quiet-Inv s (record s { begun = true }) v
          (record {
            kept = ground arith;
            unsent = refl;
            counts = λ q. refl;
            wire = refl;
            dropped = refl;
            accepted = refl;
            busy = v.busy_open;
          }))
        (ground arith) (ground (arith, v.busy_open))
  Step-Inv {s} (task t ts e p) v =
      same_phase s _ v (Kept-posted s.conn _ ts (run_task-Kept t (record (s.conn) { posted = ts })))
        (λ n. absurd (n e))
  Step-Inv {s} (event i ev r e p) v = Quiet-Inv s _ v (record {
    kept = (on_io_event-Kept s.conn ev r).0;
    unsent = ground arith;
    counts = λ q. ground arith;
    wire = refl;
    dropped = refl;
    accepted = refl;
    busy = ground (arith, on_io_event-Kept s.conn ev r);
  })
  Step-Inv {s} (flush c e d) v = Quiet-Inv s _ v (record {
    kept = (drain_next-flushed s.conn c d).1;
    unsent = ground arith;
    counts = λ q. ground arith;
    wire = refl;
    dropped = refl;
    accepted = refl;
    busy = λ n. absurd (n refl);
  })
  Step-Inv {s} (next_chunk front c e d) v = next_chunk-Inv s front c v e d
  Step-Inv {s} (sent u n e lo hi) v = sent-Inv s u n v e
  Step-Inv {s} (chunk_done e) v = chunk_done-Inv s v e
  Step-Inv {s} (send_blocks u e n) v = send_blocks-Inv s u v e
  Step-Inv {s} (send_fails u e n) v = send_fails-Inv s u v e

  pub Reach-Inv : (m : ℕ) (d c : Bool) {s : System A} → Reach (start m d c) s → Inv s
  Reach-Inv m d c here = start-Inv m d c
  Reach-Inv m d c (next r st) = Step-Inv st (Reach-Inv m d c r)
