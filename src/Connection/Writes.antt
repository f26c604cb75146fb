-- ===== src/Connection/Writes.antt =====
-- What the operations of src/high/connection_engine.hpp do to the write queue, and the invariant of
-- `Integrity`.
use socketpp.Base.{
  ℕ, ◌+◌, ◌-◌, ◌≤◌, ◌≡◌, ◌≢◌, ap, true, false, List, [], ◌∷◌, ◌++◌, length, take, drop, concat,
  concat-append, append-nil, append_assoc, length-append, take-append-drop, arith,
}
use socketpp.Connection.{
  Connection, Task, start_task, register_task, close_task, pause_task, resume_task, IoEvents, Recv,
  received, would_block, failed, flushed, chunk, run_task, on_io_event, drain_next,
}
use socketpp.Connection.System.{System, Phase, idle, draining, sending}

module _ {ℓ} {A : Type ℓ} where
  -- What every operation but those on the write queue keeps.
  pub record Kept (c c' : Connection A) : Type ℓ where
    pub queue : c'.write_queue ≡ c.write_queue
    pub bytes : c'.write_queue_bytes ≡ c.write_queue_bytes
    pub limit : c'.max_write_queue_bytes ≡ c.max_write_queue_bytes
    pub stays_closed : c'.closed ≡ false → c.closed ≡ false

  pub Kept-posted :
      (c c' : Connection A) (ts : List Task) → Kept (record c { posted = ts }) c' → Kept c c'
  Kept-posted c c' ts k = record {
    queue = k.queue;
    bytes = k.bytes;
    limit = k.limit;
    stays_closed = k.stays_closed;
  }

  pub run_task-Kept : (t : Task) (c : Connection A) → Kept c (run_task t c)
  unfolding run_task
  run_task-Kept start_task c = ground arith
  run_task-Kept register_task c = ground arith
  run_task-Kept close_task c = ground arith
  run_task-Kept pause_task c = ground arith
  run_task-Kept resume_task c = ground arith

  pub on_io_event-Kept :
      (c : Connection A) (e : IoEvents) (r : Recv A)
      → Kept c (on_io_event c e r).0
        × ((on_io_event c e r).1 ≡ true → (on_io_event c e r).0.closed ≡ false)
  unfolding on_io_event
  on_io_event-Kept c e would_block = ground arith
  on_io_event-Kept c e failed = ground arith
  on_io_event-Kept c e (received []) = ground arith
  on_io_event-Kept c e (received (x ∷ xs)) = ground arith

  pub drain_next-flushed :
      (c c' : Connection A) → drain_next c ≡ flushed c' → (c.write_queue ≡ []) × Kept c c'
  unfolding drain_next
  drain_next-flushed c c' h = ground arith

  pub drain_next-chunk :
      (c c' : Connection A) (front : List A)
      → drain_next c ≡ chunk front c'
      → (c.write_queue ≡ front ∷ c'.write_queue)
        × (c'.write_queue_bytes ≡ c.write_queue_bytes - length front)
        × (c'.max_write_queue_bytes ≡ c.max_write_queue_bytes)
        × (c'.closed ≡ c.closed)
  unfolding drain_next
  drain_next-chunk c c' front h = ground arith

  abbrev pub unsent_of : Phase A → List A
  unsent_of (sending unsent) = unsent
  unsent_of _ = []

  abbrev pub rest_of : List (List A) → List (List A)
  rest_of [] = []
  rest_of (x ∷ xs) = xs

  -- The chunks that count against the limit: all but the one at the front, which may be in the hands
  -- of the loop's thread or may have come back from there.
  abbrev pub counted : Phase A → List (List A) → List (List A)
  counted (sending unsent) q = q
  counted _ q = rest_of q

  abbrev pub Short : ℕ → List (List A) → Type 0
  Short m [] = Unit
  Short m (x ∷ xs) = (length x ≤ m) × Short m xs

  pub record Inv (s : System A) : Type ℓ where
    pub stream :
        s.wire ++ (unsent_of s.phase ++ (s.dropped ++ concat s.conn.write_queue)) ≡ s.accepted
    pub busy_open : s.phase ≢ idle → s.conn.closed ≡ false
    pub none_dropped : s.conn.closed ≡ false → s.dropped ≡ []
    pub count : s.conn.write_queue_bytes ≡ length (concat s.conn.write_queue)
    pub short : Short s.conn.max_write_queue_bytes s.conn.write_queue
    pub short_unsent : length (unsent_of s.phase) ≤ s.conn.max_write_queue_bytes
    pub limited :
        length (concat (counted s.phase s.conn.write_queue)) ≤ s.conn.max_write_queue_bytes

  pub Short-append :
      (m : ℕ) (q : List (List A)) (x : List A) → Short m q → length x ≤ m → Short m (q ++ x ∷ [])
  Short-append m [] x h k = (k, tt)
  Short-append m (y ∷ q) x h k = (h.0, Short-append m q x h.1 k)

  pub length-concat-append :
      (q : List (List A)) (x : List A)
      → length (concat (q ++ x ∷ [])) ≡ length (concat q) + length x
  length-concat-append q x = omega (
    arith,
    ap length (concat-append q (x ∷ [])),
    length-append (concat q) (x ++ []),
    ap length (append-nil x),
  )

  pub counted-append :
      (p : Phase A) (q : List (List A)) (x : List A)
      → length (concat (counted p (q ++ x ∷ []))) ≤ length (concat q) + length x
  counted-append (sending u) q x = omega (arith, length-concat-append q x)
  counted-append idle [] x = omega arith
  counted-append idle (y ∷ q) x =
      omega (arith, length-concat-append q x, length-append y (concat q))
  counted-append draining [] x = omega arith
  counted-append draining (y ∷ q) x =
      omega (arith, length-concat-append q x, length-append y (concat q))

  pub stream-append :
      (w u d a x : List A) (q : List (List A))
      → w ++ (u ++ (d ++ concat q)) ≡ a
      → w ++ (u ++ (d ++ concat (q ++ x ∷ []))) ≡ a ++ x
  stream-append w u d a x q h = simp (concat-append, append_assoc, append-nil, ← h)

  pub rest-le :
      (p : Phase A) (q : List (List A)) → length (concat (counted p q)) ≤ length (concat q)
  rest-le (sending u) q = omega arith
  rest-le idle [] = omega arith
  rest-le idle (x ∷ q) = omega (arith, length-append x (concat q))
  rest-le draining [] = omega arith
  rest-le draining (x ∷ q) = omega (arith, length-append x (concat q))

  pub sent-stream :
      (w u r a : List A) (n : ℕ) → w ++ (u ++ r) ≡ a → (w ++ take n u) ++ (drop n u ++ r) ≡ a
  sent-stream w u r a n h =
      rw (append_assoc, ← append_assoc (take n u) (drop n u) r, take-append-drop n u) h
