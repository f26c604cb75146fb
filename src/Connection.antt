-- ===== src/Connection.antt =====
-- src/high/connection_engine.hpp (tcp_conn_impl) and src/high/stream_connection_impl.hpp: one TCP
-- connection. A function is what one thread does without a point at which another may come between:
-- a critical section of `write_mutex_`, or a part of a callback on the loop's thread.
pub mod System
pub mod Writes
pub mod Keeping
pub mod Integrity
pub mod Closing
pub mod Watching
pub mod Interests
mod Examples
use socketpp.Base.{
  ℕ, ◌+◌, ◌-◌, Bool, true, false, ◌||◌, not, Option, none, some, List, [], ◌∷◌, ◌++◌, length,
  is_empty, ltb, ◌==◌, if◌then◌else◌,
}

-- The readable and writable bits of the mask registered with the dispatcher.
pub record Interest : Type 0 where
  pub readable : Bool
  pub writable : Bool

-- The bits of the mask that a dispatcher reports.
pub record IoEvents : Type 0 where
  pub readable : Bool
  pub writable : Bool
  pub error : Bool
  pub hangup : Bool

-- What is posted to the event loop.
pub data Task : Type 0 where
  start_task register_task close_task pause_task resume_task : Task

-- What is submitted to the connection's serial queue: `on_data_` with a copy, or `on_close_`.
pub data Callback {ℓ} (A : Type ℓ) : Type ℓ where
  on_data : List A → Callback A
  on_close : Callback A

-- `interest` is the registration with the dispatcher, if there is one; `has_on_data` and
-- `has_on_close` say whether the handlers are set.
pub record Connection {ℓ} (A : Type ℓ) : Type ℓ where
  pub closed : Bool
  pub paused : Bool
  pub has_on_data : Bool
  pub has_on_close : Bool
  pub write_queue : List (List A)
  pub write_queue_bytes : ℕ
  pub max_write_queue_bytes : ℕ
  pub write_registered : Bool
  pub socket_open : Bool
  pub interest : Option Interest
  pub posted : List Task
  pub callbacks : List (Callback A)

-- What `socket_.recv` returns: bytes (none at the peer's shutdown), `would_block`, or an error.
pub data Recv {ℓ} (A : Type ℓ) : Type ℓ where
  received : List A → Recv A
  would_block failed : Recv A

-- What one round of `drain_write_queue` does under the lock.
pub data Drain {ℓ} (A : Type ℓ) : Type ℓ where
  flushed : Connection A → Drain A
  chunk : List A → Connection A → Drain A

module _ {ℓ} {A : Type ℓ} where
  unfoldable pub create : ℕ → Bool → Bool → Connection A
  create max_bytes with_data with_close = record {
    closed = false;
    paused = false;
    has_on_data = with_data;
    has_on_close = with_close;
    write_queue = [];
    write_queue_bytes = 0;
    max_write_queue_bytes = max_bytes;
    write_registered = false;
    socket_open = true;
    interest = none;
    posted = [];
    callbacks = [];
  }

  -- `loop_->io().modify`: it fails, and changes nothing, where the socket is not registered.
  unfoldable pub modify : Connection A → Interest → Connection A
  modify c i = elim c.interest [ none ↦ c | some _ ↦ record c { interest = some i } ]

  -- `loop_->io().add`: it fails for a closed socket and for one that is registered already.
  add_interest : Connection A → Interest → Option Interest → Connection A
  add_interest c i none = if c.socket_open then record c { interest = some i } else c
  add_interest c i (some j) = c

  unfoldable pub add : Connection A → Interest → Connection A
  unfolding add_interest
  add c i = add_interest c i c.interest

  abbrev pub post : Connection A → Task → Connection A
  post c t = record c { posted = c.posted ++ t ∷ [] }

  -- `enqueue_send` under the lock.
  unfoldable pub enqueue_locked : Connection A → List A → Connection A × Bool
  enqueue_locked c bytes =
      if ltb c.max_write_queue_bytes (c.write_queue_bytes + length bytes)
      then (c, false)
      else let queued = record c {
        write_queue = c.write_queue ++ bytes ∷ [];
        write_queue_bytes = c.write_queue_bytes + length bytes;
      } in
        (
          if c.write_registered
              then queued
              else post (record queued { write_registered = true }) register_task,
          true,
        )

  unfoldable pub enqueue_send : Connection A → List A → Connection A × Bool
  unfolding enqueue_locked
  enqueue_send c bytes =
      if c.closed || (length bytes == 0) then (c, false) else enqueue_locked c bytes

  unfoldable pub register_writable : Connection A → Connection A
  unfolding modify
  register_writable c =
      if c.closed then c else modify c (record { readable = true; writable = true })

  unfoldable pub initiate_close : Connection A → Connection A
  initiate_close c = if c.closed then c else record c {
    closed = true;
    interest = none;
    socket_open = false;
    callbacks = if c.has_on_close then c.callbacks ++ on_close ∷ [] else c.callbacks;
  }

  unfoldable pub close_from_user : Connection A → Connection A
  close_from_user c = if c.closed then c else post c close_task

  unfoldable pub start_reading : Connection A → Connection A
  start_reading c = post c start_task

  -- The callback that `start_reading` posts.
  unfoldable pub start_on_loop : Connection A → Connection A
  unfolding add
  start_on_loop c = add c (record { readable = true; writable = not (is_empty c.write_queue) })

  unfoldable pub pause_from_user : Connection A → Connection A
  pause_from_user c = if c.closed then c else post (record c { paused = true }) pause_task

  unfoldable pub pause_on_loop : Connection A → Connection A
  unfolding modify
  pause_on_loop c =
      if c.closed then c else modify c (record { readable = false; writable = c.write_registered })

  unfoldable pub resume_from_user : Connection A → Connection A
  resume_from_user c = if c.closed then c else post (record c { paused = false }) resume_task

  unfoldable pub resume_on_loop : Connection A → Connection A
  unfolding modify
  resume_on_loop c =
      if c.closed then c else modify c (record { readable = true; writable = c.write_registered })

  -- What the loop's thread does with a posted callback.
  unfoldable pub run_task : Task → Connection A → Connection A
  unfolding start_on_loop register_writable initiate_close pause_on_loop resume_on_loop
  run_task start_task c = start_on_loop c
  run_task register_task c = register_writable c
  run_task close_task c = initiate_close c
  run_task pause_task c = pause_on_loop c
  run_task resume_task c = resume_on_loop c

  -- The readable branch of `on_io_event`; the second part says whether the call goes on.
  unfoldable pub on_readable : Connection A → Recv A → Connection A × Bool
  unfolding initiate_close
  on_readable c would_block = (c, false)
  on_readable c failed = (initiate_close c, false)
  on_readable c (received []) = (initiate_close c, false)
  on_readable c (received (x ∷ xs)) = (
    if c.has_on_data then record c { callbacks = c.callbacks ++ on_data (x ∷ xs) ∷ [] } else c,
    true,
  )

  -- `on_io_event` up to the call of `drain_write_queue`, which the second part announces.
  unfoldable pub on_io_event : Connection A → IoEvents → Recv A → Connection A × Bool
  unfolding on_readable initiate_close
  on_io_event c e r =
      if c.closed
      then (c, false)
      else if e.error || e.hangup
      then (initiate_close c, false)
      else if e.readable
      then (let (c', more) = on_readable c r in if more then (c', e.writable) else (c', false))
      else (c, e.writable)

  drain_front : Connection A → List (List A) → Drain A
  drain_front c [] = flushed (
      modify (record c { write_registered = false }) (record { readable = true; writable = false }))
  drain_front c (front ∷ rest) =
      chunk front
        (record c { write_queue = rest; write_queue_bytes = c.write_queue_bytes - length front })

  -- A round of the loop in `drain_write_queue`, up to the sends.
  unfoldable pub drain_next : Connection A → Drain A
  unfolding drain_front modify
  drain_next c = drain_front c c.write_queue

  -- The socket would block: the unsent remainder goes back to the front.
  unfoldable pub push_back : Connection A → List A → Connection A
  push_back c remaining = record c {
    write_queue = remaining ∷ c.write_queue;
    write_queue_bytes = c.write_queue_bytes + length remaining;
  }
