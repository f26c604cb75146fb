-- ===== src/Connection/Integrity.antt =====
-- The outbound bytes of a connection (src/high/connection_engine.hpp): none lost, none sent twice,
-- none out of order, and how much the queue may hold.
use socketpp.Base.{
  ℕ, ◌+◌, ◌*◌, ◌≤◌, ◌≡◌, ◌≢◌, Bool, false, List, [], ◌∷◌, ◌++◌, length, concat, length-append,
  arith,
}
use socketpp.Connection.{enqueue_locked, push_back}
use socketpp.Connection.System.{
  System, Phase, idle, draining, sending, start, user_send, send_blocks, Reach, here, next,
}
use socketpp.Connection.Writes.{unsent_of, counted, Short}
use socketpp.Connection.Keeping.{Reach-Inv}

module _ {ℓ} {A : Type ℓ} where
  -- In every interleaving of senders with the loop's thread, would-blocks and partial sends included:
  -- the bytes that the socket took, then the rest of the chunk in hand, then the bytes of a chunk
  -- whose send failed, then the queued bytes, are the bytes of the accepted calls of `enqueue_send`,
  -- in order. On a connection that is not closed no byte is dropped.
  pub stream_integrity :
      (m : ℕ) (d c : Bool) (s : System A)
      → Reach (start m d c) s
      → (s.wire ++ (unsent_of s.phase ++ (s.dropped ++ concat s.conn.write_queue)) ≡ s.accepted)
        × (s.conn.closed ≡ false → s.dropped ≡ [])
  stream_integrity m d c s r = let v = Reach-Inv m d c r in (v.stream, v.none_dropped)

  length-concat-le :
      (k m : ℕ) (p : Phase A) (q : List (List A))
      → Short m q
      → length (concat (counted p q)) ≤ k
      → length (concat q) ≤ m + k
  length-concat-le k m (sending u) q h l = omega arith
  length-concat-le k m idle [] h l = omega arith
  length-concat-le k m idle (x ∷ q) h l = omega (arith, length-append x (concat q))
  length-concat-le k m draining [] h l = omega arith
  length-concat-le k m draining (x ∷ q) h l = omega (arith, length-append x (concat q))

  unsent-bound :
      (m : ℕ) (p : Phase A) (q : List (List A))
      → Short m q
      → length (unsent_of p) ≤ m
      → length (concat (counted p q)) ≤ m
      → length (unsent_of p) + length (concat q) ≤ 2 * m
  unsent-bound m (sending u) q h k l = omega arith
  unsent-bound m idle q h k l = omega (arith, length-concat-le m m idle q h l)
  unsent-bound m draining q h k l = omega (arith, length-concat-le m m draining q h l)

  -- `write_queue_bytes_` is always the number of bytes in the queue, and the queue together with the
  -- chunk in the hands of the loop's thread never holds more than twice the limit.
  pub queue_accounting :
      (m : ℕ) (d c : Bool) (s : System A)
      → Reach (start m d c) s
      → (s.conn.write_queue_bytes ≡ length (concat s.conn.write_queue))
        × (length (unsent_of s.phase) + s.conn.write_queue_bytes ≤ 2 * s.conn.max_write_queue_bytes)
  queue_accounting m d c s r =
      let v = Reach-Inv m d c r in
      (
        v.count,
        omega (
          arith,
          v.count,
          unsent-bound s.conn.max_write_queue_bytes s.phase s.conn.write_queue v.short
              v.short_unsent v.limited,
        ),
      )

  -- The chunk in the hands of the loop's thread does not count against the limit: a send that fits
  -- beside the queue alone is accepted meanwhile, and if the socket then blocks the queue holds the
  -- sum, also where that is above the limit.
  pub limit_ignores_chunk_in_hand :
      (s : System A) (u bytes : List A)
      → s.phase ≡ sending u
      → u ≢ []
      → bytes ≢ []
      → s.conn.write_queue_bytes + length bytes ≤ s.conn.max_write_queue_bytes
      → (t : System A) × Reach s t
        × (t.accepted ≡ s.accepted ++ bytes)
        × (t.conn.write_queue_bytes ≡ s.conn.write_queue_bytes + length bytes + length u)
  unfolding enqueue_locked push_back
  limit_ignores_chunk_in_hand s u bytes e n b h =
      (_, next (next here (user_send bytes b)) (send_blocks u e n), ground arith, ground arith)
