-- ===== src/Connection/Watching.antt =====
-- What is posted and registered for a connection of src/high/connection_engine.hpp, counted.
use socketpp.Base.{ℕ, ◌+◌, ◌≡◌, Bool, false, Option, none, some, List, [], ◌∷◌, ◌++◌, arith}
use socketpp.Connection.{
  Task, start_task, register_task, close_task, pause_task, resume_task, Interest,
}

abbrev pub starts : List Task → ℕ
starts [] = 0
starts (start_task ∷ ts) = 1 + starts ts
starts (_ ∷ ts) = starts ts

abbrev pub registers : List Task → ℕ
registers [] = 0
registers (register_task ∷ ts) = 1 + registers ts
registers (_ ∷ ts) = registers ts

pub starts-append :
    (ts : List Task) (t : Task) → starts (ts ++ t ∷ []) ≡ starts ts + starts (t ∷ [])
starts-append [] t = omega arith
starts-append (start_task ∷ ts) t = omega (arith, starts-append ts t)
starts-append (register_task ∷ ts) t = starts-append ts t
starts-append (close_task ∷ ts) t = starts-append ts t
starts-append (pause_task ∷ ts) t = starts-append ts t
starts-append (resume_task ∷ ts) t = starts-append ts t

pub registers-append :
    (ts : List Task) (t : Task) → registers (ts ++ t ∷ []) ≡ registers ts + registers (t ∷ [])
registers-append [] t = omega arith
registers-append (start_task ∷ ts) t = registers-append ts t
registers-append (register_task ∷ ts) t = omega (arith, registers-append ts t)
registers-append (close_task ∷ ts) t = registers-append ts t
registers-append (pause_task ∷ ts) t = registers-append ts t
registers-append (resume_task ∷ ts) t = registers-append ts t

abbrev pub registered : Option Interest → ℕ
registered none = 0
registered (some i) = 1

abbrev pub watches_write : Option Interest → Bool
watches_write none = false
watches_write (some i) = i.writable

abbrev pub watches_read : Option Interest → Bool
watches_read none = false
watches_read (some i) = i.readable
