-- ===== src/Stream/Examples.antt =====
-- The theorems on src/high/stream.cpp at concrete runs.
use socketpp.Base.{
  ℕ, ◌+◌, ◌%◌, ◌^◌, ◌≤◌, ◌≡◌, refl, ◌⊎◌, true, false, none, [], ◌∷◌, length, is_some, nat_eq,
  if◌then◌else◌,
}
use socketpp.Base.Map.{lookup, insert}
use socketpp.Stream.{listen, create, on_accept, on_connect, do_pause, run_next}
use socketpp.Stream.System.{
  System, mem, start, Step, arms, accepts, accepts_connecting, closes, closes_early, Reach, here,
  next,
}
use socketpp.Stream.Tracking.{total, count_and_limit}
use socketpp.Stream.Reuse.{count, fresh_descriptors_are_tracked, reused_descriptor_loses_entry}
use socketpp.Stream.Pausing.{resumes, runs, act_all, paused_server_stays_deaf}

-- A server with a limit of two accepts descriptors 5 and 6; 5 closes.
abbrev closed_run : (s : System) × Reach true (start (create listen 2)) s
unfolding create on_accept insert
closed_run = (
  _,
  next
      (next (next here (accepts 5 50 refl refl (λ h. (refl, refl)) refl))
        (accepts 6 60 refl refl (λ h. (refl, refl)) refl))
      (closes 5 refl),
)

count_and_limit_example :
    (closed_run.0.server.connection_count ≡ total closed_run.0 % 2 ^ 64)
    × ((◌≡◌ {A = ℕ} 2 0) ⊎ (length closed_run.0.server.connections ≤ 2))
count_and_limit_example = count_and_limit listen 2 true closed_run.0 closed_run.1

fresh_descriptors_are_tracked_example :
    (if is_some (lookup 5 closed_run.0.server.connections) then 1 else 0)
    ≡ count 5 closed_run.0.installed
      + count 5 closed_run.0.connecting
      + count 5 closed_run.0.erasing
      + count 5 closed_run.0.lost
fresh_descriptors_are_tracked_example =
    fresh_descriptors_are_tracked listen 2 closed_run.0 5 closed_run.1

-- Descriptor 5 is closed and its entry not yet erased; no limit is set.
abbrev one_closed : System
unfolding create
one_closed = record {
  server = record (create listen 0) { connections = (5, 50) ∷ []; connection_count = 1 };
  installed = [];
  connecting = [];
  erasing = 5 ∷ [];
  lost = [];
}

reused_descriptor_loses_entry_example :
    (t : System) × Reach false one_closed t
    × (mem 5 t.installed ≡ true)
    × (lookup 5 t.server.connections ≡ none)
unfolding create on_accept insert
reused_descriptor_loses_entry_example =
    reused_descriptor_loses_entry one_closed 5 51 refl refl refl refl

-- With a connect handler: descriptor 5 is accepted.
abbrev connecting_run : (s : System) × Reach true (start (create listen 0)) s
unfolding create on_accept on_connect insert
connecting_run =
    (_, next (next here arms) (accepts_connecting 5 50 refl refl (λ h. (refl, refl)) refl))

abbrev early_close : (t : System) × Step true connecting_run.0 t
unfolding create on_accept on_connect insert
early_close = (_, closes_early 5 refl)

paused_server_stays_deaf_example :
    (act_all
      (run_next (do_pause (run_next (on_connect (create listen 0)))))
      (resumes ∷ runs ∷ [])).accepting
    ≡ false
unfolding create on_connect run_next
paused_server_stays_deaf_example =
    paused_server_stays_deaf (run_next (on_connect (create listen 0))) (resumes ∷ runs ∷ []) refl
      refl refl
