-- ===== src/Options/Examples.antt =====
-- The theorems on the socket options at concrete options.
use socketpp.Base.{
  ℕ, ◌+◌, ◌*◌, ◌==◌, ◌≡◌, refl, Bool, true, false, Option, none, some, List, [], ◌∷◌, replicate,
  take, drop, arith, if◌then◌else◌,
}
use socketpp.Errors.{ErrorCode, system_code}
use socketpp.Net.{Word32}
use socketpp.Net.SockAddress.{SockAddress}
use socketpp.Options.{
  linux, windows, SocketOptionId, SocketOptions, Layout, Family, inet, inet6, other_family, Setting,
}
use socketpp.Options.Build
use socketpp.Options.Apply.{
  Os, result_of, apply_entries, apply_to, apply_pre_bind, apply_post_bind, leave_all_multicast,
}
use socketpp.Options.Plan.{Ran, plan, apply_stops_at_first_failure}
use socketpp.Options.Parts.{answers, Split, pre_and_post_bind_are_apply_to}
use socketpp.Options.Multicast.{Joins, join_all, memberships, joined_groups_are_left}

-- The layout of Linux.
abbrev byte : List ℕ → ℕ → ℕ
byte bs i = elim (drop i bs) [ [] ↦ 0 | b ∷ rest ↦ b ]

abbrev word : List ℕ → ℕ → Word32
word bs i = record {
  b0 = byte bs i;
  b1 = byte bs (i + 1);
  b2 = byte bs (i + 2);
  b3 = byte bs (i + 3);
}

abbrev family : ℕ → Family
family n = if n == 2 then inet else if n == 10 then inet6 else other_family

abbrev layout : Layout
layout = record {
  sa_family = λ bs. family (byte bs 0 + byte bs 1 * 256);
  sin_addr = λ bs. word bs 4;
  sin6_addr = λ bs. take 16 (drop 8 bs);
  sin6_scope_id = λ bs. byte bs 24;
}

-- 239.1.2.3 and 10.0.0.1.
abbrev group : SockAddress
group = record { storage = 2 ∷ 0 ∷ 0 ∷ 0 ∷ 239 ∷ 1 ∷ 2 ∷ 3 ∷ replicate 120 0; len = 16 }

abbrev iface : SockAddress
iface = record { storage = 2 ∷ 0 ∷ 0 ∷ 0 ∷ 10 ∷ 0 ∷ 0 ∷ 1 ∷ replicate 120 0; len = 16 }

abbrev joins : Joins
joins = (group, iface) ∷ []

-- The size of the send buffer and a keep-alive time.
abbrev options : SocketOptions
options = record (Build.keep_alive_idle 30 (Build.send_buf 4096 Build.create)) {
  has_recv_buf = true;
}

-- With a membership among them.
abbrev member : SocketOptions
member = record options {
  entries =
      record {
        id = SocketOptionId.multicast_join;
        bytes = replicate 264 0;
        platform_available = true;
      }
      ∷ options.entries;
}

-- The send buffer is refused when it is the second call.
abbrev strict : Os
strict [] c = none
strict (d ∷ done) c = some (system_code 22)

abbrev sizes : Bool → Option ℕ
sizes b = some 8192

abbrev accepting : Setting → Option ErrorCode
accepting c = none

apply_stops_at_first_failure_example :
    (error : Option ErrorCode) × Ran strict []
      (plan windows layout false options.entries)
      (apply_entries windows layout strict sizes options false).0
      error
    × ((apply_entries windows layout strict sizes options false).1
        ≡ result_of windows layout strict sizes options error)
apply_stops_at_first_failure_example =
    apply_stops_at_first_failure windows layout strict sizes options false

pre_and_post_bind_are_apply_to_example :
    Split
      (apply_to linux layout (answers accepting) sizes member)
      (apply_pre_bind linux layout (answers accepting) sizes member)
      (apply_post_bind linux layout (answers accepting) member)
pre_and_post_bind_are_apply_to_example =
    pre_and_post_bind_are_apply_to linux layout accepting sizes member

joined_groups_are_left_example :
    (t : SocketOptions) × (join_all joins Build.create ≡ some t)
    × (let (calls, error) = apply_post_bind linux layout strict t in
        Ran strict [] (memberships layout true joins) calls error)
    × (let (calls, error) = leave_all_multicast linux layout strict t in
        Ran strict [] (memberships layout false joins) calls error)
unfolding Build.create
joined_groups_are_left_example =
    joined_groups_are_left linux layout strict Build.create joins tt
      ((omega arith, refl), (omega arith, refl), tt)
