-- ===== src/Udp/Examples.antt =====
-- The theorem on batches of datagrams at a concrete system.
use socketpp.Base.{
  ◌≤◌, ◌≡◌, refl, sym, append-nil, true, false, ◌⊎◌, List, [], ◌∷◌, ◌++◌, map, length, take, arith,
}
use socketpp.Errors.{system_code, socketpp_code, invalid_state}
use socketpp.Net.Inet4.{ok, err}
use socketpp.Options.{macos}
use socketpp.Udp.{Sendto, Sendmmsg, SendEntry, do_send_batch}
use socketpp.Udp.Prefix.{
  sent, count, Documented, some_sent, Halted, wire, sent-append, batch_sends_a_prefix,
}

-- One datagram is taken at a time.
abbrev sendmmsg : Sendmmsg
sendmmsg log [] = (log, ok [])
sendmmsg log (d ∷ ds) = (log ++ (d, ok (length d.bytes)) ∷ [], ok (length d.bytes ∷ []))

abbrev sendto : Sendto
sendto [] d = ok (length d.bytes)
sendto (x ∷ log) d = err (system_code 105)

sendmmsg-Documented : Documented sendmmsg
unfolding sent
sendmmsg-Documented log [] = some_sent [] refl (omega arith) (sym (append-nil (sent log)))
sendmmsg-Documented log (d ∷ ds) =
    some_sent (length d.bytes ∷ []) refl (omega arith)
      (sent-append log ((d, ok (length d.bytes)) ∷ []))

abbrev entries : List SendEntry
entries =
    record { data_bytes = 1 ∷ 2 ∷ []; dest = record { storage = []; len = 16 } }
    ∷ record { data_bytes = 3 ∷ []; dest = record { storage = []; len = 16 } }
    ∷ []

batch_sends_a_prefix_example :
    (do_send_batch macos sendto sendmmsg false entries [] ≡ ([], err (socketpp_code invalid_state)))
    × (let (after, r) = do_send_batch macos sendto sendmmsg true entries [] in
        (count r ≤ 2)
        × (sent after ≡ sent [] ++ map (wire macos) (take (count r) entries))
        × ((after ≡ (sendmmsg [] (map (wire macos) entries)).0)
            ⊎ Halted (count r) (map (wire macos) entries) after))
batch_sends_a_prefix_example =
    batch_sends_a_prefix macos sendto sendmmsg entries [] sendmmsg-Documented
