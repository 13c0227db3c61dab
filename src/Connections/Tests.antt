-- ===== src/Connections/Tests.antt =====
-- Sockets of one source, and the theorem at them.
use vidvnc.Base.{ℕ, ◌≡◌, refl, false, List, [], ◌∷◌, Text, codes, before, dec_text}
use vidvnc.Base.Table.{get, set, delete}
use vidvnc.Sessions.Device.{starts_with}
use vidvnc.Grants.Cookies.{normalize_peer, is_dotted}
use vidvnc.Peers.Addresses.{plain_address, source_group}
use vidvnc.Connections.Limits.{Server, count, take_socket, closed, connection}
use vidvnc.Connections.Capped.{Capped, Event, connects, closes, run, run-Capped}

runs : Unit {0}
unfolding dec_text before starts_with is_dotted normalize_peer plain_address source_group get set
    delete take_socket closed connection run
runs = tt

-- All addresses of the tests are of IPv4.
abbrev is_ip : Text → ℕ
is_ip s = 4

abbrev no_sockets : Server
no_sockets = record { counts = []; sockets = [] }

abbrev guest : Text
guest = codes "::ffff:192.168.1.9"

abbrev events : List Event
events =
    connects 1 guest
    ∷ connects 2 guest
    ∷ connects 3 (codes "127.0.0.1")
    ∷ closes 1
    ∷ closes 1
    ∷ closes 3
    ∷ []

left_over : count (codes "192.168.1.9") (run is_ip no_sockets events).counts ≡ 1
unfolding runs
left_over = refl

abbrev all_of_them : List Event
all_of_them =
    connects 1 guest
    ∷ connects 2 guest
    ∷ connects 3 guest
    ∷ connects 4 guest
    ∷ connects 5 guest
    ∷ connects 6 guest
    ∷ connects 7 guest
    ∷ connects 8 guest
    ∷ connects 9 guest
    ∷ connects 10 guest
    ∷ connects 11 guest
    ∷ connects 12 guest
    ∷ []

refused : (connection is_ip (run is_ip no_sockets all_of_them) 13 guest).1 ≡ false
unfolding runs
refused = refl

run-Capped_example : Capped (run is_ip no_sockets events)
run-Capped_example = run-Capped is_ip events
