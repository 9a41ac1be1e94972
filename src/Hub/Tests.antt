-- ===== src/Hub/Tests.antt =====
-- pkg/ws/hub.go: runs at concrete inputs.
use hsync_server.Prelude.{
  ℕ, ◌+◌, ◌≡◌, ◌≢◌, refl, pos, true, false, none, [], ◌∷◌, lookup, insert, delete, any_if, nat_eq,
}
use hsync_server.GoStrings.{codes}
use hsync_server.Hub.State.{
  new_client, new_hub, clients_of, pending_of, active_connections, count_user_clients, reserve_slot,
  release_reserved, register, unregister, push_to_user, broadcast_to_all, add_client, holds,
}
use hsync_server.Hub.System.{
  System, reserves, arrives, Reach, here, next, initial, within_limit, count_user,
}
use hsync_server.Hub.Governance.{limits_hold, never_panics}

-- A hub for two connections, one for each user, with a reservation of user 5.
abbrev reserved : System
reserved = record { hub = (reserve_slot (new_hub (pos 2) (pos 1)) 5).0; holders = 5 ∷ [] }

-- The same after client 0 of user 5 has come in on it.
abbrev connected : System
connected = record { hub = register reserved.hub 0 5 11 true; holders = [] }

connected-Reach : Reach (initial (pos 2) (pos 1)) connected
unfolding reserve_slot new_hub lookup active_connections count_user_clients clients_of pending_of
connected-Reach = next (next here (reserves 5 refl)) (arrives 5 0 11 [] [] refl refl)

limits_hold_example :
    (within_limit (pos 2) (active_connections connected.hub.clients + 0) ≡ true)
    × ((u : ℕ) → within_limit (pos 1) (count_user_clients connected.hub u + count_user u []) ≡ true)
limits_hold_example = limits_hold (pos 2) (pos 1) connected connected-Reach

never_panics_example :
    (push_to_user connected.hub 5 (codes "hello") ≢ none)
    × (broadcast_to_all connected.hub (codes "hello") ≢ none)
    × (unregister connected.hub 0 ≢ none)
unfolding reserve_slot new_hub register release_reserved lookup insert delete clients_of pending_of
    active_connections count_user_clients add_client holds any_if
never_panics_example =
    never_panics (pos 2) (pos 1) connected 5 0 (codes "hello") (new_client 5 11 true)
      connected-Reach refl

second_refused_test : (reserve_slot connected.hub 5).1 ≡ false
unfolding reserve_slot new_hub register release_reserved lookup insert delete count_user_clients
    clients_of pending_of active_connections add_client holds any_if
second_refused_test = refl
