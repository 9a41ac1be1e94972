-- ===== src/Hub/State.antt =====
-- pkg/ws/hub.go: the hub's maps, the client objects they point to, and the hub's operations. A
-- client is the number of its object in the heap. What panics in Go (a send on a closed channel, a
-- second close) is none. Connection counts are numbers of live objects and do not wrap.
use hsync_server.Prelude.{
  ℕ, ◌+◌, ◌-◌, ℤ, pos, ltb_ℤ, leb_ℤ, Bool, true, false, not, ◌&&◌, Option, none, some, List, [],
  ◌∷◌, ◌++◌, Text, Dict, lookup, insert, delete, keep_if, any_if, length, ltb, leb, ◌==◌, nat_eq,
  if◌then◌else◌,
}

-- The send channel's buffer.
abbrev pub buffer_size : ℕ
buffer_size = 64

-- Client: the queue is what the send channel holds.
pub record Client : Type 0 where
  pub user_id : ℕ
  pub device_id : ℕ
  pub reserved : Bool
  pub queue : List Text
  pub closed : Bool

-- Hub, with its options' limits and the heap of the clients ever made.
pub record Hub : Type 0 where
  pub clients : Dict ℕ (List ℕ)
  pub pending : Dict ℕ ℕ
  pub pending_global : ℕ
  pub max_connections : ℤ
  pub max_per_user : ℤ
  pub heap : Dict ℕ Client

unfoldable pub new_hub : ℤ → ℤ → Hub
new_hub max_connections max_per_user = record {
  clients = [];
  pending = [];
  pending_global = 0;
  max_connections = max_connections;
  max_per_user = max_per_user;
  heap = [];
}

-- activeConnectionCountLocked
unfoldable pub active_connections : Dict ℕ (List ℕ) → ℕ
active_connections [] = 0
active_connections ((u, cs) ∷ m) = length cs + active_connections m

-- The clients of a user; a missing key of a Go map reads as the empty set, or as 0.
unfoldable pub clients_of : ℕ → Dict ℕ (List ℕ) → List ℕ
clients_of u m = elim (lookup u m) [ none ↦ [] | some cs ↦ cs ]

unfoldable pub pending_of : ℕ → Dict ℕ ℕ → ℕ
pending_of u m = elim (lookup u m) [ none ↦ 0 | some n ↦ n ]

-- countUserClients
unfoldable pub count_user_clients : Hub → ℕ → ℕ
count_user_clients h u = length (clients_of u h.clients)

-- ActiveUserCount
unfoldable pub active_users : Hub → ℕ
active_users h = length h.clients

-- Whether a positive limit is reached.
abbrev pub reached : ℤ → ℕ → Bool
reached limit n = ltb_ℤ (pos 0) limit && leb_ℤ limit (pos n)

-- reserveSlot
unfoldable pub reserve_slot : Hub → ℕ → Hub × Bool
reserve_slot h u =
    if reached h.max_connections (active_connections h.clients + h.pending_global)
    then (h, false)
    else if reached h.max_per_user (count_user_clients h u + pending_of u h.pending)
    then (h, false)
    else (
      record h {
        pending_global = h.pending_global + 1;
        pending = insert u (pending_of u h.pending + 1) h.pending;
      },
      true,
    )

-- releaseReservedLocked
unfoldable pub release_reserved : Hub → ℕ → Hub
release_reserved h u = record h {
  pending_global = if ltb 0 h.pending_global then h.pending_global - 1 else h.pending_global;
  pending =
      if leb (pending_of u h.pending) 1
      then delete u h.pending
      else insert u (pending_of u h.pending - 1) h.pending;
}

unfoldable pub holds : ℕ → List ℕ → Bool
holds c cs = any_if (λ d. d == c) cs

-- clients[client] = true on a set.
unfoldable pub add_client : ℕ → List ℕ → List ℕ
add_client c cs = if holds c cs then cs else c ∷ cs

-- delete(clients, client) on a set.
unfoldable pub drop_client : ℕ → List ℕ → List ℕ
drop_client c cs = keep_if (λ d. not (d == c)) cs

abbrev pub new_client : ℕ → ℕ → Bool → Client
new_client user device reserved = record {
  user_id = user;
  device_id = device;
  reserved = reserved;
  queue = [];
  closed = false;
}

-- registerClient makes the object at the fresh place c; Run's register case takes it in.
unfoldable pub register : Hub → ℕ → ℕ → ℕ → Bool → Hub
register h c user device reserved =
    let released = if reserved then release_reserved h user else h in
    record released {
      clients = insert user (add_client c (clients_of user h.clients)) h.clients;
      heap = insert c (new_client user device reserved) h.heap;
    }

-- close(client.send)
unfoldable pub close_send : ℕ → Dict ℕ Client → Option (Dict ℕ Client)
close_send c heap = elim (lookup c heap) [
  | none ↦ none
  | some obj ↦ if obj.closed then none else some (insert c (record obj { closed = true }) heap)
]

-- Run's unregister case, for a client with the given user.
unfoldable pub unregister_of : Hub → ℕ → ℕ → Option Hub
unregister_of h c user =
    if holds c (clients_of user h.clients)
    then (let rest = drop_client c (clients_of user h.clients) in
        elim (close_send c h.heap) [
          | none ↦ none
          | some heap ↦ some (record h {
            heap = heap;
            clients = elim rest [
              | [] ↦ delete user h.clients
              | d ∷ ds ↦ insert user (d ∷ ds) h.clients
            ];
          })
        ])
    else some h

unfoldable pub unregister : Hub → ℕ → Option Hub
unregister h c = elim (lookup c h.heap) [ none ↦ none | some obj ↦ unregister_of h c obj.user_id ]

-- The select of PushToUser for one client: a full buffer makes it a client to unregister.
unfoldable pub send : Text → ℕ → Dict ℕ Client → Option (Dict ℕ Client × Bool)
send msg c heap = elim (lookup c heap) [
  | none ↦ none
  | some obj ↦
      if obj.closed
      then none
      else if ltb (length obj.queue) buffer_size
      then some (insert c (record obj { queue = obj.queue ++ msg ∷ [] }) heap, false)
      else some (heap, true)
]

-- The loop over a set of clients; the second part lists the slow ones, for each of which a
-- goroutine sends an unregister.
unfoldable pub send_all : Text → List ℕ → Dict ℕ Client → Option (Dict ℕ Client × List ℕ)
send_all msg [] heap = some (heap, [])
send_all msg (c ∷ cs) heap = elim (send msg c heap) [
  | none ↦ none
  | some (heap', slow) ↦ elim (send_all msg cs heap') [
    | none ↦ none
    | some (heap'', slows) ↦ some (heap'', if slow then c ∷ slows else slows)
  ]
]

unfoldable pub push_to_user : Hub → ℕ → Text → Option (Hub × List ℕ)
push_to_user h u msg = elim (send_all msg (clients_of u h.clients) h.heap) [
  | none ↦ none
  | some (heap, slow) ↦ some (record h { heap = heap }, slow)
]

unfoldable pub all_clients : Dict ℕ (List ℕ) → List ℕ
all_clients [] = []
all_clients ((u, cs) ∷ m) = cs ++ all_clients m

unfoldable pub broadcast_to_all : Hub → Text → Option (Hub × List ℕ)
broadcast_to_all h msg = elim (send_all msg (all_clients h.clients) h.heap) [
  | none ↦ none
  | some (heap, slow) ↦ some (record h { heap = heap }, slow)
]

-- writePump takes the first message of the queue.
unfoldable pub take_from : Hub → ℕ → Client → List Text → Hub
take_from h c obj [] = h
take_from h c obj (msg ∷ rest) = record h { heap = insert c (record obj { queue = rest }) h.heap }

unfoldable pub take_message : Hub → ℕ → Hub
take_message h c = elim (lookup c h.heap) [ none ↦ h | some obj ↦ take_from h c obj obj.queue ]
