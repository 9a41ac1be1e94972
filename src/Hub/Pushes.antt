-- ===== src/Hub/Pushes.antt =====
-- Pushes, broadcasts and the channels that they reach.
use hsync_server.Prelude.{
  ℕ, ◌≡◌, refl, ap, true, none, some, List, [], ◌∷◌, Text, Dict, lookup, IsMap, any_if, length,
  nat_eq, nat_eqb_iff, All, All-append, Option-cases, inl, inr, arith,
}
use hsync_server.Hub.State.{
  Client, Hub, clients_of, holds, push_to_user, broadcast_to_all, all_clients, take_from,
  take_message,
}
use hsync_server.Hub.Sends.{
  IsOpenAt, Keeps, Delivers, send_all_open, insert-Keeps, insert-IsBuffered,
}
use hsync_server.Hub.Ownership.{IsOwned, IsSafe}

holds-head : (c : ℕ) (cs : List ℕ) → holds c (c ∷ cs) ≡ true
unfolding holds any_if
holds-head c cs = ground arith

holds-tail : (c d : ℕ) (cs : List ℕ) → holds c cs ≡ true → holds c (d ∷ cs) ≡ true
unfolding holds any_if
holds-tail c d cs h = ground arith

All-of_holds {ℓ} : (P : ℕ → Type ℓ) (cs : List ℕ) → ((c : ℕ) → holds c cs ≡ true → P c) → All P cs
All-of_holds P [] h = tt
All-of_holds P (c ∷ cs) h =
    (h c (holds-head c cs), All-of_holds P cs (λ d e. h d (holds-tail d c cs e)))

-- The sets of a map's tail are sets of the whole map.
clients_of-tail :
    (u v c : ℕ) (cs : List ℕ) (m : Dict ℕ (List ℕ))
    → lookup u m ≡ none
    → holds c (clients_of v m) ≡ true
    → holds c (clients_of v ((u, cs) ∷ m)) ≡ true
unfolding clients_of lookup holds any_if
clients_of-tail u v c cs m new h = ground (arith, nat_eqb_iff u v)

clients_of-head : (u : ℕ) (cs : List ℕ) (m : Dict ℕ (List ℕ)) → clients_of u ((u, cs) ∷ m) ≡ cs
unfolding clients_of lookup
clients_of-head u cs m = ground arith

All-clients {ℓ} :
    (P : ℕ → Type ℓ) (m : Dict ℕ (List ℕ))
    → IsMap m
    → ((u c : ℕ) → holds c (clients_of u m) ≡ true → P c)
    → All P (all_clients m)
unfolding all_clients
All-clients P [] is_map h = tt
All-clients P ((u, cs) ∷ m) is_map h =
    All-append P cs (all_clients m) (All-of_holds P cs (λ c e. h u c (rw clients_of-head e)))
      (All-clients P m is_map.1 (λ v c e. h v c (clients_of-tail u v c cs m is_map.0 e)))

opened : (heap : Dict ℕ Client) (u c : ℕ) → IsOwned heap u c → IsOpenAt heap c
opened heap u c (obj, e, o, s) = (obj, e, s)

IsOwned-Keeps : (a b : Dict ℕ Client) (u c : ℕ) → Keeps a b → IsOwned a u c → IsOwned b u c
IsOwned-Keeps a b u c k (obj, e, o, s) = let (obj', e', o', s') = k c obj e in (obj', e', cc, cc)

-- A change of the heap that keeps users and states.
heap-IsSafe :
    (h : Hub) (heap : Dict ℕ Client)
    → Delivers h.heap heap
    → IsSafe h
    → IsSafe (record h { heap = heap })
heap-IsSafe h heap d s = record {
  is_map = s.is_map;
  owned = λ u c there. IsOwned-Keeps h.heap heap u c d.0 (s.owned u c there);
  buffered = d.1 s.buffered;
}

pub push_total :
    (h : Hub) (u : ℕ) (msg : Text)
    → IsSafe h
    → (r : Hub × List ℕ) × (push_to_user h u msg ≡ some r) × IsSafe r.0
unfolding push_to_user
push_total h u msg s =
    let ((heap, slow), e, d) = send_all_open msg (clients_of u h.clients) h.heap (
      All-of_holds (IsOpenAt h.heap) (clients_of u h.clients)
        (λ c there. opened h.heap u c (s.owned u c there))) in
    ((record h { heap = heap }, slow), ground arith, heap-IsSafe h heap d s)

pub broadcast_total :
    (h : Hub) (msg : Text)
    → IsSafe h
    → (r : Hub × List ℕ) × (broadcast_to_all h msg ≡ some r) × IsSafe r.0
unfolding broadcast_to_all
broadcast_total h msg s =
    let ((heap, slow), e, d) = send_all_open msg (all_clients h.clients) h.heap (
      All-clients (IsOpenAt h.heap) h.clients s.is_map
        (λ u c there. opened h.heap u c (s.owned u c there))) in
    ((record h { heap = heap }, slow), ground arith, heap-IsSafe h heap d s)

take_from-IsSafe :
    (h : Hub) (c : ℕ) (obj : Client) (queue : List Text)
    → lookup c h.heap ≡ some obj
    → obj.queue ≡ queue
    → IsSafe h
    → IsSafe (take_from h c obj queue)
unfolding take_from
take_from-IsSafe h c obj [] e q s = s
take_from-IsSafe h c obj (msg ∷ rest) e q s =
    heap-IsSafe h _
      (
        insert-Keeps h.heap c obj _ e refl refl,
        insert-IsBuffered h.heap c _ (omega (arith, s.buffered c obj e, ap (length {A = Text}) q)),
      )
      s

pub take_message-IsSafe : (h : Hub) (c : ℕ) → IsSafe h → IsSafe (take_message h c)
unfolding take_message
take_message-IsSafe h c s = elim (Option-cases (lookup c h.heap)) [
  | inl gone ↦ rw (gone, take_message) s
  | inr (obj, e) ↦ rw (e, take_message) (take_from-IsSafe h c obj obj.queue e refl s)
]
