-- ===== src/Hub/Counts.antt =====
-- How the hub's operations change its connection and reservation counts.
use mathlib.Core.Path.{subst}
use hsync_server.Prelude.{
  ℕ, ◌+◌, ◌≤◌, ◌≡◌, refl, sym, ◌⊎◌, some, List, [], ◌∷◌, Text, Dict, lookup, insert, delete, IsMap,
  keep_if, length, ◌==◌, nat_eq, nat_eqb_iff, Bool-cases, Option-cases, inl, inr, arith,
}
use hsync_server.Hub.State.{
  Client, Hub, clients_of, active_connections, count_user_clients, holds, add_client, drop_client,
  unregister_of, unregister, push_to_user, broadcast_to_all, take_from, take_message,
}
use hsync_server.Hub.Ownership.{remaining, clients_of-remaining}

pub active-delete :
    (u : ℕ) (m : Dict ℕ (List ℕ))
    → IsMap m
    → active_connections (delete u m) + length (clients_of u m) ≡ active_connections m
unfolding active_connections delete clients_of lookup
active-delete u [] h = omega arith
active-delete u ((v, cs) ∷ m) h = elim (Bool-cases (v == u)) [
  | inl same ↦ ground (arith, active-delete u m h.1, nat_eqb_iff v u, h.0)
  | inr other ↦ ground (arith, active-delete u m h.1)
]

pub active-insert :
    (u : ℕ) (cs : List ℕ) (m : Dict ℕ (List ℕ))
    → IsMap m
    → active_connections (insert u cs m) + length (clients_of u m)
      ≡ active_connections m + length cs
unfolding active_connections insert
active-insert u cs m h = omega (arith, active-delete u m h)

pub length-add_le : (c : ℕ) (cs : List ℕ) → length (add_client c cs) ≤ length cs + 1
unfolding add_client
length-add_le c cs = ground arith

pub length-drop_le : (c : ℕ) (cs : List ℕ) → length (drop_client c cs) ≤ length cs
unfolding drop_client keep_if
length-drop_le c [] = omega arith
length-drop_le c (d ∷ cs) = ground (arith, length-drop_le c cs)

active-remaining :
    (u : ℕ) (rest : List ℕ) (m : Dict ℕ (List ℕ))
    → IsMap m
    → active_connections (remaining u rest m) + length (clients_of u m)
      ≡ active_connections m + length rest
active-remaining u [] m h = omega (arith, active-delete u m h)
active-remaining u (d ∷ ds) m h = active-insert u (d ∷ ds) m h

-- No count grows, and the limits and reservations stay.
pub record NoGrowth (h h' : Hub) : Type 0 where
  pub active : active_connections h'.clients ≤ active_connections h.clients
  pub user : (u : ℕ) → count_user_clients h' u ≤ count_user_clients h u
  pub pending : h'.pending ≡ h.pending
  pub pending_global : h'.pending_global ≡ h.pending_global
  pub max_connections : h'.max_connections ≡ h.max_connections
  pub max_per_user : h'.max_per_user ≡ h.max_per_user

pub NoGrowth-refl : (h : Hub) → NoGrowth h h
NoGrowth-refl h = record {
  active = omega arith;
  user = λ u. omega arith;
  pending = refl;
  pending_global = refl;
  max_connections = refl;
  max_per_user = refl;
}

heap-NoGrowth : (h : Hub) (heap : Dict ℕ Client) → NoGrowth h (record h { heap = heap })
unfolding count_user_clients
heap-NoGrowth h heap = record {
  active = omega arith;
  user = λ u. omega arith;
  pending = refl;
  pending_global = refl;
  max_connections = refl;
  max_per_user = refl;
}

push_form :
    (h : Hub) (u : ℕ) (msg : Text) (r : Hub × List ℕ)
    → push_to_user h u msg ≡ some r
    → r.0 ≡ record h { heap = r.0.heap }
unfolding push_to_user
push_form h u msg r e = ground arith

broadcast_form :
    (h : Hub) (msg : Text) (r : Hub × List ℕ)
    → broadcast_to_all h msg ≡ some r
    → r.0 ≡ record h { heap = r.0.heap }
unfolding broadcast_to_all
broadcast_form h msg r e = ground arith

pub push-NoGrowth :
    (h : Hub) (u : ℕ) (msg : Text) (r : Hub × List ℕ)
    → push_to_user h u msg ≡ some r
    → NoGrowth h r.0
push-NoGrowth h u msg r e =
    subst (NoGrowth h) (sym (push_form h u msg r e)) (heap-NoGrowth h r.0.heap)

pub broadcast-NoGrowth :
    (h : Hub) (msg : Text) (r : Hub × List ℕ) → broadcast_to_all h msg ≡ some r → NoGrowth h r.0
broadcast-NoGrowth h msg r e =
    subst (NoGrowth h) (sym (broadcast_form h msg r e)) (heap-NoGrowth h r.0.heap)

take_from-NoGrowth :
    (h : Hub) (c : ℕ) (obj : Client) (queue : List Text) → NoGrowth h (take_from h c obj queue)
unfolding take_from
take_from-NoGrowth h c obj [] = NoGrowth-refl h
take_from-NoGrowth h c obj (msg ∷ rest) = heap-NoGrowth h _

pub take-NoGrowth : (h : Hub) (c : ℕ) → NoGrowth h (take_message h c)
unfolding take_message
take-NoGrowth h c = elim (Option-cases (lookup c h.heap)) [
  | inl gone ↦ rw (gone, take_message) (NoGrowth-refl h)
  | inr (obj, e) ↦ rw (e, take_message) (take_from-NoGrowth h c obj obj.queue)
]

-- A hub that lost a client of the user.
abbrev fewer : Hub → ℕ → ℕ → Dict ℕ Client → Hub
fewer h c user heap = record h {
  heap = heap;
  clients = remaining user (drop_client c (clients_of user h.clients)) h.clients;
}

fewer-NoGrowth :
    (h : Hub) (c user : ℕ) (heap : Dict ℕ Client)
    → IsMap h.clients
    → NoGrowth h (fewer h c user heap)
unfolding count_user_clients
fewer-NoGrowth h c user heap is_map = record {
  active = omega (
    arith,
    active-remaining user (drop_client c (clients_of user h.clients)) h.clients is_map,
    length-drop_le c (clients_of user h.clients),
  );
  user = λ u. rw clients_of-remaining (elim (Bool-cases (user == u)) [
    | inl mine ↦
        rw mine (ground (arith, nat_eqb_iff user u, length-drop_le c (clients_of user h.clients)))
    | inr other ↦ rw other (omega arith)
  ]);
  pending = refl;
  pending_global = refl;
  max_connections = refl;
  max_per_user = refl;
}

unregister_form :
    (h h' : Hub) (c user : ℕ)
    → unregister_of h c user ≡ some h'
    → (h' ≡ h) ⊎ (h' ≡ fewer h c user h'.heap)
unfolding unregister_of
unregister_form h h' c user e = elim (Bool-cases (holds c (clients_of user h.clients))) [
  | inl there ↦ inr (ground arith)
  | inr gone ↦ inl (ground arith)
]

pub unregister-NoGrowth :
    (h h' : Hub) (c : ℕ) → IsMap h.clients → unregister h c ≡ some h' → NoGrowth h h'
unfolding unregister
unregister-NoGrowth h h' c is_map e = elim (Option-cases (lookup c h.heap)) [
  | inl gone ↦ absurd (ground arith)
  | inr (obj, found) ↦ elim (unregister_form h h' c obj.user_id (ground arith)) [
    | inl same ↦ subst (NoGrowth h) (sym same) (NoGrowth-refl h)
    | inr lost ↦ subst (NoGrowth h) (sym lost) (fewer-NoGrowth h c obj.user_id h'.heap is_map)
  ]
]
