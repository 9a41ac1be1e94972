-- ===== src/Hub/Reservations.antt =====
-- The steps that take, give back and use a reservation, and the limits.
use mathlib.Core.Path.{subst}
use hsync_server.Prelude.{
  ℕ, ◌+◌, ◌-◌, ◌≤◌, ◌≡◌, refl, sym, ap, ◌∙◌, ℤ, true, false, none, List, ◌∷◌, ◌++◌, Dict, lookup,
  insert, delete, lookup-insert, lookup-delete, length, leb, ◌==◌, nat_eq, nat_eqb_iff, Bool-cases,
  inl, inr, arith, if◌then◌else◌,
}
use hsync_server.Hub.State.{
  Hub, new_hub, clients_of, pending_of, active_connections, count_user_clients, reserve_slot,
  release_reserved, register, reached, add_client,
}
use hsync_server.Hub.Ownership.{IsSafe, new_hub-IsSafe, register-IsSafe, clients_of-insert}
use hsync_server.Hub.Counts.{NoGrowth, active-insert, length-add_le}
use hsync_server.Hub.System.{
  System, initial, count_user, count-split, length-split, Within, IsGoverned,
}

pending_of-insert :
    (u v n : ℕ) (m : Dict ℕ ℕ)
    → pending_of v (insert u n m) ≡ (if u == v then n else pending_of v m)
unfolding pending_of
pending_of-insert u v n m = ground (arith, lookup-insert u v n m)

pending_of-delete :
    (u v : ℕ) (m : Dict ℕ ℕ) → pending_of v (delete u m) ≡ (if u == v then 0 else pending_of v m)
unfolding pending_of
pending_of-delete u v m = ground (arith, lookup-delete u v m)

pending-release :
    (h : Hub) (u v : ℕ)
    → pending_of v (release_reserved h u).pending
      ≡ pending_of v h.pending - (if u == v then 1 else 0)
unfolding release_reserved
pending-release h u v = elim (Bool-cases (leb (pending_of u h.pending) 1)) [
  | inl last ↦ rw last (ground (arith, pending_of-delete u v h.pending, nat_eqb_iff u v))
  | inr more ↦ rw more (
      ground (arith, pending_of-insert u v (pending_of u h.pending - 1) h.pending, nat_eqb_iff u v))
]

global-release : (h : Hub) (u : ℕ) → (release_reserved h u).pending_global ≡ h.pending_global - 1
unfolding release_reserved
global-release h u = ground arith

-- What a granted reservation was checked against, and the hub after it.
pub reserve_form :
    (h h' : Hub) (u : ℕ)
    → reserve_slot h u ≡ (h', true)
    → (reached h.max_connections (active_connections h.clients + h.pending_global) ≡ false)
      × (reached h.max_per_user (count_user_clients h u + pending_of u h.pending) ≡ false)
      × (h' ≡ record h {
        pending_global = h.pending_global + 1;
        pending = insert u (pending_of u h.pending + 1) h.pending;
      })
unfolding reserve_slot
reserve_form h h' u e = ground arith

Within-next : (limit : ℤ) (n : ℕ) → reached limit n ≡ false → Within limit (n + 1)
Within-next limit n h p = ground arith

pub Within-mono : (limit : ℤ) (m n : ℕ) → m ≤ n → Within limit n → Within limit m
Within-mono limit m n h w p = omega (arith, w p)

pub initial-IsGoverned : (a b : ℤ) → IsGoverned (initial a b)
unfolding count_user new_hub active_connections count_user_clients clients_of pending_of lookup
initial-IsGoverned a b = record {
  safe = new_hub-IsSafe a b;
  global = refl;
  per_user = λ u. refl;
  room = λ p. ground arith;
  user_room = λ u p. ground arith;
}

-- A step that grows no count and keeps the handlers.
pub quiet-IsGoverned :
    (s : System) (h : Hub)
    → IsGoverned s
    → NoGrowth s.hub h
    → IsSafe h
    → IsGoverned (record s { hub = h })
unfolding count_user_clients
quiet-IsGoverned s h g q safe = record {
  safe = safe;
  global = q.pending_global ∙ g.global;
  per_user = λ u. ap (pending_of u) q.pending ∙ g.per_user u;
  room =
      rw (q.max_connections, q.pending_global)
        (Within-mono s.hub.max_connections _
          (active_connections s.hub.clients + s.hub.pending_global) (omega (arith, q.active))
          g.room);
  user_room = λ u.
      rw (q.max_per_user, q.pending)
        (Within-mono s.hub.max_per_user _ (count_user_clients s.hub u + pending_of u s.hub.pending)
          (omega (arith, q.user u)) (g.user_room u));
}

reserved-IsGoverned :
    (s : System) (u : ℕ)
    → IsGoverned s
    → reached s.hub.max_connections (active_connections s.hub.clients + s.hub.pending_global)
      ≡ false
    → reached s.hub.max_per_user (count_user_clients s.hub u + pending_of u s.hub.pending) ≡ false
    → IsGoverned (record {
      hub = record s.hub {
        pending_global = s.hub.pending_global + 1;
        pending = insert u (pending_of u s.hub.pending + 1) s.hub.pending;
      };
      holders = u ∷ s.holders;
    })
unfolding count_user count_user_clients
reserved-IsGoverned s u g free user_free = record {
  safe = record { is_map = g.safe.is_map; owned = g.safe.owned; buffered = g.safe.buffered };
  global = omega (arith, g.global);
  per_user =
      λ v. rw pending_of-insert (ground (arith, nat_eqb_iff u v, g.per_user v, g.per_user u));
  room = Within-mono _ _ _ (omega arith) (Within-next _ _ free);
  user_room = λ v. rw pending_of-insert (elim (Bool-cases (u == v)) [
    | inl same ↦
        rw (same, ← (nat_eqb_iff u v).0 same)
          (Within-mono _ _ _ (omega arith) (Within-next _ _ user_free))
    | inr other ↦ rw other (g.user_room v)
  ]);
}

pub reserves-IsGoverned :
    (s : System) (h : Hub) (u : ℕ)
    → IsGoverned s
    → reserve_slot s.hub u ≡ (h, true)
    → IsGoverned (record { hub = h; holders = u ∷ s.holders })
reserves-IsGoverned s h u g e =
    let (free, user_free, form) = reserve_form s.hub h u e in
    subst (λ h'. IsGoverned (record { hub = h'; holders = u ∷ s.holders })) (sym form)
      (reserved-IsGoverned s u g free user_free)

-- Giving a reservation back, and taking a client in on it.
module _ (s : System) (u : ℕ) (before after : List ℕ) (split : s.holders ≡ before ++ u ∷ after)
    (g : IsGoverned s) where
  holds_one :
      (s.hub.pending_global ≡ 1 + length (before ++ after))
      × ((v : ℕ)
          → pending_of v s.hub.pending ≡ (if u == v then 1 else 0) + count_user v (before ++ after))
  holds_one = (
    g.global ∙ ap (length {A = ℕ}) split ∙ length-split u before after,
    λ v. g.per_user v ∙ ap (count_user v) split ∙ count-split u v before after,
  )

  abbrev pub after_release : System
  after_release = record { hub = release_reserved s.hub u; holders = before ++ after }

  pub gives_up-IsGoverned : IsGoverned after_release
  unfolding release_reserved count_user_clients
  gives_up-IsGoverned = record {
    safe = record { is_map = g.safe.is_map; owned = g.safe.owned; buffered = g.safe.buffered };
    global = omega (arith, global-release s.hub u, holds_one.0);
    per_user = λ v. ground (arith, pending-release s.hub u v, holds_one.1 v);
    room = Within-mono _ _ _ (omega (arith, global-release s.hub u)) g.room;
    user_room = λ v. Within-mono _ _ _ (omega (arith, pending-release s.hub u v)) (g.user_room v);
  }

  pub arrives-IsGoverned :
      (c device : ℕ)
      → lookup c s.hub.heap ≡ none
      → IsGoverned (record { hub = register s.hub c u device true; holders = before ++ after })
  unfolding register release_reserved count_user_clients
  arrives-IsGoverned c device free = record {
    safe = register-IsSafe s.hub c u device true free g.safe;
    global = gives_up-IsGoverned.global;
    per_user = gives_up-IsGoverned.per_user;
    room =
        Within-mono _ _ _
          (omega (
            arith,
            active-insert u (add_client c mine) s.hub.clients g.safe.is_map,
            length-add_le c mine,
            global-release s.hub u,
            holds_one.0,
          ))
          g.room;
    user_room = λ v. rw clients_of-insert (elim (Bool-cases (u == v)) [
      | inl same ↦ rw same (
          Within-mono _ _ _
            (ground (
              arith,
              length-add_le c mine,
              pending-release s.hub u v,
              holds_one.1 v,
              nat_eqb_iff u v,
            ))
            (g.user_room v))
      | inr other ↦
          rw other (Within-mono _ _ _ (omega (arith, pending-release s.hub u v)) (g.user_room v))
    ]);
  }
    where
      mine : List ℕ
      mine = clients_of u s.hub.clients
