-- ===== src/Hub/Ownership.antt =====
-- The hub's maps and its heap: the clients of a user's set.
use hsync_server.Prelude.{
  ℕ, ◌≡◌, ◌≢◌, refl, Bool, true, false, not, ◌&&◌, ◌||◌, none, some, List, [], ◌∷◌, Dict, lookup,
  insert, delete, lookup-insert, lookup-delete, IsMap, IsMap-insert, IsMap-delete, keep_if, any_if,
  ◌==◌, nat_eq, nat_eqb_iff, Bool-cases, inl, inr, arith, ℤ, if◌then◌else◌,
}
use hsync_server.Hub.State.{
  Client, Hub, clients_of, holds, add_client, new_client, drop_client, register, close_send,
  unregister_of, unregister, new_hub,
}
use hsync_server.Hub.Sends.{IsBuffered, insert-IsBuffered}

pub holds-add : (c d : ℕ) (cs : List ℕ) → holds c (add_client d cs) ≡ (d == c || holds c cs)
unfolding holds add_client any_if
holds-add c d cs = elim (Bool-cases (holds d cs)) [
  | inl there ↦ rw there (ground (arith, nat_eqb_iff d c))
  | inr new ↦ rw new (ground arith)
]

pub holds-drop : (c d : ℕ) (cs : List ℕ) → holds c (drop_client d cs) ≡ (not (c == d) && holds c cs)
unfolding holds drop_client any_if keep_if
holds-drop c d [] = ground arith
holds-drop c d (x ∷ xs) = ground (arith, holds-drop c d xs)

pub clients_of-insert :
    (u v : ℕ) (cs : List ℕ) (m : Dict ℕ (List ℕ))
    → clients_of v (insert u cs m) ≡ (if u == v then cs else clients_of v m)
unfolding clients_of
clients_of-insert u v cs m = ground (arith, lookup-insert u v cs m)

pub clients_of-delete :
    (u v : ℕ) (m : Dict ℕ (List ℕ))
    → clients_of v (delete u m) ≡ (if u == v then [] else clients_of v m)
unfolding clients_of
clients_of-delete u v m = ground (arith, lookup-delete u v m)

abbrev pub IsOwned : Dict ℕ Client → ℕ → ℕ → Type 0
IsOwned heap u c =
    (obj : Client) × (lookup c heap ≡ some obj) × (obj.user_id ≡ u) × (obj.closed ≡ false)

-- The safety invariant.
pub record IsSafe (h : Hub) : Type 0 where
  pub is_map : IsMap h.clients
  pub owned : (u c : ℕ) → holds c (clients_of u h.clients) ≡ true → IsOwned h.heap u c
  pub buffered : IsBuffered h.heap

pub new_hub-IsSafe : (a b : ℤ) → IsSafe (new_hub a b)
unfolding new_hub clients_of lookup holds any_if
new_hub-IsSafe a b = record { is_map = tt; owned = λ u c e. cc; buffered = λ c obj e. cc }

-- A new object at a free place disturbs no other.
IsOwned-insert :
    (heap : Dict ℕ Client) (c u d : ℕ) (new : Client)
    → c ≢ d
    → IsOwned heap u d
    → IsOwned (insert c new heap) u d
IsOwned-insert heap c u d new other (obj, e, o, s) =
    (obj, ground (arith, lookup-insert c d new heap), o, s)

-- A write at another client's place.
fresh_ne : (heap : Dict ℕ Client) (c u d : ℕ) → lookup c heap ≡ none → IsOwned heap u d → c ≢ d
fresh_ne heap c u d free (obj, e, o, s) same = ground arith

pub register-IsSafe :
    (h : Hub) (c user device : ℕ) (reserved : Bool)
    → lookup c h.heap ≡ none
    → IsSafe h
    → IsSafe (register h c user device reserved)
unfolding register
register-IsSafe h c user device reserved free s = record {
  is_map = IsMap-insert user _ h.clients s.is_map;
  owned = λ u d. rw clients_of-insert (elim (Bool-cases (user == u)) [
    | inl mine ↦
        rw (mine, holds-add)
          (elim (Bool-cases (c == d)) [
            | inl new ↦ λ _.
                (new_client user device reserved, found d new, (nat_eqb_iff user u).0 mine, refl)
            | inr old ↦
                rw old (λ there. kept u d (s.owned u d (rw (← (nat_eqb_iff user u).0 mine) there)))
          ])
    | inr other ↦ rw other (λ there. kept u d (s.owned u d there))
  ]);
  buffered = insert-IsBuffered h.heap c _ (omega arith) s.buffered;
}
  where
    found :
        (d : ℕ)
        → (c == d) ≡ true
        → lookup d (insert c (new_client user device reserved) h.heap)
          ≡ some (new_client user device reserved)
    found d new = rw (lookup-insert, new)

    kept :
        (u d : ℕ)
        → IsOwned h.heap u d
        → IsOwned (insert c (new_client user device reserved) h.heap) u d
    kept u d o = IsOwned-insert h.heap c u d _ (fresh_ne h.heap c u d free o) o

-- What Run's unregister case does to the sets: the client leaves its user's set, and a set that
-- becomes empty leaves the map.
abbrev pub remaining : ℕ → List ℕ → Dict ℕ (List ℕ) → Dict ℕ (List ℕ)
remaining user rest m = elim rest [ [] ↦ delete user m | d ∷ ds ↦ insert user (d ∷ ds) m ]

pub clients_of-remaining :
    (user v : ℕ) (rest : List ℕ) (m : Dict ℕ (List ℕ))
    → clients_of v (remaining user rest m) ≡ (if user == v then rest else clients_of v m)
clients_of-remaining user v [] m = clients_of-delete user v m
clients_of-remaining user v (d ∷ ds) m = clients_of-insert user v (d ∷ ds) m

IsMap-remaining :
    (user : ℕ) (rest : List ℕ) (m : Dict ℕ (List ℕ)) → IsMap m → IsMap (remaining user rest m)
IsMap-remaining user [] m h = IsMap-delete user m h
IsMap-remaining user (d ∷ ds) m h = IsMap-insert user (d ∷ ds) m h

close_send_open :
    (c : ℕ) (heap : Dict ℕ Client) (obj : Client)
    → lookup c heap ≡ some obj
    → obj.closed ≡ false
    → close_send c heap ≡ some (insert c (record obj { closed = true }) heap)
unfolding close_send
close_send_open c heap obj e o = ground arith

-- The state after a client of the user has been unregistered.
abbrev without_client : Hub → ℕ → Client → Hub
without_client h c obj = record h {
  heap = insert c (record obj { closed = true }) h.heap;
  clients = remaining obj.user_id (drop_client c (clients_of obj.user_id h.clients)) h.clients;
}

without_client-IsSafe :
    (h : Hub) (c : ℕ) (obj : Client)
    → lookup c h.heap ≡ some obj
    → IsSafe h
    → IsSafe (without_client h c obj)
without_client-IsSafe h c obj e s = record {
  is_map = IsMap-remaining obj.user_id _ h.clients s.is_map;
  owned = λ u d. rw clients_of-remaining (elim (Bool-cases (obj.user_id == u)) [
    | inl mine ↦
        rw (mine, holds-drop)
          (λ there.
            IsOwned-insert h.heap c u d _ (λ same. ground arith)
              (s.owned u d (rw (← (nat_eqb_iff obj.user_id u).0 mine) (ground arith))))
    | inr other ↦ rw other (λ there.
        let o = s.owned u d there in IsOwned-insert h.heap c u d _ (λ same. ground (arith, o)) o)
  ]);
  buffered = insert-IsBuffered h.heap c _ (s.buffered c obj e) s.buffered;
}

-- Unregistering any client that was ever made succeeds.
pub unregister_total :
    (h : Hub) (c : ℕ) (obj : Client)
    → lookup c h.heap ≡ some obj
    → IsSafe h
    → (h' : Hub) × (unregister h c ≡ some h') × IsSafe h'
unfolding unregister unregister_of
unregister_total h c obj e s = elim (Bool-cases (holds c (clients_of obj.user_id h.clients))) [
  | inl there ↦
      let (o, e', u, live) = s.owned obj.user_id c there in
      let same : obj.closed ≡ false = ground arith in
      (
        without_client h c obj,
        ground (arith, close_send_open c h.heap obj e same),
        without_client-IsSafe h c obj e s,
      )
  | inr gone ↦ (h, ground arith, s)
]
