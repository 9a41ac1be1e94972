-- ===== src/Hub/System.antt =====
-- The hub with the goroutines around it: upgrade handlers that hold a reservation, the Run loop,
-- pushes, and the pumps of the clients. Each mutex section and each round of Run is one step, and
-- steps come in any order. ServeHTTP registers only after reserveSlot; RegisterClient, which takes
-- no reservation, has no caller and is left out.
use hsync_server.Prelude.{
  ℕ, ◌+◌, ◌≡◌, refl, ℤ, pos, ◌≤ℤ◌, ltb_ℤ, true, none, some, List, [], ◌∷◌, ◌++◌, Text, lookup,
  length, length-append, ◌==◌, nat_eq, arith, if◌then◌else◌, Bool, not, ◌||◌, leb_ℤ,
}
use hsync_server.Hub.State.{
  Hub, new_hub, pending_of, active_connections, count_user_clients, reserve_slot, release_reserved,
  register, unregister, push_to_user, broadcast_to_all, take_message,
}
use hsync_server.Hub.Ownership.{IsSafe}

-- `holders` names the user of each handler between reserveSlot and its register or release.
pub record System : Type 0 where
  pub hub : Hub
  pub holders : List ℕ

pub data Step (s : System) : System → Type 0 where
  reserves :
      (u : ℕ) {h : Hub}
      → reserve_slot s.hub u ≡ (h, true)
      → Step s (record { hub = h; holders = u ∷ s.holders })
  gives_up :
      (u : ℕ) (before after : List ℕ)
      → s.holders ≡ before ++ u ∷ after
      → Step s (record { hub = release_reserved s.hub u; holders = before ++ after })
  arrives :
      (u c device : ℕ) (before after : List ℕ)
      → s.holders ≡ before ++ u ∷ after
      → lookup c s.hub.heap ≡ none
      → Step s (record { hub = register s.hub c u device true; holders = before ++ after })
  leaves : (c : ℕ) {h : Hub} → unregister s.hub c ≡ some h → Step s (record s { hub = h })
  pushes :
      (u : ℕ) (msg : Text) {r : Hub × List ℕ}
      → push_to_user s.hub u msg ≡ some r
      → Step s (record s { hub = r.0 })
  broadcasts :
      (msg : Text) {r : Hub × List ℕ}
      → broadcast_to_all s.hub msg ≡ some r
      → Step s (record s { hub = r.0 })
  writes : (c : ℕ) → Step s (record s { hub = take_message s.hub c })

pub data Reach (s : System) : System → Type 0 where
  here : Reach s s
  next : {t u : System} → Reach s t → Step t u → Reach s u

abbrev pub initial : ℤ → ℤ → System
initial max_connections max_per_user = record {
  hub = new_hub max_connections max_per_user;
  holders = [];
}

unfoldable pub count_user : ℕ → List ℕ → ℕ
count_user u [] = 0
count_user u (v ∷ vs) = (if v == u then 1 else 0) + count_user u vs

pub count-append :
    (u : ℕ) (xs ys : List ℕ) → count_user u (xs ++ ys) ≡ count_user u xs + count_user u ys
unfolding count_user
count-append u [] ys = omega arith
count-append u (x ∷ xs) ys = omega (arith, count-append u xs ys)

pub count-split :
    (u v : ℕ) (before after : List ℕ)
    → count_user v (before ++ u ∷ after)
      ≡ (if u == v then 1 else 0) + count_user v (before ++ after)
unfolding count_user
count-split u v [] after = refl
count-split u v (x ∷ xs) after = omega (arith, count-split u v xs after)

pub length-split :
    (u : ℕ) (before after : List ℕ) → length (before ++ u ∷ after) ≡ 1 + length (before ++ after)
length-split u before after =
    omega (arith, length-append before (u ∷ after), length-append before after)

-- Whether a positive limit, if there is one, is kept.
abbrev pub within_limit : ℤ → ℕ → Bool
within_limit limit n = not (ltb_ℤ (pos 0) limit) || leb_ℤ (pos n) limit

-- A positive limit is not passed.
abbrev pub Within : ℤ → ℕ → Type 0
Within limit n = ltb_ℤ (pos 0) limit ≡ true → pos n ≤ℤ limit

-- The reservations are those of the handlers, and the limits hold for connections and
-- reservations together.
pub record IsGoverned (s : System) : Type 0 where
  pub safe : IsSafe s.hub
  pub global : s.hub.pending_global ≡ length s.holders
  pub per_user : (u : ℕ) → pending_of u s.hub.pending ≡ count_user u s.holders
  pub room : Within s.hub.max_connections (active_connections s.hub.clients + s.hub.pending_global)
  pub user_room :
      (u : ℕ) → Within s.hub.max_per_user (count_user_clients s.hub u + pending_of u s.hub.pending)
