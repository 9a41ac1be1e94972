-- ===== src/Hub/Governance.antt =====
-- The reachable states of the hub: connection limits and panics.
use mathlib.Core.Path.{subst}
use hsync_server.Prelude.{
  ℕ, ◌+◌, ◌≡◌, refl, ◌∙◌, ℤ, none, some, List, Text, lookup, length, nat_eq, Option-cases, ◌≢◌, inl,
  inr, arith, true,
}
use hsync_server.Hub.State.{
  Client, Hub, new_hub, active_connections, count_user_clients, release_reserved, register,
  unregister, push_to_user, broadcast_to_all, take_message,
}
use hsync_server.Hub.Ownership.{IsSafe, unregister_total}
use hsync_server.Hub.Pushes.{push_total, broadcast_total, take_message-IsSafe}
use hsync_server.Hub.Counts.{
  NoGrowth, push-NoGrowth, broadcast-NoGrowth, take-NoGrowth, unregister-NoGrowth,
}
use hsync_server.Hub.System.{
  System, Step, reserves, gives_up, arrives, leaves, pushes, broadcasts, writes, Reach, here, next,
  initial, count_user, Within, within_limit, IsGoverned,
}
use hsync_server.Hub.Reservations.{
  reserve_form, initial-IsGoverned, quiet-IsGoverned, reserves-IsGoverned, gives_up-IsGoverned,
  arrives-IsGoverned,
}

push-IsSafe :
    (h : Hub) (u : ℕ) (msg : Text) (r : Hub × List ℕ)
    → push_to_user h u msg ≡ some r
    → IsSafe h
    → IsSafe r.0
push-IsSafe h u msg r e s =
    let (r', e', s') = push_total h u msg s in
    let same : r' ≡ r = cc in subst (λ x. IsSafe x.0) same s'

broadcast-IsSafe :
    (h : Hub) (msg : Text) (r : Hub × List ℕ)
    → broadcast_to_all h msg ≡ some r
    → IsSafe h
    → IsSafe r.0
broadcast-IsSafe h msg r e s =
    let (r', e', s') = broadcast_total h msg s in
    let same : r' ≡ r = cc in subst (λ x. IsSafe x.0) same s'

unregister-IsSafe : (h h' : Hub) (c : ℕ) → unregister h c ≡ some h' → IsSafe h → IsSafe h'
unfolding unregister
unregister-IsSafe h h' c e s = elim (Option-cases (lookup c h.heap)) [
  | inl gone ↦ absurd (ground arith)
  | inr (obj, found) ↦
      let (r, e', s') = unregister_total h c obj found s in
      let same : r ≡ h' = ground arith in subst IsSafe same s'
]

Step-IsGoverned : {s t : System} → Step s t → IsGoverned s → IsGoverned t
Step-IsGoverned {s} (reserves u {h} e) g = reserves-IsGoverned s h u g e
Step-IsGoverned {s} (gives_up u before after e) g = gives_up-IsGoverned s u before after e g
Step-IsGoverned {s} (arrives u c device before after e free) g =
    arrives-IsGoverned s u before after e g c device free
Step-IsGoverned {s} (leaves c {h} e) g =
    quiet-IsGoverned s h g (unregister-NoGrowth s.hub h c g.safe.is_map e)
      (unregister-IsSafe s.hub h c e g.safe)
Step-IsGoverned {s} (pushes u msg {r} e) g =
    quiet-IsGoverned s r.0 g (push-NoGrowth s.hub u msg r e) (push-IsSafe s.hub u msg r e g.safe)
Step-IsGoverned {s} (broadcasts msg {r} e) g =
    quiet-IsGoverned s r.0 g (broadcast-NoGrowth s.hub msg r e)
      (broadcast-IsSafe s.hub msg r e g.safe)
Step-IsGoverned {s} (writes c) g =
    quiet-IsGoverned s _ g (take-NoGrowth s.hub c) (take_message-IsSafe s.hub c g.safe)

Reach-IsGoverned : {s t : System} → IsGoverned s → Reach s t → IsGoverned t
Reach-IsGoverned g here = g
Reach-IsGoverned g (next r st) = Step-IsGoverned st (Reach-IsGoverned g r)

-- The configured limits stay.
abbrev HasLimits : ℤ → ℤ → System → Type 0
HasLimits a b s = (s.hub.max_connections ≡ a) × (s.hub.max_per_user ≡ b)

quiet-HasLimits :
    {a b : ℤ} (s t : System) → NoGrowth s.hub t.hub → HasLimits a b s → HasLimits a b t
quiet-HasLimits s t q l = (q.max_connections ∙ l.0, q.max_per_user ∙ l.1)

Step-HasLimits :
    {a b : ℤ} {s t : System} → Step s t → IsGoverned s → HasLimits a b s → HasLimits a b t
unfolding release_reserved register
Step-HasLimits {s = s} (reserves u {h} e) g l =
    let (_, _, form) = reserve_form s.hub h u e in ground arith
Step-HasLimits (gives_up u before after e) g l = l
Step-HasLimits (arrives u c device before after e free) g l = l
Step-HasLimits {s = s} (leaves c {h} e) g l =
    quiet-HasLimits s (record s { hub = h }) (unregister-NoGrowth s.hub h c g.safe.is_map e) l
Step-HasLimits {s = s} (pushes u msg {r} e) g l =
    quiet-HasLimits s (record s { hub = r.0 }) (push-NoGrowth s.hub u msg r e) l
Step-HasLimits {s = s} (broadcasts msg {r} e) g l =
    quiet-HasLimits s (record s { hub = r.0 }) (broadcast-NoGrowth s.hub msg r e) l
Step-HasLimits {s = s} (writes c) g l =
    quiet-HasLimits s (record s { hub = take_message s.hub c }) (take-NoGrowth s.hub c) l

Reach-HasLimits :
    {a b : ℤ} {s t : System} → Reach s t → IsGoverned s → HasLimits a b s → HasLimits a b t
Reach-HasLimits here g l = l
Reach-HasLimits (next r st) g l = Step-HasLimits st (Reach-IsGoverned g r) (Reach-HasLimits r g l)

-- In every state that the hub and its goroutines reach from a new hub, in any order of steps: a
-- positive MaxConnections bounds the open connections together with the handlers that hold a
-- reservation, and a positive MaxConnectionsPerUser bounds those of each user.
pub limits_hold :
    (a b : ℤ) (s : System)
    → Reach (initial a b) s
    → (within_limit a (active_connections s.hub.clients + length s.holders) ≡ true)
      × ((u : ℕ) → within_limit b (count_user_clients s.hub u + count_user u s.holders) ≡ true)
unfolding new_hub
limits_hold a b s r = (
  tested a _ (rw (← l.0, ← g.global) g.room),
  λ u. tested b _ (rw (← l.1, ← g.per_user u) (g.user_room u)),
)
  where
    g : IsGoverned s
    g = Reach-IsGoverned (initial-IsGoverned a b) r

    l : HasLimits a b s
    l = Reach-HasLimits r (initial-IsGoverned a b) (refl, refl)

    tested : (limit : ℤ) (n : ℕ) → Within limit n → within_limit limit n ≡ true
    tested limit n w = ground (arith, w)

-- In every state that the hub and its goroutines reach from a new hub, a push to any user, a
-- broadcast and the unregistering of any client that was ever made return: no message is sent on a
-- closed channel, and no channel is closed twice.
pub never_panics :
    (a b : ℤ) (s : System) (u c : ℕ) (msg : Text) (obj : Client)
    → Reach (initial a b) s
    → lookup c s.hub.heap ≡ some obj
    → (push_to_user s.hub u msg ≢ none)
      × (broadcast_to_all s.hub msg ≢ none)
      × (unregister s.hub c ≢ none)
never_panics a b s u c msg obj r found = (
  λ e. let (_, p, _) = push_total s.hub u msg g.safe in cc,
  λ e. let (_, p, _) = broadcast_total s.hub msg g.safe in cc,
  λ e. let (_, p, _) = unregister_total s.hub c obj found g.safe in cc,
)
  where
    g : IsGoverned s
    g = Reach-IsGoverned (initial-IsGoverned a b) r
