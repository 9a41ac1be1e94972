-- ===== src/Hub/Sends.antt =====
-- Sends to open channels.
use hsync_server.Prelude.{
  ℕ, ◌≤◌, ◌≡◌, refl, Bool, true, false, some, List, [], ◌∷◌, ◌++◌, Text, Dict, lookup, insert,
  lookup-insert, length, length-append, ltb, ◌==◌, nat_eq, All, Bool-cases, inl, inr, arith,
  if◌then◌else◌,
}
use hsync_server.Hub.State.{Client, buffer_size, send, send_all}

abbrev pub IsOpenAt : Dict ℕ Client → ℕ → Type 0
IsOpenAt heap c = (obj : Client) × (lookup c heap ≡ some obj) × (obj.closed ≡ false)

-- What an operation on the heap keeps of every client that is there.
abbrev pub Keeps : Dict ℕ Client → Dict ℕ Client → Type 0
Keeps heap heap' =
    (c : ℕ) (obj : Client)
    → lookup c heap ≡ some obj
    → (obj' : Client) × (lookup c heap' ≡ some obj')
      × (obj'.user_id ≡ obj.user_id)
      × (obj'.closed ≡ obj.closed)

abbrev pub IsBuffered : Dict ℕ Client → Type 0
IsBuffered heap = (c : ℕ) (obj : Client) → lookup c heap ≡ some obj → length obj.queue ≤ buffer_size

pub Keeps-refl : (heap : Dict ℕ Client) → Keeps heap heap
Keeps-refl heap c obj e = (obj, e, refl, refl)

pub Keeps-trans : (a b c : Dict ℕ Client) → Keeps a b → Keeps b c → Keeps a c
Keeps-trans a b c h k i obj e =
    let (o, p, q, r) = h i obj e in let (o', p', q', r') = k i o p in (o', p', cc, cc)

-- A write of an object that has the user and the state of the one it replaces.
pub insert-Keeps :
    (heap : Dict ℕ Client) (c : ℕ) (old new : Client)
    → lookup c heap ≡ some old
    → new.user_id ≡ old.user_id
    → new.closed ≡ old.closed
    → Keeps heap (insert c new heap)
insert-Keeps heap c old new e u k i obj p = elim (Bool-cases (c == i)) [
  | inl same ↦ (new, rw (lookup-insert, same), ground arith, ground arith)
  | inr other ↦ (obj, rw (lookup-insert, other) p, refl, refl)
]

pub insert-IsBuffered :
    (heap : Dict ℕ Client) (c : ℕ) (new : Client)
    → length new.queue ≤ buffer_size
    → IsBuffered heap
    → IsBuffered (insert c new heap)
insert-IsBuffered heap c new short h i obj = rw lookup-insert (λ e. ground (arith, h i obj))

-- A send to an open channel succeeds.
abbrev pub Delivers : Dict ℕ Client → Dict ℕ Client → Type 0
Delivers heap heap' = Keeps heap heap' × (IsBuffered heap → IsBuffered heap')

pub send_open :
    (msg : Text) (c : ℕ) (heap : Dict ℕ Client)
    → IsOpenAt heap c
    → (r : Dict ℕ Client × Bool) × (send msg c heap ≡ some r) × Delivers heap r.0
unfolding send
send_open msg c heap (obj, e, open_) = elim (Bool-cases (ltb (length obj.queue) buffer_size)) [
  | inl room ↦ (
    (insert c (record obj { queue = obj.queue ++ msg ∷ [] }) heap, false),
    ground arith,
    (
      insert-Keeps heap c obj _ e refl refl,
      insert-IsBuffered heap c _ (ground (arith, length-append obj.queue (msg ∷ []))),
    ),
  )
  | inr full ↦ ((heap, true), ground arith, (Keeps-refl heap, λ h. h))
]

pub open-Keeps : (a b : Dict ℕ Client) (c : ℕ) → Keeps a b → IsOpenAt a c → IsOpenAt b c
open-Keeps a b c k (obj, e, o) = let (obj', e', u, s) = k c obj e in (obj', e', cc)

open_each-Keeps :
    (a b : Dict ℕ Client) (cs : List ℕ) → Keeps a b → All (IsOpenAt a) cs → All (IsOpenAt b) cs
open_each-Keeps a b [] k h = h
open_each-Keeps a b (c ∷ cs) k h = (open-Keeps a b c k h.0, open_each-Keeps a b cs k h.1)

pub send_all_open :
    (msg : Text) (cs : List ℕ) (heap : Dict ℕ Client)
    → All (IsOpenAt heap) cs
    → (r : Dict ℕ Client × List ℕ) × (send_all msg cs heap ≡ some r) × Delivers heap r.0
unfolding send_all
send_all_open msg [] heap h = ((heap, []), refl, (Keeps-refl heap, λ k. k))
send_all_open msg (c ∷ cs) heap h =
    let ((heap', slow), e, (keep, buf)) = send_open msg c heap h.0 in
    let ((heap'', slows), e', (keep', buf')) =
      send_all_open msg cs heap' (open_each-Keeps heap heap' cs keep h.1) in
    (
      (heap'', if slow then c ∷ slows else slows),
      ground arith,
      (Keeps-trans heap heap' heap'' keep keep', λ k. buf' (buf k)),
    )
