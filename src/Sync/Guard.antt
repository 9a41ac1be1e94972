-- ===== src/Sync/Guard.antt =====
-- pkg/service/service.go: the reservation guard of an upload.
use hsync_server.Prelude.{
  Bool, false, not, ◌||◌, Option, none, some, [], ◌∷◌, Text, ◌==◌, text_eq, if◌then◌else◌,
}
use hsync_server.Sync.Tables.{Store, HookCall, reserve_call, release_call, settle_call}

pub data ReserveError : Type 0 where
  reservation_denied reservation_failed : ReserveError

-- What a configured hook answers to the calls of one upload: ReserveStorage an error or an id,
-- SettleStorage whether it succeeds.
pub record Hook : Type 0 where
  pub reserve_answer : Option ReserveError
  pub reservation_id : Text
  pub settles : Bool

abbrev pub hook_called : HookCall → Store → Store
hook_called c s = record s { hook_calls = c ∷ s.hook_calls }

-- reserve: the guard is the hook, if the reservation has an id.
unfoldable pub reserve : Option Hook → Store → Option ReserveError × Store
reserve none s = (none, s)
reserve (some h) s = (h.reserve_answer, hook_called reserve_call s)

-- active
unfoldable pub active : Option Hook → Bool
active none = false
active (some h) = not (h.reservation_id == [])

-- settle of an active guard: whether it succeeded.
unfoldable pub settle : Hook → Store → Bool × Store
settle h s = (h.settles, hook_called (settle_call h.settles) s)

-- release
unfoldable pub release : Option Hook → Bool → Store → Store
unfolding active
release guard settled s = if not (active guard) || settled then s else hook_called release_call s
