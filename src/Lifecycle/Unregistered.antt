-- ===== src/Lifecycle/Unregistered.antt =====
-- `delivered` of core/lifecycle.ts for a message whose business number is no longer registered.
use comdove_fake_backend.Base.{is_some, Bool, not}
use comdove_fake_backend.Contract.Types.{StoredMessage}
use comdove_fake_backend.Store.Tables.{Db}
use comdove_fake_backend.Store.Registry.{get_business}

-- A message whose business number is not registered.
abbrev is_lost : Db → StoredMessage → Bool
is_lost db m = not (is_some (get_business m.phone_number_id db))
