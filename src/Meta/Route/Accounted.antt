-- ===== src/Meta/Route/Accounted.antt =====
-- What a request to the Meta route leaves in the store.
use comdove_fake_backend.Base.{◌<◌, length, Text, ℕ, ◌≡◌, Option, none, some, [], ◌∷◌, ◌++◌}
use comdove_fake_backend.Contract.Types.{StoredMessage, RejectedRequest}
use comdove_fake_backend.Contract.Json.{Json}
use comdove_fake_backend.Store.Tables.{Message}
use comdove_fake_backend.Store.Log.{log_rejected}
use comdove_fake_backend.Meta.Errors.{MetaError}
use comdove_fake_backend.Meta.Validate.{ValidateInput}
use comdove_fake_backend.Lifecycle.{LifecycleError}
use comdove_fake_backend.Live.Delivery.{Server}
use comdove_fake_backend.Meta.Route.{
  MetaRequest, parsed, unparsed, uncaught, MetaReply, failed, read_success, send_success, escaped,
}

-- A request, its reply with the message to deliver after it, and the state before and after.
pub data Accounted (w w' : Server) : MetaRequest → MetaReply → Option StoredMessage → Type 0 where
  no_json :
      (status : ℕ) (e : MetaError)
      → status < 500
      → w' ≡ w
      → e.status ≡ 400
      → e.code ≡ 100
      → Accounted w w' (unparsed (some status)) (failed e) none
  passed_on : (q : MetaRequest) → w' ≡ w → Accounted w w' q uncaught none
  refused :
      (input : ValidateInput) (e : MetaError) (r : RejectedRequest)
      → w'.db ≡ log_rejected r w.db
      → w'.dispatcher ≡ w.dispatcher
      → r.http_status ≡ e.status
      → r.code ≡ e.code
      → Accounted w w' (parsed input) (failed e) none
  marked :
      (input : ValidateInput)
      → length w'.db.messages ≡ length w.db.messages
      → w'.dispatcher ≡ w.dispatcher
      → Accounted w w' (parsed input) read_success none
  accepted :
      (input : ValidateInput) (to wa_id : Text) (row : Message) (m : StoredMessage)
      → w'.db.messages ≡ w.db.messages ++ row ∷ []
      → row.wamid ≡ m.wamid
      → Accounted w w' (parsed input) (send_success to wa_id m.wamid) (some m)
  failed_inside :
      (input : ValidateInput) (e : LifecycleError) → Accounted w w' (parsed input) (escaped e) none
