-- ===== src/Api/Handlers.antt =====
-- internal/api/server.go: readJSON, writeJSON and writeError, as the handlers of the children use them.
-- A decoded body is an Option, whose `none` is JSON that cannot be read; the text of an error is left
-- out of the reply.
pub mod Faults
pub mod Rules
pub mod Workflows
pub mod Policies
pub mod Reads
pub mod Experiments
use manteion_go.Base.{
  ℕ, String, ◌==◌, Bool, true, false, Option, none, some, Error, new, errorf, wrap, wrap_at, Check,
  leb, if◌then◌else◌,
}
use manteion_go.Base.Result.{Result, ok, err, panic}

pub data Reply {ℓ} (A : Type ℓ) : Type ℓ where
  json : (status : ℕ) → A → Reply A
  error : (status : ℕ) → Reply A
  no_content : Reply A

abbrev pub status {ℓ} : {A : Type ℓ} → Reply A → ℕ
status (json code a) = code
status (error code) = code
status no_content = 204

abbrev pub is_refusal {ℓ} : {A : Type ℓ} → Reply A → Bool
is_refusal r = leb 400 (status r)

-- `errors.Is(err, store.ErrNotFound)`
unfoldable pub is_not_found : Error → Bool
is_not_found (new text) = text == "store: not found"
is_not_found (errorf text args) = false
is_not_found (wrap text cause) = is_not_found cause
is_not_found (wrap_at text i cause) = is_not_found cause

-- The reply to a store's error: 404 where nothing was found, and otherwise the given status.
unfoldable pub store_error {ℓ} : {A : Type ℓ} → ℕ → Error → Reply A
unfolding is_not_found
store_error other cause = error (if is_not_found cause then 404 else other)

-- A handler that reads one item.
unfoldable pub get_reply {ℓ} : {A : Type ℓ} → Result A → Reply A
unfolding store_error
get_reply (ok a) = json 200 a
get_reply (err cause) = store_error 500 cause
get_reply panic = error 500

-- A handler that reads a list, for which every error is the server's.
abbrev pub list_reply {ℓ} : {A : Type ℓ} → Result A → Reply A
list_reply (ok a) = json 200 a
list_reply (err cause) = error 500
list_reply panic = error 500

-- A handler that deletes, or changes a flag.
unfoldable pub done_reply {ℓ} : {A : Type ℓ} → Check → Reply A
unfolding store_error
done_reply none = no_content
done_reply (some cause) = store_error 500 cause
