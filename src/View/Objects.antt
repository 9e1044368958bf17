-- ===== src/View/Objects.antt =====
-- web/src/components/ObjectBrowser.tsx: what the rows do. The confirmation and the notices are the
-- component library's; the server's answer to a request is an argument.
pub mod Deletion
pub mod Screen
use pier_s3_gateway.Prelude.{
  ℤ, Bool, true, false, List, [], ◌∷◌, Option, none, some, if◌then◌else◌, Text,
}
use pier_s3_gateway.Client.{Failure, other, Answer, success, failure, truthy}
use pier_s3_gateway.Client.Paths.{build_object_path}
use pier_s3_gateway.View.Messages.{Message, failure_message}
use pier_s3_gateway.View.Rows.{
  Row, Action, download, info, delete, Activation, navigate, open_preview, handle_row_activate,
}

pub data Effect : Type 0 where
  navigate_prefix : Text → Effect
  -- The dialog that asks for a confirmation of the deletion.
  confirm_delete : Text → Effect
  download_object : Text → Effect
  deleted refresh : Effect
  show_error : Message → Effect

pub record Panels : Type 0 where
  pub search_text : Text
  pub meta_key : Option Text
  pub preview : Option (Text × ℤ)

abbrev pub closed : Panels
closed = record { search_text = []; meta_key = none; preview = none }

abbrev activated : Activation → Panels → Panels × List Effect
activated (navigate key) s = (s, navigate_prefix key ∷ [])
activated (open_preview key size) s = (record s { preview = some (key, size) }, [])

pub data Event : Type 0 where
  search : Text → Event
  activate : Row → Event
  act : Action → Row → Event
  close_meta close_preview : Event

unfoldable pub step : Event → Panels → Panels × List Effect
unfolding handle_row_activate
step (search text) s = (record s { search_text = text }, [])
step (activate r) s = activated (handle_row_activate r) s
step (act download r) s = (s, download_object r.key ∷ [])
step (act info r) s = (record s { meta_key = some r.key }, [])
step (act delete r) s = (s, confirm_delete r.key ∷ [])
step close_meta s = (record s { meta_key = none }, [])
step close_preview s = (record s { preview = none }, [])

-- What follows an answer to the request of a deletion.
unfoldable pub delete_answered : Text → Answer Text → List Effect
unfolding failure_message
delete_answered fallback (success _) = deleted ∷ refresh ∷ []
delete_answered fallback (failure err) = show_error (failure_message fallback err) ∷ []

-- The answer to a request on a path, and the failure where the path cannot be encoded.
abbrev pub asked : (Text → Answer Text) → Option Text → Answer Text
asked server none = failure other
asked server (some path) = server path

-- The confirmed deletion of a key, by a server that answers requests on paths.
unfoldable pub handle_delete : (Text → Answer Text) → Text → Text → Text → List Effect
unfolding delete_answered build_object_path
handle_delete server fallback bucket key =
    delete_answered fallback (asked server (build_object_path bucket key))

-- The notice on a search of a truncated listing.
abbrev pub warns_search : Bool → Text → Bool
warns_search truncated search_text = if truncated then truthy (some search_text) else false
