-- ===== src/View/Uploads.antt =====
-- web/src/components/UploadZone.tsx: the list of uploads. An upload is named by its file; what the
-- server and the progress events report arrives at any time.
pub mod Running
use pier_s3_gateway.Prelude.{
  ℕ, zero, suc, ◌+◌, ◌*◌, ◌/◌, Bool, true, false, List, [], ◌∷◌, ◌++◌, Option, none, some, ◌==◌,
  if◌then◌else◌, Text, codes, text_eq, is_empty,
}
use pier_s3_gateway.Client.{Failure}
use pier_s3_gateway.Client.Paths.{build_object_path, ◌>>=◌}

pub data Status : Type 0 where
  uploading done error : Status

pub record UploadItem : Type 0 where
  pub name : Text
  pub progress : ℕ
  pub status : Status

-- `prev.map((u) => (u.name === name ? { ...u, ... } : u))`
unfoldable pub update_named : Text → (UploadItem → UploadItem) → List UploadItem → List UploadItem
unfolding text_eq
update_named name f [] = []
update_named name f (u ∷ us) = (if text_eq u.name name then f u else u) ∷ update_named name f us

abbrev or_one : ℕ → ℕ
or_one zero = 1
or_one (suc n) = suc n

-- `Math.round((loaded * 100) / (total || 1))`, a half rounded up; a missing total is 0 here.
unfoldable pub percent_of : ℕ → ℕ → ℕ
percent_of loaded total = (loaded * 200 + or_one total) / (or_one total * 2)

pub data Event : Type 0 where
  start : Text → Event
  progress : Text → ℕ → ℕ → Event
  uploaded : Text → Event
  rejected : Text → Failure → Event

unfoldable pub step : Event → List UploadItem → List UploadItem
unfolding update_named percent_of
step (start name) us = us ++ record { name = name; progress = 0; status = uploading } ∷ []
step (progress name loaded total) us =
    update_named name (λ u. record u { progress = percent_of loaded total }) us
step (uploaded name) us = update_named name (λ u. record u { progress = 100; status = done }) us
step (rejected name err) us = update_named name (λ u. record u { status = error }) us

abbrev is_uploading : Status → Bool
is_uploading uploading = true
is_uploading done = false
is_uploading error = false

-- The items that have a progress bar.
unfoldable pub visible : List UploadItem → List UploadItem
visible [] = []
visible (u ∷ us) = let rest = visible us in if is_uploading u.status then u ∷ rest else rest

-- The key of a file that is dropped into a folder.
abbrev pub upload_key : Text → Text → Text
upload_key prefix name = prefix ++ name

-- The request of an upload: its path and its content type; none where the path cannot be encoded.
unfoldable pub upload_request : Text → Text → Text → Text → Option (Text × Text)
unfolding build_object_path
upload_request bucket prefix name type = do
  path ← build_object_path bucket (upload_key prefix name)
  some (path, if is_empty type then codes "application/octet-stream" else type)
