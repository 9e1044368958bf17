-- ===== src/Server/Objects/Guarded.antt =====
-- The handlers of internal/webui/api.go with the access control of internal/acl: what reaches the storage backend.
use pier_s3_gateway.Prelude.{
  ℕ, Bool-cases, inl, inr, Bool, true, false, not, ◌||◌, List, [], ◌≡◌, refl, sym, ap, ◌∙◌,
  if◌then◌else◌, Text, is_empty, AnyOf,
}
use pier_s3_gateway.Server.Acl.{check_access}
use pier_s3_gateway.Server.Acl.Access.{Allows, check_access_iff}
use pier_s3_gateway.Server.Objects.{
  Request, Call, list_objects, get_object, head_object, delete_object, put_object, Outcome, refuse,
  ask, bucket_from_request, bucket_and_key_from_request, bucket_and_key_meta_from_request,
  bad_request, forbidden, backend_ready, handle_list_objects, handle_get_object,
  handle_get_object_meta, handle_put_object, handle_delete_object, Endpoint, list_of_objects,
  object_read, object_meta, object_put, object_deletion, handle, method_of,
}

-- A route with the bucket and the key that it is about; the key of a listing is empty.
pub record Target : Type 0 where
  pub endpoint : Endpoint
  pub bucket : Text
  pub key : Text

abbrev keyed : Endpoint → Text × Text → Target
keyed e (bucket, key) = record { endpoint = e; bucket = bucket; key = key }

abbrev pub wanted : Endpoint → Request → Target
wanted list_of_objects r = record {
  endpoint = list_of_objects;
  bucket = bucket_from_request r;
  key = [];
}
wanted object_meta r = keyed object_meta (bucket_and_key_meta_from_request r)
wanted e r = keyed e (bucket_and_key_from_request r)

abbrev pub target_of : Call → Target
target_of (list_objects bucket _ _ _ _) = keyed list_of_objects (bucket, [])
target_of (get_object bucket key) = keyed object_read (bucket, key)
target_of (head_object bucket key) = keyed object_meta (bucket, key)
target_of (delete_object bucket key) = keyed object_deletion (bucket, key)
target_of (put_object input) = keyed object_put (input.bucket, input.key)

abbrev pub is_missing : Endpoint → Target → Bool
is_missing list_of_objects t = is_empty t.bucket
is_missing _ t = is_empty t.bucket || is_empty t.key

-- A refusal with a status.
abbrev pub IsRefusal : ℕ → Outcome → Type 0
IsRefusal status (refuse f) = f.status ≡ status
IsRefusal status (ask _) = ⊥

-- What a handler does, by its route, the groups, whether there is a backend, and the request.
pub record IsGuarded (e : Endpoint) (groups : List Text) (ready : Bool) (r : Request) : Type 0 where
  pub missing : is_missing e (wanted e r) ≡ true → IsRefusal 400 (handle e groups ready r)
  pub denied :
      is_missing e (wanted e r) ≡ false
      → ¬ AnyOf (Allows (wanted e r).bucket (method_of e)) groups
      → IsRefusal 403 (handle e groups ready r)
  pub unready :
      is_missing e (wanted e r) ≡ false
      → AnyOf (Allows (wanted e r).bucket (method_of e)) groups
      → ready ≡ false
      → IsRefusal 503 (handle e groups ready r)
  pub asks :
      is_missing e (wanted e r) ≡ false
      → AnyOf (Allows (wanted e r).bucket (method_of e)) groups
      → ready ≡ true
      → (call : Call) × (handle e groups ready r ≡ ask call) × (target_of call ≡ wanted e r)
  -- No other request gets to the backend.
  pub asks_only :
      (call : Call)
      → handle e groups ready r ≡ ask call
      → (target_of call ≡ wanted e r)
        × (is_missing e (wanted e r) ≡ false)
        × AnyOf (Allows (wanted e r).bucket (method_of e)) groups
        × (ready ≡ true)

-- The guards that the handlers share.
abbrev guarded : Bool → Text → Bool → Text → Text → Bool → Call → Outcome
guarded missing named granted code message ready call =
    if missing
    then refuse (bad_request named)
    else if not granted
    then refuse (forbidden code message)
    else backend_ready ready call

asked-guarded :
    (missing granted ready : Bool) (named code message : Text) (call c : Call)
    → guarded missing named granted code message ready call ≡ ask c
    → (call ≡ c) × (missing ≡ false) × (granted ≡ true) × (ready ≡ true)
asked-guarded true granted ready named code message call c h = cc h
asked-guarded false false ready named code message call c h = cc h
asked-guarded false true true named code message call c h = (cc h, refl, refl, refl)
asked-guarded false true false named code message call c h = cc h

not_granted :
    (groups : List Text) (bucket method : Text)
    → ¬ AnyOf (Allows bucket method) groups
    → check_access groups bucket method ≡ false
not_granted groups bucket method h = elim (Bool-cases (check_access groups bucket method)) [
  | inl e ↦ absurd (h ((check_access_iff groups bucket method).0 e))
  | inr e ↦ e
]

IsGuarded-guarded :
    (e : Endpoint) (groups : List Text) (ready : Bool) (r : Request) (named code message : Text)
    (call : Call)
    → target_of call ≡ wanted e r
    → handle e groups ready r
      ≡ guarded
          (is_missing e (wanted e r))
          named
          (check_access groups (wanted e r).bucket (method_of e))
          code
          message
          ready
          call
    → IsGuarded e groups ready r
IsGuarded-guarded e groups ready r named code message call t h =
    let allowed = check_access_iff groups (wanted e r).bucket (method_of e) in
    record {
      missing = λ m. rw (h, m) refl;
      denied = λ m d.
          let no = not_granted groups (wanted e r).bucket (method_of e) d in rw (h, m, no) refl;
      unready = λ m a u. let yes = allowed.1 a in rw (h, m, yes, u) refl;
      asks = λ m a u. let yes = allowed.1 a in (call, rw (h, m, yes, u) refl, t);
      asks_only = λ c k.
          let (same, named_all, granted, up) =
            asked-guarded (is_missing e (wanted e r)) _ ready named code message call c
              (sym h ∙ k) in
          (ap target_of (sym same) ∙ t, named_all, allowed.0 granted, up);
    }

-- A handler of objects refuses a request with status 400 exactly when the bucket or the key is missing, otherwise with 403
-- exactly when no group allows the method of the route on that bucket, otherwise with 503 exactly when there is no
-- backend; and in all other cases, and in no others, it calls the backend, for the bucket and key of the request.
pub handle-IsGuarded :
    (e : Endpoint) (groups : List Text) (ready : Bool) (r : Request) → IsGuarded e groups ready r
unfolding handle_list_objects handle_get_object handle_get_object_meta handle_put_object
    handle_delete_object
handle-IsGuarded list_of_objects groups ready r =
    IsGuarded-guarded list_of_objects groups ready r _ _ _ _ refl refl
handle-IsGuarded object_read groups ready r =
    IsGuarded-guarded object_read groups ready r _ _ _ _ refl refl
handle-IsGuarded object_meta groups ready r =
    IsGuarded-guarded object_meta groups ready r _ _ _ _ refl refl
handle-IsGuarded object_put groups ready r =
    IsGuarded-guarded object_put groups ready r _ _ _ _ refl refl
handle-IsGuarded object_deletion groups ready r =
    IsGuarded-guarded object_deletion groups ready r _ _ _ _ refl refl
