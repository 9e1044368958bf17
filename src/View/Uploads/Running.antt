-- ===== src/View/Uploads/Running.antt =====
-- web/src/components/UploadZone.tsx: which progress bars are shown.
use pier_s3_gateway.Prelude.{
  ℕ, Bool, true, false, List, [], ◌∷◌, ◌≡◌, refl, arith, Text, text_eq, text_eq_iff, any,
  Bool-cases, inl, inr, if◌then◌else◌, All, All-imp, All-append,
}
use pier_s3_gateway.View.Uploads.{
  UploadItem, update_named, Event, start, progress, uploaded, rejected, step, visible, is_uploading,
}

-- The uploads that run, by their names: one for each start, without one for each end.
abbrev remove_one : Text → List Text → List Text
remove_one name [] = []
remove_one name (n ∷ ns) = let rest = remove_one name ns in if text_eq n name then ns else n ∷ rest

abbrev running_after : Event → List Text → List Text
running_after (start name) ns = name ∷ ns
running_after (progress name loaded total) ns = ns
running_after (uploaded name) ns = remove_one name ns
running_after (rejected name err) ns = remove_one name ns

abbrev pub running : List Event → List Text → List Text
running [] ns = ns
running (e ∷ es) ns = running es (running_after e ns)

pub steps : List Event → List UploadItem → List UploadItem
steps [] us = us
steps (e ∷ es) us = steps es (step e us)

abbrev pub is_running : List Text → Text → Bool
is_running ns name = any (text_eq name) ns

-- An item with a progress bar belongs to an upload that runs.
abbrev pub IsBacked : List Text → UploadItem → Type 0
IsBacked ns u = is_uploading u.status ≡ true → is_running ns u.name ≡ true

remove_one-other :
    (m name : Text) (ns : List Text)
    → text_eq m name ≡ false
    → is_running ns m ≡ true
    → is_running (remove_one name ns) m ≡ true
remove_one-other m name [] h k = k
remove_one-other m name (n ∷ ns) h k =
    ground
      (arith, text_eq_iff n name, text_eq_iff m name, text_eq_iff m n, remove_one-other m name ns h)

ended :
    (name : Text) (f : UploadItem → UploadItem) (ns : List Text) (us : List UploadItem)
    → ((u : UploadItem) → is_uploading (f u).status ≡ false)
    → All (IsBacked ns) us
    → All (IsBacked (remove_one name ns)) (update_named name f us)
unfolding update_named
ended name f ns [] e h = tt
ended name f ns (u ∷ us) e (h, hs) = elim (Bool-cases (text_eq u.name name)) [
  | inl here ↦ rw here ((λ k. cc (e u, k)), ended name f ns us e hs)
  | inr there ↦
      rw there ((λ k. remove_one-other u.name name ns there (h k)), ended name f ns us e hs)
]

progressed :
    (name : Text) (p : ℕ) (ns : List Text) (us : List UploadItem)
    → All (IsBacked ns) us
    → All (IsBacked ns) (update_named name (λ u. record u { progress = p }) us)
unfolding update_named
progressed name p ns [] h = tt
progressed name p ns (u ∷ us) (h, hs) = elim (Bool-cases (text_eq u.name name)) [
  | inl here ↦ rw here (h, progressed name p ns us hs)
  | inr there ↦ rw there (h, progressed name p ns us hs)
]

started : (name : Text) (ns : List Text) (u : UploadItem) → IsBacked ns u → IsBacked (name ∷ ns) u
started name ns u h k = ground (arith, h k)

step-IsBacked :
    (e : Event) (ns : List Text) (us : List UploadItem)
    → All (IsBacked ns) us
    → All (IsBacked (running_after e ns)) (step e us)
unfolding step
step-IsBacked (start name) ns us h =
    All-append (IsBacked (name ∷ ns)) us _ (All-imp (started name ns) us h)
      ((λ _. ground (arith, text_eq_iff name name)), tt)
step-IsBacked (progress name loaded total) ns us h = progressed name _ ns us h
step-IsBacked (uploaded name) ns us h = ended name _ ns us (λ u. refl) h
step-IsBacked (rejected name err) ns us h = ended name _ ns us (λ u. refl) h

steps-IsBacked :
    (es : List Event) (ns : List Text) (us : List UploadItem)
    → All (IsBacked ns) us
    → All (IsBacked (running es ns)) (steps es us)
unfolding steps
steps-IsBacked [] ns us h = h
steps-IsBacked (e ∷ es) ns us h =
    steps-IsBacked es (running_after e ns) (step e us) (step-IsBacked e ns us h)

visible-nil : (us : List UploadItem) → All (IsBacked []) us → visible us ≡ []
unfolding visible
visible-nil [] h = refl
visible-nil (u ∷ us) (h, hs) = ground (arith, visible-nil us hs)

-- Every item that shows a progress bar belongs to an upload that still runs; so when each upload
-- that was started has succeeded or failed, no progress bar is left.
pub visible_settled :
    (es : List Event)
    → All (IsBacked (running es [])) (steps es [])
      × (running es [] ≡ [] → visible (steps es []) ≡ [])
visible_settled es =
    let backed = steps-IsBacked es [] [] tt in
    (backed, λ e. visible-nil (steps es []) (rw e at backed))

-- Two uploads of files of one name share what becomes of the first: when it succeeds, the
-- progress bar of the one that still runs is gone too.
pub same_name_hidden :
    (name : Text)
    → let es = start name ∷ start name ∷ uploaded name ∷ [] in
      (running es [] ≡ name ∷ []) × (visible (steps es []) ≡ [])
unfolding steps step visible update_named
same_name_hidden name = ground (arith, text_eq_iff name name)
