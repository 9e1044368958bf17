-- ===== src/Preview/Lifecycle/Shown.antt =====
-- web/src/components/FilePreview.tsx: which events show, hide and keep a file.
use pier_s3_gateway.Prelude.{ℕ, true, false, ◌≡◌, refl, arith, Option}
use pier_s3_gateway.Preview.Kind.{Found}
use pier_s3_gateway.Preview.Lifecycle.{
  Preview, Reply, ViewMode, show, hide, set_view, reply, late_reply, step, start, cleanup, revoke,
  on_blob, on_text,
}

pub show-active :
    (k : Found) (size : Option ℕ) (p : Preview)
    → ((step (show k size) p).active ≡ true) × ((step (show k size) p).file_kind ≡ k)
unfolding step start cleanup revoke
show-active k size p = ground arith

pub hide-active : (p : Preview) → (step hide p).active ≡ false
unfolding step cleanup revoke
hide-active p = ground arith

-- The other events change neither the file nor whether it is shown.
abbrev pub IsSame : Preview → Preview → Type 0
IsSame p q = (q.active ≡ p.active) × (q.file_kind ≡ p.file_kind)

pub set_view-IsSame : (m : ViewMode) (p : Preview) → IsSame p (step (set_view m) p)
unfolding step
set_view-IsSame m p = (refl, refl)

pub reply-IsSame : (r : Reply) (p : Preview) → IsSame p (step (reply r) p)
unfolding step on_blob on_text
reply-IsSame r p = ground arith

pub late_reply-IsSame : (r : Reply) (p : Preview) → IsSame p (step (late_reply r) p)
unfolding step on_blob on_text
late_reply-IsSame r p = ground arith
