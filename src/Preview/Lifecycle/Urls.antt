-- ===== src/Preview/Lifecycle/Urls.antt =====
-- web/src/components/FilePreview.tsx: which object URLs exist.
use pier_s3_gateway.Prelude.{
  ℕ, ◌<◌, ◌↔◌, ◌⊎◌, true, false, List, [], ◌∷◌, ◌≡◌, ◌≢◌, refl, sym, subst, ap, ◌∙◌, Option, none,
  some, arith,
}
use pier_s3_gateway.Preview.Kind.{Found, is_textual_kind, max_preview_bytes, max_text_bytes}
use pier_s3_gateway.Preview.Lifecycle.Shown.{hide-active}
use pier_s3_gateway.Preview.Lifecycle.{
  loading, ready, too_large, EffectRun, awaiting_blob, awaiting_text, Preview, revoke, revoke_at,
  stash, rendered, start, cleanup, Reply, got_blob, got_text, failed, on_blob, on_text, Event, show,
  hide, set_view, reply, late_reply, step, steps, mounted, answer_run, answer_cancelled, continue,
}

abbrev pub only : Option ℕ → List ℕ
only none = []
only (some u) = u ∷ []

-- The URL in the ref is the only one that exists. While the effect is in force it is the one on
-- screen, there is none as long as an answer is awaited, and a file that is ready and no text has one.
pub record IsTidy (p : Preview) : Type 0 where
  pub live : p.live ≡ only p.url_ref
  pub shown : p.active ≡ true → p.url ≡ p.url_ref
  pub closed : p.active ≡ false → (p.url_ref ≡ none) × (p.run ≡ none)
  pub waiting : p.run ≢ none → (p.url_ref ≡ none) × (p.status ≡ loading)
  pub text_run : p.run ≡ some awaiting_text → is_textual_kind p.file_kind ≡ true
  pub media :
      p.active ≡ true → p.status ≡ ready → is_textual_kind p.file_kind ≡ false → p.url_ref ≢ none

revoke_at-only :
    (o : Option ℕ) (p : Preview)
    → p.url_ref ≡ o
    → p.live ≡ only o
    → revoke_at o p ≡ record p { live = []; url_ref = none }
revoke_at-only none p e h = ground arith
revoke_at-only (some u) p e h = ground arith

revoke_lem :
    (p : Preview) → p.live ≡ only p.url_ref → revoke p ≡ record p { live = []; url_ref = none }
unfolding revoke
revoke_lem p h = revoke_at-only p.url_ref p refl h

cleanup-IsTidy : {p : Preview} → IsTidy p → IsTidy (cleanup p)
unfolding cleanup
cleanup-IsTidy {p} v = ground (
  arith,
  v.live,
  revoke_lem (record p { active = false; run = none; cancelled = stash p.run p.cancelled }) v.live,
)

start-IsTidy : (k : Found) (size : Option ℕ) {p : Preview} → IsTidy p → IsTidy (start k size p)
unfolding start
start-IsTidy k size {p} v = ground (
  arith,
  v.live,
  revoke_lem
      (record p {
        file_kind = k;
        status = loading;
        url = none;
        text_content = [];
        view_mode = rendered;
        active = true;
        run = none;
      })
      v.live,
)

answer_run-IsTidy :
    (o : Option EffectRun) (r : Reply) {p : Preview}
    → p.run ≡ o
    → IsTidy p
    → IsTidy (answer_run o r p)
unfolding on_blob on_text
answer_run-IsTidy none r e v = v
answer_run-IsTidy (some awaiting_blob) (got_blob size) {p} e v = ground arith
answer_run-IsTidy (some awaiting_blob) (got_text t) {p} e v = ground arith
answer_run-IsTidy (some awaiting_blob) failed {p} e v = ground arith
answer_run-IsTidy (some awaiting_text) (got_text t) {p} e v = ground arith
answer_run-IsTidy (some awaiting_text) (got_blob size) {p} e v = ground arith
answer_run-IsTidy (some awaiting_text) failed {p} e v = ground arith

-- A cancelled run changes nothing, whatever it is told.
pub continue_cancelled : (run : EffectRun) (r : Reply) (p : Preview) → continue true run r p ≡ p
unfolding on_blob on_text
continue_cancelled awaiting_blob (got_blob size) p = refl
continue_cancelled awaiting_blob (got_text t) p = refl
continue_cancelled awaiting_blob failed p = refl
continue_cancelled awaiting_text (got_blob size) p = refl
continue_cancelled awaiting_text (got_text t) p = refl
continue_cancelled awaiting_text failed p = refl

forget-IsTidy :
    (rs : List EffectRun) {p : Preview} → IsTidy p → IsTidy (record p { cancelled = rs })
forget-IsTidy rs v = record {
  live = v.live;
  shown = v.shown;
  closed = v.closed;
  waiting = v.waiting;
  text_run = v.text_run;
  media = v.media;
}

answer_cancelled-IsTidy :
    (rs : List EffectRun) (r : Reply) {p : Preview} → IsTidy p → IsTidy (answer_cancelled rs r p)
answer_cancelled-IsTidy [] r v = v
answer_cancelled-IsTidy (run ∷ rs) r {p} v =
    subst IsTidy (sym (continue_cancelled run r (record p { cancelled = rs }))) (forget-IsTidy rs v)

pub step-IsTidy : (e : Event) {p : Preview} → IsTidy p → IsTidy (step e p)
unfolding step
step-IsTidy (show k size) v = start-IsTidy k size (cleanup-IsTidy v)
step-IsTidy hide v = cleanup-IsTidy v
step-IsTidy (set_view m) v = record {
  live = v.live;
  shown = v.shown;
  closed = v.closed;
  waiting = v.waiting;
  text_run = v.text_run;
  media = v.media;
}
step-IsTidy (reply r) {p} v = answer_run-IsTidy p.run r refl v
step-IsTidy (late_reply r) {p} v = answer_cancelled-IsTidy p.cancelled r v

steps-IsTidy-from : (es : List Event) {p : Preview} → IsTidy p → IsTidy (steps es p)
unfolding steps
steps-IsTidy-from [] v = v
steps-IsTidy-from (e ∷ es) v = steps-IsTidy-from es (step-IsTidy e v)

pub mounted-IsTidy : IsTidy mounted
mounted-IsTidy = ground arith

-- After any sequence of shows, hides, answers in time and answers too late: the only object URL that exists is the
-- one in the ref, while the effect is in force it is the one on screen, none exists while an answer
-- is awaited, and a file of no textual kind that is ready to be shown has one.
pub steps-IsTidy : (es : List Event) → IsTidy (steps es mounted)
steps-IsTidy es = steps-IsTidy-from es mounted-IsTidy

-- After any such sequence, hiding the preview leaves no object URL behind.
pub hide_revokes : (es : List Event) → (step hide (steps es mounted)).live ≡ []
hide_revokes es =
    let v = step-IsTidy hide (steps-IsTidy es) in
    v.live ∙ ap only (v.closed (hide-active (steps es mounted))).0

-- When the awaited blob arrives, it is found too large exactly when it has more than 25 MiB, or is of a
-- textual kind and has more than 512 KiB.
pub blob_too_large_iff :
    (size : ℕ) (p : Preview)
    → p.run ≡ some awaiting_blob
    → p.status ≡ loading
    → ((step (reply (got_blob size)) p).status ≡ too_large) ↔ (
        (max_preview_bytes < size)
        ⊎ ((is_textual_kind p.file_kind ≡ true) × (max_text_bytes < size)))
unfolding step
blob_too_large_iff size p e h = ground arith
