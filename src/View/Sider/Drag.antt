-- ===== src/View/Sider/Drag.antt =====
-- The sidebar's width: its bounds, and what a reload finds.
use pier_s3_gateway.Prelude.{
  ℕ, ◌≤◌, List, [], ◌∷◌, ◌≡◌, refl, ap, ◌∙◌, Option, none, some, arith, Text,
}
use pier_s3_gateway.View.Sider.{
  Number, finite, not_finite, whole, clamp_sider_width, NumberText, load_sider_width,
  save_sider_width, Sider, mount, moved, released, add, negate, drag_width, PointerEvent, down,
  move, up, step, min_width, max_width,
}

abbrev pub IsWidth : ℕ → Type 0
IsWidth w = (min_width ≤ w) × (w ≤ max_width)

clamp_sider_width-IsWidth : (n : Number) → IsWidth (clamp_sider_width n)
unfolding clamp_sider_width
clamp_sider_width-IsWidth not_finite = ground arith
clamp_sider_width-IsWidth (finite p m e) = ground arith

clamp_sider_width-whole : (w : ℕ) → IsWidth w → clamp_sider_width (whole w) ≡ w
unfolding clamp_sider_width
clamp_sider_width-whole w h = ground arith

module _ (engine : NumberText) where
  load_sider_width-IsWidth : (raw : Option Text) → IsWidth (load_sider_width engine raw)
  unfolding load_sider_width
  load_sider_width-IsWidth none = ground arith
  load_sider_width-IsWidth (some t) = ground (arith, clamp_sider_width-IsWidth (engine.number t))

  load-string : (w : ℕ) → IsWidth w → load_sider_width engine (some (engine.string w)) ≡ w
  unfolding load_sider_width
  load-string w h =
      rw (engine.string_truthy w, engine.number-string w) (clamp_sider_width-whole w h)

  load-save : (w : ℕ) → IsWidth w → load_sider_width engine (some (save_sider_width engine w)) ≡ w
  unfolding save_sider_width
  load-save w h =
      ap (λ k. load_sider_width engine (some (engine.string k))) (clamp_sider_width-whole w h)
      ∙ load-string w h

  pub steps : List (PointerEvent engine) → Sider engine → Sider engine
  steps [] s = s
  steps (e ∷ es) s = steps es (step engine e s)

  -- The width is in its bounds, and what is stored is the width when nobody drags.
  pub record IsSound (s : Sider engine) : Type 0 where
    pub bounds : IsWidth s.width
    pub reload : s.drag_start ≡ none → load_sider_width engine s.stored ≡ s.width

  drag_width-IsWidth : (d : Number × ℕ) (x : Number) → IsWidth (drag_width engine d x)
  unfolding drag_width
  drag_width-IsWidth (x, width) y = clamp_sider_width-IsWidth (add (add (whole width) y) (negate x))

  step-IsSound :
      (e : PointerEvent engine) (s : Sider engine) → IsSound s → IsSound (step engine e s)
  unfolding step
  step-IsSound (down x) s v = record { bounds = v.bounds; reload = λ k. cc }
  step-IsSound (move x) s v = with_start s.drag_start refl
    where
      with_start : (o : Option (Number × ℕ)) → s.drag_start ≡ o → IsSound (moved engine o x s)
      with_start none e = v
      with_start (some d) e = record { bounds = drag_width-IsWidth d x; reload = λ k. cc }
  step-IsSound (up x) s v = with_start s.drag_start
    where
      with_start : (o : Option (Number × ℕ)) → IsSound (released engine o x s)
      with_start none = v
      with_start (some d) = record {
        bounds = drag_width-IsWidth d x;
        reload = λ _. load-save _ (drag_width-IsWidth d x);
      }

  steps-IsSound-from :
      (es : List (PointerEvent engine)) (s : Sider engine) → IsSound s → IsSound (steps es s)
  unfolding steps
  steps-IsSound-from [] s v = v
  steps-IsSound-from (e ∷ es) s v = steps-IsSound-from es (step engine e s) (step-IsSound e s v)

  -- Whatever is stored, even a text that is no number, and after any pointer events: the width is between 180 and
  -- 480 pixels, and when no drag is going on a reload finds the same width.
  pub steps-IsSound :
      (stored : Option Text) (es : List (PointerEvent engine))
      → IsSound (steps es (mount engine stored))
  unfolding mount
  steps-IsSound stored es =
      steps-IsSound-from es (mount engine stored)
        (record { bounds = load_sider_width-IsWidth stored; reload = λ _. refl })
