-- ===== src/View/Sider.antt =====
-- web/src/components/siderWidth.ts, and the drag of the sidebar's edge in AppShell.tsx.
pub mod Drag
use pier_s3_gateway.Prelude.{
  ℕ, ◌+◌, ◌-◌, ◌*◌, ◌/◌, ◌^◌, ◌≡◌, Bool, true, false, Option, none, some, ltb, leb, if◌then◌else◌,
  Text, is_empty,
}
use pier_s3_gateway.Client.{truthy, text_of}

abbrev pub default_width : ℕ
default_width = 240

abbrev pub min_width : ℕ
min_width = 180

abbrev pub max_width : ℕ
max_width = 480

-- A double: a finite one is `(plus - minus) / 2 ^ exp`; NaN and the infinities are not finite. Sums
-- and differences of pixel positions are far below 2 ^ 53 and exact.
pub data Number : Type 0 where
  finite : (plus minus exp : ℕ) → Number
  not_finite : Number

abbrev pub whole : ℕ → Number
whole n = finite n 0 0

abbrev pub add : Number → Number → Number
add (finite p m e) (finite q n f) = finite (p * 2 ^ f + q * 2 ^ e) (m * 2 ^ f + n * 2 ^ e) (e + f)
add _ _ = not_finite

abbrev pub negate : Number → Number
negate (finite p m e) = finite m p e
negate not_finite = not_finite

-- `Math.max(MIN, Math.round(width))` on what is finite: a half is rounded up.
unfoldable pub round_up_to : ℕ → ℕ → ℕ → ℕ → ℕ
round_up_to low p m e =
    let rounded = (p * 2 + 2 ^ e - m * 2) / (2 ^ e * 2) in if ltb rounded low then low else rounded

unfoldable pub at_most : ℕ → ℕ → ℕ
at_most high n = if ltb high n then high else n

unfoldable pub clamp_sider_width : Number → ℕ
unfolding round_up_to at_most
clamp_sider_width not_finite = default_width
clamp_sider_width (finite p m e) = at_most max_width (round_up_to min_width p m e)

-- The engine's `Number(text)` and `String(number)`.
pub record NumberText : Type 0 where
  pub number : Text → Number
  pub string : ℕ → Text
  pub string_truthy : (n : ℕ) → is_empty (string n) ≡ false
  pub number-string : (n : ℕ) → number (string n) ≡ whole n

module _ (engine : NumberText) where
  open engine use {number, string}

  unfoldable pub load_sider_width : Option Text → ℕ
  unfolding clamp_sider_width
  load_sider_width raw =
      if truthy raw then clamp_sider_width (number (text_of raw)) else default_width

  unfoldable pub save_sider_width : ℕ → Text
  unfolding clamp_sider_width
  save_sider_width width = string (clamp_sider_width (whole width))

  pub record Sider : Type 0 where
    pub width : ℕ
    -- The pointer's position and the width when the drag began.
    pub drag_start : Option (Number × ℕ)
    pub stored : Option Text

  unfoldable pub mount : Option Text → Sider
  unfolding load_sider_width
  mount stored = record { width = load_sider_width stored; drag_start = none; stored = stored }

  unfoldable pub drag_width : Number × ℕ → Number → ℕ
  unfolding clamp_sider_width
  drag_width (x, width) client_x = clamp_sider_width (add (add (whole width) client_x) (negate x))

  pub data PointerEvent : Type 0 where
    down move up : Number → PointerEvent

  abbrev pub moved : Option (Number × ℕ) → Number → Sider → Sider
  moved none x s = s
  moved (some d) x s = record s { width = drag_width d x }

  abbrev pub released : Option (Number × ℕ) → Number → Sider → Sider
  released none x s = s
  released (some d) x s = record s {
    width = drag_width d x;
    drag_start = none;
    stored = some (save_sider_width (drag_width d x));
  }

  unfoldable pub step : PointerEvent → Sider → Sider
  unfolding drag_width save_sider_width
  step (down x) s = record s { drag_start = some (x, s.width) }
  step (move x) s = moved s.drag_start x s
  step (up x) s = released s.drag_start x s
