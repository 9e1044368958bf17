-- ===== src/View/Rows/Cells.antt =====
-- web/src/components/ObjectBrowser.tsx: the cells of the table, and what clicks and keys on a row do.
use pier_s3_gateway.Prelude.{
  ℤ, pos, negsuc, ◌↔◌, ◌⊎◌, Bool, true, false, not, ◌||◌, List, [], ◌∷◌, ◌++◌, ◌≡◌, refl, arith,
  Option, none, some, if◌then◌else◌, Text, codes, text_eq, text_eq_iff, is_empty, any,
}
use pier_s3_gateway.View.Bytes.{Shown, format_bytes}
use pier_s3_gateway.View.Rows.{Row, Activation, handle_row_activate}

pub data Icon : Type 0 where
  folder_icon file_icon : Icon

unfoldable pub name_cell : Row → Icon × Text
name_cell r = (if r.is_prefix then folder_icon else file_icon, r.name)

-- `value || t('common.dash')`
unfoldable pub date_cell : Text → Row → Text
date_cell dash r = if is_empty r.last_modified then dash else r.last_modified

-- None stands for the dash. Only the row of a prefix has a negative size.
abbrev size_of : ℤ → Option Shown
size_of (pos n) = some (format_bytes n)
size_of (negsuc n) = none

unfoldable pub size_cell : Row → Option Shown
unfolding format_bytes
size_cell r = if r.is_prefix then none else size_of r.size

-- The label of a row for screen readers.
pub data Label : Type 0 where
  open_folder preview_open : Text → Label

unfoldable pub row_label : Row → Label
row_label r = if r.is_prefix then open_folder r.name else preview_open r.name

-- The innermost element that an event hits: the row, the cell of its actions, or a button in it.
pub data Part : Type 0 where
  whole actions download_button more_button : Part

pub data Event : Type 0 where
  click : Part → Event
  key_down : Part → Text → Event

pub data Effect : Type 0 where
  activation : Activation → Effect
  download_key : Text → Effect
  open_menu prevent_default : Effect

-- The row of a prefix has no actions.
unfoldable pub has_part : Row → Part → Bool
has_part r whole = true
has_part r _ = not r.is_prefix

abbrev pub is_pressing : Text → Bool
is_pressing key = text_eq key (codes "Enter") || text_eq key (codes " ")

-- `onRow`
unfoldable pub on_row : Row → Event → List Effect
unfolding handle_row_activate text_eq
on_row r (click part) = activation (handle_row_activate r) ∷ []
on_row r (key_down part key) =
    if is_pressing key then prevent_default ∷ activation (handle_row_activate r) ∷ [] else []

abbrev on_button : Row → Event → List Effect
on_button r (click download_button) = download_key r.key ∷ []
on_button r (click more_button) = open_menu ∷ []
on_button r _ = []

-- The cell of the actions stops what happens in it.
abbrev is_stopped : Event → Bool
is_stopped (click whole) = false
is_stopped (click _) = true
is_stopped (key_down whole key) = false
is_stopped (key_down _ key) = true

unfoldable pub on_event : Row → Event → List Effect
unfolding on_row
on_event r e = on_button r e ++ (if is_stopped e then [] else on_row r e)

abbrev pub is_activation : Effect → Bool
is_activation (activation a) = true
is_activation _ = false

-- A click or a pressing key on the row itself.
abbrev pub IsActivating : Event → Type 0
IsActivating (click whole) = Unit
IsActivating (click _) = ⊥
IsActivating (key_down whole key) = (key ≡ codes "Enter") ⊎ (key ≡ codes " ")
IsActivating (key_down _ key) = ⊥

-- A row is activated by a click and by the keys Enter and space, and never by what happens among its actions.
pub on_event-IsActivating :
    (r : Row) (e : Event) → (any is_activation (on_event r e) ≡ true) ↔ IsActivating e
unfolding on_event
on_event-IsActivating r (click whole) = (λ h. tt, λ h. refl)
on_event-IsActivating r (click actions) = (λ h. cc h, λ h. absurd h)
on_event-IsActivating r (click download_button) = (λ h. cc h, λ h. absurd h)
on_event-IsActivating r (click more_button) = (λ h. cc h, λ h. absurd h)
on_event-IsActivating r (key_down actions key) = (λ h. cc h, λ h. absurd h)
on_event-IsActivating r (key_down download_button key) = (λ h. cc h, λ h. absurd h)
on_event-IsActivating r (key_down more_button key) = (λ h. cc h, λ h. absurd h)
on_event-IsActivating r (key_down whole key) = (
  λ h. ground (arith, text_eq_iff key (codes "Enter"), text_eq_iff key (codes " ")),
  λ h. ground (arith, text_eq_iff key (codes "Enter"), text_eq_iff key (codes " ")),
)
