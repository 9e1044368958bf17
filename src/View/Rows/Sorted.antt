-- ===== src/View/Rows/Sorted.antt =====
-- web/src/components/ObjectBrowser.tsx: the rows in the order of the column of names, which the table begins with.
use pier_s3_gateway.Prelude.{
  false, List, [], ◌∷◌, ◌≡◌, Ordering, is_gt, Text, Perm, All, All-imp, arith, sort_by,
  sort_by-perm, sort_by-IsOrdered, IsOrder, IsOrdered, NotAfter,
}
use pier_s3_gateway.View.Rows.{Row, sort_names}

-- `localeCompare`, which is an order.
pub record Collation : Type 0 where
  pub locale_compare : Text → Text → Ordering
  pub is_order : IsOrder locale_compare

-- A row may stand in front of another: no file in front of a folder, and the names in order.
abbrev pub Precedes : Collation → Row → Row → Type 0
Precedes c a b =
    (a.is_prefix ≡ false → b.is_prefix ≡ false)
    × (a.is_prefix ≡ b.is_prefix → is_gt (c.locale_compare a.name b.name) ≡ false)

abbrev pub AllPrecede : Collation → List Row → Type 0
AllPrecede c [] = Unit
AllPrecede c (r ∷ rs) = All (Precedes c r) rs × AllPrecede c rs

sort_names-IsOrder : (c : Collation) → IsOrder (sort_names c.locale_compare)
unfolding sort_names
sort_names-IsOrder c = record {
  total = λ a b h. ground (arith, c.is_order.total a.name b.name);
  trans = λ a b d h k. ground (arith, c.is_order.trans a.name b.name d.name);
}

NotAfter-Precedes :
    (c : Collation) (a b : Row) → NotAfter (sort_names c.locale_compare) a b → Precedes c a b
unfolding sort_names
NotAfter-Precedes c a b h = (ground arith, ground arith)

IsOrdered-AllPrecede :
    (c : Collation) (rs : List Row) → IsOrdered (sort_names c.locale_compare) rs → AllPrecede c rs
IsOrdered-AllPrecede c [] h = tt
IsOrdered-AllPrecede c (r ∷ rs) (h, hs) =
    (All-imp (λ b k. NotAfter-Precedes c r b k) rs h, IsOrdered-AllPrecede c rs hs)

-- Sorted by name, the table has the rows it was given, each as often, with every folder in front of
-- every file, and the names of the folders and those of the files in the order of the locale.
pub sort_names-AllPrecede :
    (c : Collation) (rows : List Row)
    → Perm (sort_by (sort_names c.locale_compare) rows) rows
      × AllPrecede c (sort_by (sort_names c.locale_compare) rows)
sort_names-AllPrecede c rows = (
  sort_by-perm (sort_names c.locale_compare) rows,
  IsOrdered-AllPrecede c _
      (sort_by-IsOrdered (sort_names c.locale_compare) (sort_names-IsOrder c) rows),
)
