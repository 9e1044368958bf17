-- ===== src/View/Cards/Grid.antt =====
-- web/src/components/BucketList.tsx: the grid of cards, and what clicks and keys on a card do.
use pier_s3_gateway.Prelude.{
  Bool, true, false, ◌||◌, List, [], ◌∷◌, ◌++◌, Option, none, some, map, if◌then◌else◌, Text, codes,
  text_eq,
}
use pier_s3_gateway.Store.Buckets.{BucketInfo}
use pier_s3_gateway.View.Cards.{Badge, Stat, QuotaBar, access_badge, stats, quota_bar}

pub record Card : Type 0 where
  pub name : Text
  pub badge : Badge
  pub lines : List Stat
  pub bar : Option QuotaBar

pub data Grid : Type 0 where
  skeleton empty : Grid
  cards : List Card → Grid

unfoldable pub card : BucketInfo → Card
unfolding access_badge stats quota_bar
card b = record {
  name = b.name;
  badge = access_badge b.permissions;
  lines = stats b;
  bar = quota_bar b.quota_bytes b.size_bytes;
}

unfoldable pub bucket_list : List BucketInfo → Bool → Grid
unfolding card
bucket_list buckets true = skeleton
bucket_list [] false = empty
bucket_list (b ∷ buckets) false = cards (map card (b ∷ buckets))

pub data Event : Type 0 where
  click : Event
  key_down : Text → Event

-- The path that the page is led to.
unfoldable pub on_card : Card → Event → Option Text
unfolding text_eq
on_card c click = some (codes "/buckets/" ++ c.name)
on_card c (key_down key) =
    if text_eq key (codes "Enter") || text_eq key (codes " ")
    then some (codes "/buckets/" ++ c.name)
    else none
