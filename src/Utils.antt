-- ===== src/Utils.antt =====
-- completion_aggregator/utils.py: `BagOfHolding` and `get_percent`.
use openedx_completion_aggre.Prelude.{
  Bool, true, List, elem, add, if◌then◌else◌, Result, ok, raise, value_error,
}
use openedx_completion_aggre.Float.{Float}
use openedx_completion_aggre.Platform.{BlockKey}

-- A container of block keys: a Python set, or a `BagOfHolding`.
pub data Container : Type 0 where
  bag_of_holding : Container
  key_set : List BlockKey → Container

-- `block in container`
unfoldable pub contains : BlockKey → Container → Bool
contains block bag_of_holding = true
contains block (key_set keys) = elem block keys

-- `container.add(block)`
unfoldable pub add_to : BlockKey → Container → Container
add_to block bag_of_holding = bag_of_holding
add_to block (key_set keys) = key_set (add block keys)

module _ {F : Type 0} ⦃fl : Float F⦄ where
  unfoldable pub get_percent : F → F → Result F
  get_percent earned possible =
      if fl.lt possible earned
      then raise value_error
      else if fl.lt fl.nought possible
      then ok (fl.over earned possible)
      else ok fl.unit
