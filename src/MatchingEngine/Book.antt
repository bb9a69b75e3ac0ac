-- ===== src/MatchingEngine/Book.antt =====
-- src/matching_engine/matching_engine/order_book.hpp: the per-symbol book. A side map (a flat_map or
-- a std::map) is the list of its levels in the order of the comparator.
pub mod Invariant
pub mod Place
pub mod Linked
pub mod Cancel
pub mod Sound
pub mod RoundTrip
use cpp_demo_build.Prelude.{
  Bool, Option, none, some, List, [], ◌∷◌, ◌++◌, ltb, ◌==◌, if◌then◌else◌, add64, sub64,
}
use cpp_demo_build.OrderEntry.Types.{Price, Quantity, Side, buy, sell, is_buy}
use cpp_demo_build.MatchingEngine.Types.{Address, OrderNode}
use cpp_demo_build.MatchingEngine.Outcome.{Outcome, done, fault, assertion_failed, ◌>>=◌}

pub record PriceLevel : Type 0 where
  pub orders : List OrderNode
  pub total_remaining : Quantity

pub record LevelSnapshot : Type 0 where
  pub price : Price
  pub total_quantity : Quantity

-- An entry of a side map: the key and the mapped level.
pub record Entry : Type 0 where
  pub price : Price
  pub level : PriceLevel
  pub open level use *

abbrev pub SideMap : Type 0
SideMap = List Entry

-- `std::greater<>` of the bids and `std::less<>` of the asks.
abbrev pub greater : Price → Price → Bool
greater a b = ltb b a

abbrev pub less : Price → Price → Bool
less a b = ltb a b

-- `level.orders.push_back(*node); level.total_remaining += node->data.leaves_qty;`
abbrev pub push_back : PriceLevel → OrderNode → PriceLevel
push_back l node = record {
  orders = l.orders ++ node ∷ [];
  total_remaining = add64 l.total_remaining node.leaves_qty;
}

abbrev empty_level : PriceLevel
empty_level = record { orders = []; total_remaining = 0 }

-- `side_map[price]` finds the level or inserts an empty one at its place.
unfoldable pub place_into : (Price → Price → Bool) → SideMap → OrderNode → SideMap
place_into before [] node = record { price = node.price; level = push_back empty_level node } ∷ []
place_into before (l ∷ ls) node =
    if l.price == node.price
    then record l { level = push_back l.level node } ∷ ls
    else if before node.price l.price
    then record { price = node.price; level = push_back empty_level node } ∷ l ∷ ls
    else l ∷ place_into before ls node

-- `orders.erase(orders.iterator_to(*node))` unlinks the node at that address.
unfoldable pub unlink : Address → List OrderNode → List OrderNode
unlink a [] = []
unlink a (n ∷ ns) = if n.address == a then ns else n ∷ unlink a ns

-- What is left of a level whose node was unlinked: the level goes when it is empty.
unfoldable pub drop_if_empty : Price → Quantity → List OrderNode → SideMap → SideMap
drop_if_empty price total [] ls = ls
drop_if_empty price total (n ∷ ns) ls =
    record { price = price; level = record { orders = n ∷ ns; total_remaining = total } } ∷ ls

unfoldable pub cancel_from : SideMap → OrderNode → Outcome SideMap
unfolding unlink drop_if_empty
cancel_from [] node = fault assertion_failed
cancel_from (l ∷ ls) node =
    if l.price == node.price
    then done (
        drop_if_empty l.price (sub64 l.total_remaining node.leaves_qty)
          (unlink node.address l.orders) ls)
    else (do rest ← cancel_from ls node; done (l ∷ rest))

unfoldable pub best_price : SideMap → Option Price
best_price [] = none
best_price (l ∷ ls) = some l.price

unfoldable pub total_at_best : SideMap → Option Quantity
total_at_best [] = none
total_at_best (l ∷ ls) = some l.total_remaining

unfoldable pub best_level_of : SideMap → Option LevelSnapshot
best_level_of [] = none
best_level_of (l ∷ ls) = some (record { price = l.price; total_quantity = l.total_remaining })

pub record OrderBook : Type 0 where
  pub bids : SideMap
  pub asks : SideMap

abbrev pub empty_book : OrderBook
empty_book = record { bids = []; asks = [] }

unfoldable pub place_on : Side → OrderBook → OrderNode → OrderBook
place_on buy b node = record b { bids = place_into greater b.bids node }
place_on sell b node = record b { asks = place_into less b.asks node }

unfoldable pub place : OrderBook → OrderNode → OrderBook
unfolding place_on
place b node = place_on node.side b node

unfoldable pub cancel_on : Side → OrderBook → OrderNode → Outcome OrderBook
cancel_on buy b node = do bids ← cancel_from b.bids node; done (record b { bids = bids })
cancel_on sell b node = do asks ← cancel_from b.asks node; done (record b { asks = asks })

unfoldable pub cancel : OrderBook → OrderNode → Outcome OrderBook
unfolding cancel_on
cancel b node = cancel_on node.side b node

unfoldable pub best_bid : OrderBook → Option Price
best_bid b = best_price b.bids

unfoldable pub best_ask : OrderBook → Option Price
best_ask b = best_price b.asks

unfoldable pub total_at_best_bid : OrderBook → Option Quantity
total_at_best_bid b = total_at_best b.bids

unfoldable pub total_at_best_ask : OrderBook → Option Quantity
total_at_best_ask b = total_at_best b.asks

unfoldable pub best : OrderBook → Side → Option Price
unfolding best_bid best_ask
best b s = if is_buy s then best_bid b else best_ask b

unfoldable pub best_level : OrderBook → Side → Option LevelSnapshot
best_level b s = if is_buy s then best_level_of b.bids else best_level_of b.asks
