-- ===== src/MatchingEngine/Book/Invariant.antt =====
-- What a book of order_book.hpp is between two requests.
use cpp_demo_build.Prelude.{
  ℕ, ◌+◌, ◌%◌, ◌<◌, ◌≤◌, ◌≡◌, ◌≢◌, Bool, true, List, [], ◌∷◌, ◌++◌, All, u64_mod,
}
use cpp_demo_build.OrderEntry.Types.{Price, Symbol, Side, buy, sell}
use cpp_demo_build.MatchingEngine.Types.{OrderNode}
use cpp_demo_build.MatchingEngine.Book.{Entry, SideMap, OrderBook, greater, less}

-- An order that may rest at a price of a side of the book of a symbol.
pub record IsResting (side : Side) (symbol : Symbol) (price : Price) (n : OrderNode) : Type 0 where
  pub on_side : n.side ≡ side
  pub of_symbol : n.symbol ≡ symbol
  pub at_price : n.price ≡ price
  pub positive : 0 < n.leaves_qty
  pub within : n.leaves_qty ≤ n.order_qty
  pub bounded : n.order_qty < u64_mod

-- The quantity that rests in a FIFO, with no wrap-around.
abbrev pub leaves_sum : List OrderNode → ℕ
leaves_sum [] = 0
leaves_sum (n ∷ ns) = n.leaves_qty + leaves_sum ns

-- The running total is the sum modulo 2 ^ 64, and price 0 is for market orders only.
pub record IsLevel (side : Side) (symbol : Symbol) (e : Entry) : Type 0 where
  pub occupied : e.orders ≢ []
  pub resting : All (IsResting side symbol e.price) e.orders
  pub total : e.total_remaining ≡ leaves_sum e.orders % u64_mod
  pub priced : 0 < e.price

-- Every level of the list stands strictly behind the price.
abbrev pub Behind : (Price → Price → Bool) → Price → SideMap → Type 0
Behind before p ls = All (λ l. before p l.price ≡ true) ls

abbrev pub IsSorted : (Price → Price → Bool) → SideMap → Type 0
IsSorted before [] = Unit {0}
IsSorted before (l ∷ ls) = Behind before l.price ls × IsSorted before ls

pub record IsSide (before : Price → Price → Bool) (side : Side) (symbol : Symbol) (m : SideMap)
    : Type 0 where
  pub levels : All (IsLevel side symbol) m
  pub sorted : IsSorted before m

-- Every bid is below every ask.
abbrev pub IsUncrossed : OrderBook → Type 0
IsUncrossed b = All (λ (bid : Entry). All (λ (ask : Entry). bid.price < ask.price) b.asks) b.bids

pub record IsBook (symbol : Symbol) (b : OrderBook) : Type 0 where
  pub bid_side : IsSide greater buy symbol b.bids
  pub ask_side : IsSide less sell symbol b.asks
  pub uncrossed : IsUncrossed b

-- The resting orders in priority order: level by level, and within a level by arrival.
abbrev pub makers : SideMap → List OrderNode
makers [] = []
makers (l ∷ ls) = l.orders ++ makers ls

-- The nodes that are linked in a book: they hold the data that the index points at.
abbrev pub book_nodes : OrderBook → List OrderNode
book_nodes b = makers b.bids ++ makers b.asks
