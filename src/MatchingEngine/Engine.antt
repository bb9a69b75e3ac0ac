-- ===== src/MatchingEngine/Engine.antt =====
-- src/matching_engine/{matching_engine/engine.hpp,src/engine.cpp}: the engine's state, the pool, the
-- identity index and the emissions. The handlers of the requests are in `Engine.Handlers`.
pub mod Index
pub mod Tracks
pub mod Registry
pub mod Released
pub mod Numbered
pub mod Invariant
pub mod Handlers
pub mod Dispatch
use cpp_demo_build.Prelude.{
  ℕ, Bool, true, false, Bytes, Option, none, some, List, [], ◌∷◌, ◌++◌, ◌==◌, ◌≡◌, if◌then◌else◌,
  add64, sub64, eqb, All, ◌≢◌,
}
use cpp_demo_build.OrderEntry.Types.{
  Symbol, Side, ExecType, OrdStatus, OrigClOrdId, Quantity, Price, RejectReason, SecurityId,
}
use cpp_demo_build.OrderEntry.Messages.{CancelOrder, Event, execution_report, cancel_reject}
use cpp_demo_build.MarketData.Types as md
use cpp_demo_build.MarketData.Messages as mm
use cpp_demo_build.MatchingEngine.Types.{
  Address, OrderKey, OrderState, OrderNode, key_eq, key_of, to_market_side,
}
use cpp_demo_build.MatchingEngine.Outcome.{
  Outcome, done, fault, bad_alloc, dangling, or_fault, ◌>>=◌,
}
use cpp_demo_build.MatchingEngine.Book.{SideMap, OrderBook, LevelSnapshot, empty_book, best_level}
use cpp_demo_build.MatchingEngine.Book.Invariant.{book_nodes}
use cpp_demo_build.MatchingEngine.Book.Linked.{node_at}

-- `boost::pool`: from the slots that are handed out, `malloc` picks one that is not, or fails.
pub record Pool : Type 0 where
  pub malloc : List Address → Option Address
  pub malloc_fresh :
      (live : List Address) (a : Address) → malloc live ≡ some a → All (λ b. b ≢ a) live

-- The calls of `on_market_data` and `on_order_entry`, in their order.
pub data Emission : Type 0 where
  market_data : mm.Message → Emission
  order_entry : Event → Emission

abbrev pub Index : Type 0
Index = List (OrderKey × Address)

abbrev pub Books : Type 0
Books = List (Symbol × OrderBook)

-- `node_pool_` is the list of the slots that are handed out.
pub record Engine : Type 0 where
  pub node_pool : List Address
  pub books : Books
  pub resting_index : Index
  pub next_exec_id : ℕ
  pub next_trade_id : ℕ
  pub emitted : List Emission

-- `resting_index_.find(key)`
unfoldable pub index_find : OrderKey → Index → Option Address
index_find k [] = none
index_find k ((j, a) ∷ rest) = if key_eq j k then some a else index_find k rest

-- `resting_index_.erase(key)`
unfoldable pub index_erase : OrderKey → Index → Index
index_erase k [] = []
index_erase k ((j, a) ∷ rest) = if key_eq j k then rest else (j, a) ∷ index_erase k rest

abbrev pub is_some {ℓ} : {A : Type ℓ} → Option A → Bool
is_some none = false
is_some (some a) = true

-- `resting_index_.emplace(key, node)` does nothing on a key that is there.
unfoldable pub index_emplace : OrderKey → Address → Index → Index
unfolding index_find
index_emplace k a index = if is_some (index_find k index) then index else (k, a) ∷ index

-- `books_.find(symbol)`
unfoldable pub books_find : Symbol → Books → Option OrderBook
books_find s [] = none
books_find s ((t, b) ∷ rest) = if eqb t s then some b else books_find s rest

-- A write through the reference to the book of a symbol.
unfoldable pub books_set : Symbol → OrderBook → Books → Books
books_set s b [] = []
books_set s b ((t, c) ∷ rest) = if eqb t s then (t, b) ∷ rest else (t, c) ∷ books_set s b rest

-- `books_.try_emplace(symbol)` for each configured symbol.
unfoldable pub open_books : Books → List Symbol → Books
unfolding books_find eqb
open_books books [] = books
open_books books (s ∷ ss) =
    open_books (if is_some (books_find s books) then books else books ++ (s, empty_book) ∷ []) ss

-- The nodes that are linked in the books.
abbrev pub nodes : Books → List OrderNode
nodes [] = []
nodes ((s, b) ∷ rest) = book_nodes b ++ nodes rest

-- `*node` of an `order_node*` of the index.
unfoldable pub deref : Engine → Address → Outcome OrderNode
unfolding node_at
deref e a = or_fault (node_at a (nodes e.books)) dangling

abbrev pub emit : Engine → Emission → Engine
emit e m = record e { emitted = e.emitted ++ m ∷ [] }

unfoldable pub emit_execution_report :
    Engine
    → OrderState
    → ExecType
    → OrdStatus
    → Option OrigClOrdId
    → Option Quantity
    → Option Price
    → Engine
emit_execution_report e order exec_type ord_status orig_cl_ord_id last_qty last_px = record e {
  next_exec_id = add64 e.next_exec_id 1;
  emitted =
      e.emitted
      ++ order_entry (
          execution_report (record {
            client_id = order.client_id;
            cl_ord_id = order.cl_ord_id;
            orig_cl_ord_id = orig_cl_ord_id;
            order_id = order.cl_ord_id;
            exec_id = e.next_exec_id;
            security_id = order.security_id;
            symbol = order.symbol;
            security_exchange = order.security_exchange;
            side = order.side;
            ord_type = order.ord_type;
            time_in_force = order.time_in_force;
            exec_type = exec_type;
            ord_status = ord_status;
            order_qty = order.order_qty;
            cum_qty = sub64 order.order_qty order.leaves_qty;
            leaves_qty = order.leaves_qty;
            last_qty = last_qty;
            last_px = last_px;
            avg_px = last_px;
            transact_time = 0;
            reject_reason = none;
            text = [];
          }))
        ∷ [];
}

unfoldable pub emit_cancel_reject : Engine → CancelOrder → RejectReason → Bytes → Engine
emit_cancel_reject e cancel reject_reason text = emit e (
    order_entry (
      cancel_reject (record {
        client_id = cancel.client_id;
        cl_ord_id = cancel.cl_ord_id;
        orig_cl_ord_id = cancel.orig_cl_ord_id;
        reject_reason = reject_reason;
        text = text;
        transact_time = 0;
      })))

unfoldable pub top_update : Option LevelSnapshot → Side → SecurityId → mm.MboBookUpdate
top_update none side security_id = record {
  security_id = security_id;
  update_action = md.UpdateAction.delete_order;
  side = to_market_side side;
  resting_order_id = 0;
  price = none;
  quantity = none;
  previous_quantity = none;
  transact_time = 0;
}
top_update (some snapshot) side security_id = record {
  security_id = security_id;
  update_action = md.UpdateAction.change;
  side = to_market_side side;
  resting_order_id = 0;
  price = some snapshot.price;
  quantity = some snapshot.total_quantity;
  previous_quantity = none;
  transact_time = 0;
}

unfoldable pub emit_mbo_book_update : Engine → OrderBook → Side → SecurityId → Engine
unfolding top_update
emit_mbo_book_update e book affected_side security_id = emit e (
    market_data (
      mm.Message.mbo_book_update
        (top_update (best_level book affected_side) affected_side security_id)))

unfoldable pub on_trade : mm.Trade → Engine → Engine
on_trade trade_event e = record e {
  next_trade_id = add64 e.next_trade_id 1;
  emitted =
      e.emitted
      ++ market_data (mm.Message.trade (record trade_event { trade_id = e.next_trade_id })) ∷ [];
}

-- `node_pool_.free(node)`
unfoldable pub pool_free : Address → List Address → List Address
pool_free a [] = []
pool_free a (b ∷ bs) = if b == a then bs else b ∷ pool_free a bs

unfoldable pub release_node : Engine → OrderNode → Engine
unfolding pool_free
release_node e node = record e { node_pool = pool_free node.address e.node_pool }

unfoldable pub on_release : OrderNode → Engine → Engine
unfolding index_erase release_node
on_release consumed e =
    release_node (record e { resting_index = index_erase (key_of consumed.order) e.resting_index })
      consumed

module _ (pool : Pool) where
  -- `allocate_node` constructs the node in a slot of the pool.
  unfoldable pub allocate_node : Engine → OrderState → Outcome (OrderNode × Engine)
  allocate_node e data_of_order = do
    a ← or_fault (pool.malloc e.node_pool) bad_alloc
    done (record { address = a; order = data_of_order }, record e { node_pool = a ∷ e.node_pool })

  -- One malloc and free of a slot, so that the first allocation is big enough.
  unfoldable pub reserve_node_pool : ℕ → List Address → Outcome (List Address)
  unfolding pool_free
  reserve_node_pool expected live =
      if expected == 0
      then done live
      else (do a ← or_fault (pool.malloc live) bad_alloc; done (pool_free a (a ∷ live)))

  -- The constructor, at the configured symbols and the expected number of resting orders.
  unfoldable pub make_engine : List Symbol → ℕ → Outcome Engine
  unfolding reserve_node_pool open_books
  make_engine valid_symbols expected_resting_orders = do
    live ← reserve_node_pool expected_resting_orders []
    done (record {
      node_pool = live;
      books = open_books [] valid_symbols;
      resting_index = [];
      next_exec_id = 1;
      next_trade_id = 1;
      emitted = [];
    })
