-- ===== src/OrderEntry/Types.antt =====
-- src/order_entry/order_entry/types.hpp: the vocabulary of the order-entry domain. A strong type
-- over `std::uint64_t` is a number, a fixed string its bytes; the tags of the C++ types are names.
use cpp_demo_build.Prelude.{ℕ, Bytes, Bool, true, false, if◌then◌else◌}

abbrev pub ClientId : Type 0
ClientId = ℕ

abbrev pub ClOrdId : Type 0
ClOrdId = ℕ

abbrev pub OrigClOrdId : Type 0
OrigClOrdId = ℕ

abbrev pub OrderId : Type 0
OrderId = ℕ

abbrev pub ExecId : Type 0
ExecId = ℕ

abbrev pub SecurityId : Type 0
SecurityId = ℕ

abbrev pub Symbol : Type 0
Symbol = Bytes

abbrev pub SecurityExchange : Type 0
SecurityExchange = Bytes

abbrev pub Price : Type 0
Price = ℕ

abbrev pub Quantity : Type 0
Quantity = ℕ

abbrev pub Timestamp : Type 0
Timestamp = ℕ

pub data Side : Type 0 where
  buy sell : Side

pub data OrdType : Type 0 where
  market limit : OrdType

pub data TimeInForce : Type 0 where
  day ioc : TimeInForce

pub data ExecType : Type 0 where
  new_order replaced canceled trade rejected expired : ExecType

pub data OrdStatus : Type 0 where
  new_order partially_filled filled canceled replaced rejected expired : OrdStatus

pub data RejectReason : Type 0 where
  unknown_order duplicate_order unknown_symbol unsupported_request : RejectReason

-- `value == side::buy`
abbrev pub is_buy : Side → Bool
is_buy buy = true
is_buy sell = false

unfoldable pub opposite : Side → Side
opposite value = if is_buy value then sell else buy
