-- ===== src/Wire.antt =====
-- kalshi_agent/kalshi/types.py: the wire types that the handlers read. A price is a text; the
-- model keeps what the code learns of it: that it is missing or empty, that `Decimal` refuses it,
-- or the decimal that it denotes. Counts of fills are naturals.
pub mod Prices
use kalshi_agent.Base.{ℕ, Bool, Option, String}
use kalshi_agent.Base.Int.{ℤ}
use kalshi_agent.Side.{Side, Action}
use kalshi_agent.Decimal.{Decimal, quantize}
use kalshi_agent.Result.{Result, ok, err, invalid_operation}

pub data PriceText : Type 0 where
  absent malformed : PriceText
  decimal : Decimal → PriceText

-- `Decimal(str(s))` of a text; no caller passes a missing one.
unfoldable pub price_str_to_decimal : PriceText → Result Decimal
price_str_to_decimal absent = err invalid_operation
price_str_to_decimal malformed = err invalid_operation
price_str_to_decimal (decimal d) = ok d

-- The value that the four-decimal text denotes.
unfoldable pub price_decimal_to_str : Decimal → Result Decimal
price_decimal_to_str d = quantize d

pub record Market : Type 0 where
  pub ticker : ℕ
  pub event_ticker : Option ℕ
  pub category : Option String
  pub status : Option String
  pub yes_ask_dollars : PriceText
  pub no_ask_dollars : PriceText
  pub close_time : Option ℕ
  pub volume : Option ℕ

pub record OrderRequest : Type 0 where
  pub ticker : ℕ
  pub side : Side
  pub action : Action
  pub count_fp : ℕ
  pub yes_price_dollars : Option Decimal
  pub no_price_dollars : Option Decimal
  pub client_order_id : ℕ

pub record OrderResponse : Type 0 where
  pub order_id : ℕ
  pub client_order_id : Option ℕ
  pub status : String

pub record KalshiPosition : Type 0 where
  pub ticker : ℕ
  pub position : ℤ
  pub realized_pnl_dollars : PriceText

pub record KalshiFill : Type 0 where
  pub order_id : ℕ
  pub ticker : ℕ
  pub side : Side
  pub action : Action
  pub count : ℕ
  pub yes_price_dollars : PriceText
  pub no_price_dollars : PriceText
  pub is_taker : Bool
  pub created_time : Option ℕ
