-- ===== src/Prediction/Outcome.antt =====
-- prediction_settlement.py: the outcome of a market, by the exchange and by the weather report.
use blackhole_network.Base.{
  ℕ, ◌*◌, ◌^◌, String, Bool, true, false, not, ◌&&◌, ◌||◌, Option, none, some, List, [], ◌∷◌, map,
  ltb, if◌then◌else◌, codes, lower, same_codes,
}
use blackhole_network.Prediction.Types.{
  Decimal, Variable, tmax_f, tmin_f, precip_in, Op, above, at_least, below, at_most, between,
  Metadata,
}

pub data Outcome : Type 0 where
  settled_yes settled_no voided : Outcome

-- What is read of the answer of `get_market`.
pub record Market : Type 0 where
  pub status : Option String
  pub result : Option String
  pub outcome : Option String

-- The answer, the API's error, or any other exception.
pub data Reply : Type 0 where
  market_body : Market → Reply
  api_error other_error : Reply

pub record Report : Type 0 where
  pub station : String
  pub day : ℕ
  pub tmax : Option Decimal
  pub tmin : Option Decimal
  pub precip : Option Decimal

-- `(text or "").lower()`
abbrev lowered : Option String → List ℕ
lowered none = []
lowered (some s) = map lower (codes s)

abbrev is_one_of : List ℕ → List String → Bool
is_one_of word [] = false
is_one_of word (s ∷ ss) = same_codes (codes s) word || is_one_of word ss

-- `market.get("result") or market.get("outcome")`
abbrev or_text : Option String → Option String → Option String
or_text none other = other
or_text (some String.[]) other = other
or_text (some s) other = some s

abbrev read_result : List ℕ → Option Outcome
read_result word =
    if is_one_of word ("yes" ∷ "true" ∷ [])
    then some settled_yes
    else if is_one_of word ("no" ∷ "false" ∷ [])
    then some settled_no
    else if is_one_of word ("void" ∷ "voided" ∷ "canceled" ∷ [])
    then some voided
    else none

unfoldable pub market_outcome : Market → Option Outcome
market_outcome m =
    if is_one_of (lowered m.status) ("settled" ∷ "finalized" ∷ [])
    then read_result (lowered (or_text m.result m.outcome))
    else none

-- none is an exception that is not caught.
unfoldable pub fetch_kalshi_market_outcome : Reply → Option (Option Outcome)
unfolding market_outcome
fetch_kalshi_market_outcome (market_body m) = some (market_outcome m)
fetch_kalshi_market_outcome api_error = some none
fetch_kalshi_market_outcome other_error = none

-- Numerals compared by value.
abbrev pub less_decimal : Decimal → Decimal → Bool
less_decimal a b = ltb (a.digits * 10 ^ b.places) (b.digits * 10 ^ a.places)

abbrev observed : Report → Variable → Option Decimal
observed r tmax_f = r.tmax
observed r tmin_f = r.tmin
observed r precip_in = r.precip

abbrev resolves : Bool → Outcome
resolves true = settled_yes
resolves false = settled_no

abbrev compared : Op → Decimal → Decimal → Option Decimal → Option Outcome
compared above v t high = some (resolves (less_decimal t v))
compared at_least v t high = some (resolves (not (less_decimal v t)))
compared below v t high = some (resolves (less_decimal v t))
compared at_most v t high = some (resolves (not (less_decimal t v)))
compared between v t none = none
compared between v t (some h) = some (resolves (not (less_decimal v t) && less_decimal v h))

pub derive_nws_outcome : Report → Metadata → Option Outcome
derive_nws_outcome r m = elim (observed r m.variable) [
  | none ↦ none
  | some v ↦ compared m.op v m.threshold m.threshold_high
]
