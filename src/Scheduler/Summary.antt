-- ===== src/Scheduler/Summary.antt =====
-- `_post_summary` of kalshi_agent/scheduler.py: the figures of the daily and the weekly summary.
-- `day_of` gives the local day of an instant, `midnight` the first instant of a local day, and
-- `week_ago` the instant a week before by the local clock; the text that is posted is left out.
use kalshi_agent.Base.{ℕ, ◌≡◌, refl, not, List, map, length, select, leb, ◌==◌}
use kalshi_agent.Decimal.{Decimal, of_ℕ, sum_D}
use kalshi_agent.Storage.{Db, Position}
use kalshi_agent.Pnl.{realized_pnl_since}
use kalshi_agent.Api.Observer
use kalshi_agent.Api.Observer.{today, pnl}

pub data Kind : Type 0 where
  eod weekly : Kind

pub record Summary : Type 0 where
  pub orders : ℕ
  pub fills : ℕ
  pub fees : Decimal
  pub net_pnl : Decimal
  pub open_positions : List Position

module _ (day_of midnight week_ago : ℕ → ℕ) where
  unfoldable pub cutoff : Kind → ℕ → ℕ
  cutoff eod now = midnight (day_of now)
  cutoff weekly now = week_ago now

  unfoldable pub post_summary : Kind → ℕ → Db → Summary
  unfolding cutoff
  post_summary kind now db =
      let since = cutoff kind now in
      let fills = select (λ f. leb since f.created_at) db.ledger.fills in
      record {
        orders = length (select (λ o. leb since o.created_at) db.orders);
        fills = length fills;
        fees = sum_D (of_ℕ 0) (map (λ f. f.fee_dollars) fills);
        net_pnl = realized_pnl_since (day_of since) db.ledger.positions db.pnl_daily;
        open_positions = select (λ p. not (p.count == 0)) db.ledger.positions;
      }

  -- The figures of the daily summary are those that the observer route shows for today at the same
  -- time.
  summary_agrees_with_route :
      (float_of : Decimal → Decimal) (now : ℕ) (db : Db)
      → let s = post_summary eod now db in
        let p = pnl float_of day_of midnight today now db in
        (p.trade_count ≡ s.fills)
        × (p.fees_dollars ≡ float_of s.fees)
        × (p.realized_pnl_dollars ≡ float_of s.net_pnl)
  unfolding post_summary cutoff pnl Observer.cutoff Observer.realized
  summary_agrees_with_route float_of now db = (refl, refl, refl)
