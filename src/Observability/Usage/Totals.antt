-- ===== src/Observability/Usage/Totals.antt =====
-- observability/usage.py: the breakdown by model against the totals.
use plugin_baselithbot.Dict.{Dict, get, put}
use plugin_baselithbot.Lists.{length}
use plugin_baselithbot.Observability.Usage.{
  UsageEvent, UsageLedger, total, summary, Aggregate, model_key, usage_of, with_event, breakdown,
  by_model_breakdown,
}
use plugin_baselithbot.Common.{ℕ, suc, ◌+◌, String, ◌≡◌, ◌∙◌, List, [], ◌∷◌, arith}

-- The sums over all rows of a breakdown.
abbrev pub all_events : Dict Aggregate → ℕ
all_events [] = 0
all_events ((k, a) ∷ d) = a.events + all_events d

abbrev pub all_tokens : Dict Aggregate → ℕ
all_tokens [] = 0
all_tokens ((k, a) ∷ d) = a.tokens + all_tokens d

abbrev pub all_costs : Dict Aggregate → ℕ
all_costs [] = 0
all_costs ((k, a) ∷ d) = a.cost_usd + all_costs d

-- Replacing a row changes a sum by the difference of the rows.
all-put :
    (d : Dict Aggregate) (key : String) (a : Aggregate)
    → (all_events (put d key a) + (usage_of d key).events ≡ all_events d + a.events)
      × (all_tokens (put d key a) + (usage_of d key).tokens ≡ all_tokens d + a.tokens)
      × (all_costs (put d key a) + (usage_of d key).cost_usd ≡ all_costs d + a.cost_usd)
unfolding put get
all-put [] key a = (omega arith, omega arith, omega arith)
all-put ((k, b) ∷ d) key a =
    let (h1, h2, h3) = all-put d key a in
    (ground (arith, h1), ground (arith, h2), ground (arith, h3))

all-breakdown :
    (es : List UsageEvent) (d : Dict Aggregate)
    → (all_events (breakdown es d) ≡ all_events d + length es)
      × (all_tokens (breakdown es d) ≡ all_tokens d + total (λ e. e.total_tokens) es)
      × (all_costs (breakdown es d) ≡ all_costs d + total (λ e. e.cost_usd) es)
unfolding with_event
all-breakdown [] d = (omega arith, omega arith, omega arith)
all-breakdown (e ∷ es) d =
    let key = model_key e.model in
    let a = usage_of d key in
    let row : Aggregate = record {
      events = suc a.events;
      tokens = a.tokens + e.total_tokens;
      cost_usd = a.cost_usd + e.cost_usd;
    } in
    let (h1, h2, h3) = all-breakdown es (put d key row) in
    let (p1, p2, p3) = all-put d key row in
    (omega (arith, h1, p1), omega (arith, h2, p2), omega (arith, h3, p3))

-- The rows of the breakdown by model add up to the summary: every event of the ring is counted for one
-- model and no event for two.
pub by_model_breakdown-summary :
    (l : UsageLedger)
    → (all_events (by_model_breakdown l) ≡ (summary l).events_in_buffer)
      × (all_tokens (by_model_breakdown l) ≡ (summary l).total_tokens)
      × (all_costs (by_model_breakdown l) ≡ (summary l).total_cost_usd)
unfolding by_model_breakdown summary
by_model_breakdown-summary l =
    let (h1, h2, h3) = all-breakdown l.ring [] in
    (h1 ∙ omega arith, h2 ∙ omega arith, h3 ∙ omega arith)
