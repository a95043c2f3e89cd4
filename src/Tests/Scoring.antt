-- ===== src/Tests/Scoring.antt =====
-- The score of a prospect (src/lib/scoring.ts).
use provence.Prelude.{◌≡◌, refl, true, false, none, some}
use provence.Prelude.{map, select}
use provence.Prelude.Int.{pos, ◌+ℤ◌, ◌≤ℤ◌}
use provence.Crm.Scoring.{
  ScoringContext, faible_priorite, compute_score, default_scoring_rules, clamp, categorize,
  entry_of,
}
use provence.Crm.Scoring.Laws.{counts, total, compute_score_lem, compute_score_suppressed}

abbrev villa : ScoringContext
villa = record {
  category = "VILLA";
  website_url = some "https://v";
  has_virtual_tour = some false;
  review_count = some 60;
  average_rating = some (record { numerator = 43; denominator = 10 });
  social_links = none;
  is_closed = none;
  address = some "x";
  is_in_zone = true;
  recently_contacted_days = none;
  is_suppressed = false;
}

abbrev unsubscribed : ScoringContext
unsubscribed = record villa { is_suppressed = true }

seventy : (compute_score villa default_scoring_rules).value ≡ pos 70
unfolding compute_score default_scoring_rules ◌+ℤ◌
seventy = refl

compute_score_lem_example :
    let s = compute_score villa default_scoring_rules in
    let held = select (counts villa) default_scoring_rules in
    (s.value ≡ clamp (total held))
    × (pos 0 ≤ℤ s.value)
    × (s.value ≤ℤ pos 100)
    × (s.category ≡ categorize s.value)
    × (s.breakdown ≡ map entry_of held)
compute_score_lem_example = compute_score_lem villa default_scoring_rules

compute_score_suppressed_example :
    ((compute_score unsubscribed default_scoring_rules).value ≡ pos 0)
    × ((compute_score unsubscribed default_scoring_rules).category ≡ faible_priorite)
compute_score_suppressed_example = compute_score_suppressed unsubscribed refl
