-- ===== src/Crm/Scoring.antt =====
-- The scores of prospects: src/lib/scoring.ts. An average rating is a fraction, compared exactly.
pub mod Laws
use provence.Prelude.{
  ℕ, ◌*◌, String, Bool, true, false, not, ◌&&◌, ◌||◌, Option, none, some, List, [], ◌∷◌,
  ◌++◌ as append, ltb, leb, str_eq, if◌then◌else◌, Map,
}
use provence.Prelude.Int.{ℤ, pos, negsuc, ◌+ℤ◌, ltb_ℤ}

pub data ScoringCondition : Type 0 where
  premium_category multi_unit no_virtual_tour many_reviews : ScoringCondition
  active_but_not_immersive_website strong_ota_presence in_zone active_social_media :
      ScoringCondition
  medium_quality_photos no_professional_address closed_business : ScoringCondition
  recently_contacted suppressed : ScoringCondition

pub record ScoringRule : Type 0 where
  pub id : String
  pub label : String
  pub condition : ScoringCondition
  pub points : ℤ
  pub enabled : Bool

abbrev rule : String → String → ScoringCondition → ℤ → ScoringRule
rule id label condition points = record {
  id = id;
  label = label;
  condition = condition;
  points = points;
  enabled = true;
}

-- All rules but the last, and the last.
unfoldable pub first_rules : List ScoringRule
first_rules =
    rule "premium" "Établissement haut de gamme" premium_category (pos 20)
    ∷ rule "multi-unit" "Plusieurs logements/établissements" multi_unit (pos 15)
    ∷ rule "no-tour" "Aucune visite virtuelle visible" no_virtual_tour (pos 15)
    ∷ rule "many-reviews" "Beaucoup d'avis clients (≥ 50)" many_reviews (pos 10)
    ∷ rule "weak-website" "Site actif mais peu immersif" active_but_not_immersive_website (pos 10)
    ∷ rule "ota-presence" "Présence importante sur Airbnb/Booking" strong_ota_presence (pos 10)
    ∷ rule "in-zone" "Situé dans la zone d'intervention" in_zone (pos 10)
    ∷ rule "active-social" "Réseaux sociaux actifs" active_social_media (pos 5)
    ∷ rule "medium-photos" "Photos de qualité moyenne améliorables" medium_quality_photos (pos 5)
    ∷ rule "no-address" "Aucune adresse professionnelle disponible" no_professional_address
        (negsuc 19)
    ∷ rule "closed" "Établissement fermé" closed_business (negsuc 19)
    ∷ rule "recent-contact" "Prospect déjà contacté récemment" recently_contacted (negsuc 14)
    ∷ []

unfoldable pub last_rule : ScoringRule
last_rule = rule "suppressed" "Prospect désinscrit / liste d'exclusion" suppressed (negsuc 99)

unfoldable pub default_scoring_rules : List ScoringRule
unfolding first_rules last_rule
default_scoring_rules = append first_rules (last_rule ∷ [])

pub record Rating : Type 0 where
  pub numerator : ℕ
  pub denominator : ℕ

-- What the rules read of a prospect.
pub record ScoringContext : Type 0 where
  pub category : String
  pub website_url : Option String
  pub has_virtual_tour : Option Bool
  pub review_count : Option ℕ
  pub average_rating : Option Rating
  pub social_links : Option (Map String)
  pub is_closed : Option Bool
  pub address : Option String
  pub is_in_zone : Bool
  pub recently_contacted_days : Option ℕ
  pub is_suppressed : Bool

-- `Boolean(text)`
abbrev is_text : Option String → Bool
is_text none = false
is_text (some s) = not (str_eq s "")

abbrev is_flag : Bool → Option Bool → Bool
is_flag b none = false
is_flag true (some b) = b
is_flag false (some b) = not b

abbrev count_of : Option ℕ → ℕ
count_of none = 0
count_of (some n) = n

-- Below 4.5 and above 0; no rating counts as 0.
abbrev is_medium : Option Rating → Bool
is_medium none = false
is_medium (some r) = ltb (2 * r.numerator) (9 * r.denominator) && ltb 0 r.numerator

abbrev has_links : Option (Map String) → Bool
has_links none = false
has_links (some []) = false
has_links (some (link ∷ links)) = true

abbrev is_recent : Option ℕ → Bool
is_recent none = false
is_recent (some days) = ltb days 14

unfoldable pub evaluate_condition : ScoringCondition → ScoringContext → Bool
evaluate_condition premium_category ctx = str_eq ctx.category "VILLA" || str_eq ctx.category "HOTEL"
evaluate_condition multi_unit ctx =
    str_eq ctx.category "AIRBNB_HOST" || str_eq ctx.category "CAMPING"
evaluate_condition no_virtual_tour ctx = is_flag false ctx.has_virtual_tour
evaluate_condition many_reviews ctx = leb 50 (count_of ctx.review_count)
evaluate_condition active_but_not_immersive_website ctx =
    is_text ctx.website_url && not (is_flag true ctx.has_virtual_tour)
evaluate_condition strong_ota_presence ctx =
    str_eq ctx.category "AIRBNB_HOST" && leb 20 (count_of ctx.review_count)
evaluate_condition in_zone ctx = ctx.is_in_zone
evaluate_condition active_social_media ctx = has_links ctx.social_links
evaluate_condition medium_quality_photos ctx =
    is_text ctx.website_url && is_medium ctx.average_rating
evaluate_condition no_professional_address ctx = not (is_text ctx.address)
evaluate_condition closed_business ctx = is_flag true ctx.is_closed
evaluate_condition recently_contacted ctx = is_recent ctx.recently_contacted_days
evaluate_condition suppressed ctx = ctx.is_suppressed

pub record ScoreBreakdownEntry : Type 0 where
  pub rule_id : String
  pub label : String
  pub points : ℤ

pub data ScoreCategory : Type 0 where
  priorite_immediate prospect_interessant a_verifier faible_priorite : ScoreCategory

pub record ScoreResult : Type 0 where
  pub value : ℤ
  pub category : ScoreCategory
  pub breakdown : List ScoreBreakdownEntry

abbrev pub at_least : ℕ → ℤ → Bool
at_least n value = not (ltb_ℤ value (pos n))

unfoldable pub categorize : ℤ → ScoreCategory
categorize value =
    if at_least 80 value
    then priorite_immediate
    else if at_least 60 value
    then prospect_interessant
    else if at_least 40 value
    then a_verifier
    else faible_priorite

abbrev pub entry_of : ScoringRule → ScoreBreakdownEntry
entry_of r = record { rule_id = r.id; label = r.label; points = r.points }

-- `Math.max(0, Math.min(100, value))`
unfoldable pub clamp : ℤ → ℤ
clamp value =
    if ltb_ℤ value (pos 0) then pos 0 else if ltb_ℤ (pos 100) value then pos 100 else value

-- The loop, with `value` and `breakdown`.
unfoldable pub apply_rules :
    ScoringContext → List ScoringRule → ℤ → List ScoreBreakdownEntry → ℤ × List ScoreBreakdownEntry
unfolding evaluate_condition
apply_rules ctx [] value breakdown = (value, breakdown)
apply_rules ctx (r ∷ rules) value breakdown =
    let skipped = apply_rules ctx rules value breakdown in
    let counted = apply_rules ctx rules (value +ℤ r.points) (append breakdown (entry_of r ∷ [])) in
    if r.enabled && evaluate_condition r.condition ctx then counted else skipped

unfoldable pub compute_score : ScoringContext → List ScoringRule → ScoreResult
unfolding apply_rules clamp categorize
compute_score ctx rules =
    let (value, breakdown) = apply_rules ctx rules (pos 0) [] in
    record { value = clamp value; category = categorize (clamp value); breakdown = breakdown }
