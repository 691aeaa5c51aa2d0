-- ===== src/Decision/Scores.antt =====
-- The bounds of the scores of utils/ortools_decision_engine.py, and that a score grows with a trip.
use Prim.Native.String.{String}
use goveling_ml.Prelude.{ℕ, ◌≤◌, Bool, true, false, Option, List, arith}
use goveling_ml.Prelude.Int.{ℤ, pos, negsuc, ◌≤ℤ◌}
use goveling_ml.Decision.{
  Place, Request, Settings, TransportComplexity, ItineraryComplexity, FeatureFlags, GeoAnalysis,
}
use goveling_ml.Decision.Complexity.{
  places_score, days_score, spread_score, transport_weight, calculate_overall_complexity,
  analyze_complexity,
}
use goveling_ml.Decision.Choice.{weigh, choose, make_decision}
use goveling_ml.Decision.Engine.{Factors, Inputs, Engine, decide}

places_score_mono : (m n : ℕ) → m ≤ n → places_score m ≤ places_score n
places_score_mono m n h = ground arith

days_score_mono : (d e : ℤ) → d ≤ℤ e → days_score d ≤ days_score e
days_score_mono (pos a) (pos b) h = ground arith
days_score_mono (pos a) (negsuc b) h = ground arith
days_score_mono (negsuc a) (pos b) h = ground arith
days_score_mono (negsuc a) (negsuc b) h = ground arith

spread_score_mono : (s t : ℕ) → s ≤ t → spread_score s ≤ spread_score t
spread_score_mono s t h = ground arith

-- A trip with at least as many places, days, kilometres, types and restrictions and a transport of at
-- least the same weight has at least the same complexity, and no complexity is above 10.
pub calculate_overall_complexity_mono :
    (n n' : ℕ) (d d' : ℤ) (s s' v v' c c' : ℕ) (t t' : TransportComplexity)
    → n ≤ n'
    → d ≤ℤ d'
    → s ≤ s'
    → v ≤ v'
    → c ≤ c'
    → transport_weight t ≤ transport_weight t'
    → (calculate_overall_complexity n d s v c t ≤ calculate_overall_complexity n' d' s' v' c' t')
      × (calculate_overall_complexity n' d' s' v' c' t' ≤ 1000)
unfolding calculate_overall_complexity
calculate_overall_complexity_mono n n' d d' s s' v v' c c' t t' hn hd hs hv hc ht =
    let p = places_score_mono n n' hn in
    let q = days_score_mono d d' hd in
    let r = spread_score_mono s s' hs in (omega arith, omega arith)

-- What is known of a choice: at most 100, at least 65 for OR-Tools, at most 20 against it.
abbrev pub IsConfident : Bool → ℕ → Type 0
IsConfident true c = (65 ≤ c) × (c ≤ 100)
IsConfident false c = c ≤ 20

weigh-IsConfident :
    (s : Settings) (c : ItineraryComplexity)
    → IsConfident (weigh s c).use_ortools (weigh s c).confidence
weigh-IsConfident s c = ground arith

choose-IsConfident :
    (s : Settings) (c : ItineraryComplexity) (healthy : Bool) (flags : FeatureFlags)
    (geo : GeoAnalysis)
    → let choice = choose s c healthy flags geo in IsConfident choice.use_ortools choice.confidence
unfolding choose
choose-IsConfident s c healthy flags geo = ground (arith, weigh-IsConfident s c)

complexity_le : (r : Request) → (analyze_complexity r).overall_score ≤ 1000
unfolding analyze_complexity calculate_overall_complexity
complexity_le r = omega arith

-- A decision made anew has a complexity of at most 10 and a confidence of at most 1, and the
-- confidence is at least 0.65 where it is for OR-Tools and at most 0.2 where it is against it.
pub decide-IsConfident :
    (lower : String → String) (automatic_city : List Place → Option String) (user_hash : String → ℕ)
    (digest : Factors → ℕ) (s : Settings) (i : Inputs) (r : Request) (healthy : Bool) (e : Engine)
    → let d = (decide lower automatic_city user_hash digest s i r (healthy, e)).0 in
      IsConfident d.use_ortools d.confidence_score × (d.complexity_score ≤ 1000)
unfolding decide make_decision
decide-IsConfident lower automatic_city user_hash digest s i r healthy e =
    (choose-IsConfident s (analyze_complexity r) healthy _ _, complexity_le r)
