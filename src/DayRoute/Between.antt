-- ===== src/DayRoute/Between.antt =====
-- `_inject_intercity_transfers_between_days` of utils/hybrid_optimizer_v31.py: a transfer for two
-- consecutive days whose bases are over 30 km apart. `robust n` is what `routing_service_robust`
-- answers for the n-th pair of days.
use Prim.Native.String.{String}
use goveling_ml.Prelude.{
  ℕ, suc, ◌+◌, ◌-◌, ◌*◌, ◌/◌, Bool, true, false, ◌&&◌, ◌||◌, Option, none, some, List, [], ◌∷◌, ltb,
  if◌then◌else◌,
}
use goveling_ml.Schedule.Data.{Location, HomeBase}
use goveling_ml.DayRoute.Data.{Transfer, TravelSummary, BaseInfo, Day}

pub record RobustReply : Type 0 where
  pub distance_m : ℕ
  pub duration_thousandths : ℕ
  pub fallback_used : Bool

-- How a day is reached: the distance, the whole minutes and the mode.
pub record Passage : Type 0 where
  pub distance_m : ℕ
  pub minutes : ℕ
  pub mode : String

-- By air over 1000 km, at 750 km/h with 90 minutes at the airports.
unfoldable pub passage : ℕ → RobustReply → Passage
passage distance_m r =
    if r.fallback_used && ltb 1000000 distance_m || ltb 1000000 distance_m
    then record {
      distance_m = distance_m;
      minutes = distance_m * 60 / 750000 + 90;
      mode = "flight";
    }
    else record {
      distance_m = r.distance_m;
      minutes = r.duration_thousandths / 1000;
      mode = "drive";
    }

abbrev pub gap : ℕ → ℕ → ℕ
gap a b = (a - b) + (b - a)

-- A transfer whose distance differs by less than one kilometre counts as the same.
abbrev pub transfer_exists : ℕ → List Transfer → Bool
transfer_exists distance_m [] = false
transfer_exists distance_m (t ∷ ts) =
    ltb (gap t.distance_m distance_m) 1000 || transfer_exists distance_m ts

abbrev pub between_days : HomeBase → HomeBase → Passage → Transfer
between_days from to way = record {
  from_place = from.name;
  to_place = to.name;
  origin = from.location;
  destination = to.location;
  distance_m = way.distance_m;
  duration_minutes = way.minutes;
  mode = way.mode;
  time = 9 * 60;
  overnight = false;
  is_between_days = true;
}

abbrev pub add_to_summary : Passage → TravelSummary → TravelSummary
add_to_summary way s = record s {
  intercity_transfers_count = s.intercity_transfers_count + 1;
  intercity_total_minutes = s.intercity_total_minutes + way.minutes;
  transport_time_minutes = s.transport_time_minutes + way.minutes;
  total_distance_m = s.total_distance_m + way.distance_m;
}

module _ {Advice : Type 0} (distance : Location → Location → ℕ)
    (robust : ℕ → Location → Location → RobustReply) where
  unfoldable pub insert_transfer : HomeBase → HomeBase → Passage → Day Advice → Day Advice
  insert_transfer from to way day =
      if transfer_exists way.distance_m day.transfers then day else record day {
        transfers = between_days from to way ∷ day.transfers;
        travel_summary = add_to_summary way day.travel_summary;
      }

  abbrev pub connect_bases : ℕ → Option BaseInfo → Option BaseInfo → Day Advice → Day Advice
  connect_bases n (some a) (some b) next =
      let from = a.home_base in
      let to = b.home_base in
      let far = distance from.location to.location in
      if ltb 30000 far
      then insert_transfer from to (passage far (robust n from.location to.location)) next
      else next
  connect_bases n none b next = next
  connect_bases n (some a) none next = next

  unfoldable pub connect : ℕ → Day Advice → Day Advice → Day Advice
  unfolding insert_transfer
  connect n day next = connect_bases n day.base next.base next

  -- The days after a first one. The base of a day stays as it is, so the next pair reads the same.
  abbrev pub inject_after : ℕ → Day Advice → List (Day Advice) → List (Day Advice)
  inject_after n day [] = []
  inject_after n day (next ∷ days) = connect n day next ∷ inject_after (suc n) next days

  unfoldable pub inject_intercity_transfers_between_days : List (Day Advice) → List (Day Advice)
  unfolding connect
  inject_intercity_transfers_between_days [] = []
  inject_intercity_transfers_between_days (day ∷ days) = day ∷ inject_after 0 day days
