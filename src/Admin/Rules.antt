-- ===== src/Admin/Rules.antt =====
-- A rule of commission that an administrator sets is the rule that a settlement reads.
use powergas.Base.{
  ℕ, ℤ, pos_part, Option, none, some, List, ◌==◌, ◌&&◌, not, is_some, same, if◌then◌else◌,
}
use powergas.Table.{Uuid}
use powergas.Entities.{PlatformCommission}
use powergas.World.{World}
use powergas.Settlement.{
  NullWhere, is_null, ignored, find_rule, is_station_rule, is_default_rule, percent_or,
}

-- What a settlement reads for a station after a rule was set. A rule for all stations: the station's own
-- rule where it has one, and otherwise the new rule, or, where `null` is ignored, the first rule in force
-- of any station before it. A rule of one station: the new rule for that station; for another its own, and
-- otherwise the default, or, where `null` is ignored, the first rule in force that is not of that station
-- before the new rule.
abbrev pub percent_after : NullWhere → ℕ → ℤ → Option Uuid → Uuid → List PlatformCommission → ℕ
percent_after is_null fallback percent none station rules =
    percent_or (find_rule (is_station_rule station) rules) (pos_part percent)
percent_after ignored fallback percent none station rules =
    percent_or (find_rule (is_station_rule station) rules)
      (percent_or (find_rule (λ r. r.is_active && is_some r.station_id) rules) (pos_part percent))
percent_after is_null fallback percent (some s) station rules =
    if s == station
    then pos_part percent
    else percent_or (find_rule (is_station_rule station) rules)
        (percent_or (find_rule (is_default_rule is_null) rules) fallback)
percent_after ignored fallback percent (some s) station rules =
    if s == station
    then pos_part percent
    else percent_or (find_rule (is_station_rule station) rules) (
        percent_or (find_rule (λ r. r.is_active && not (same r.station_id (some s))) rules)
          (pos_part percent))
