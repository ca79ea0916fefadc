-- ===== src/Enums.antt =====
-- The enumerations of include/zenoh_flat.h, with their values.
use zenoh_flat_c.Base.{ℕ, Option, none, some, ◌==◌, if◌then◌else◌}

pub data WhatAmI : Type 0 where
  router peer client : WhatAmI

unfoldable pub whatami_value : WhatAmI → ℕ
whatami_value router = 1
whatami_value peer = 2
whatami_value client = 4

pub data CongestionControl : Type 0 where
  drop block : CongestionControl

pub data Priority : Type 0 where
  real_time interactive_high interactive_low data_high data_normal data_low background : Priority

unfoldable pub priority_value : Priority → ℕ
priority_value real_time = 1
priority_value interactive_high = 2
priority_value interactive_low = 3
priority_value data_high = 4
priority_value data_normal = 5
priority_value data_low = 6
priority_value background = 7

-- `(z_priority_t)p`; `none` where the number is no value of the enumeration.
unfoldable pub priority_of : ℕ → Option Priority
priority_of p =
    if p == 1
    then some real_time
    else if p == 2
    then some interactive_high
    else if p == 3
    then some interactive_low
    else if p == 4
    then some data_high
    else if p == 5
    then some data_normal
    else if p == 6
    then some data_low
    else if p == 7
    then some background
    else none

pub data SampleKind : Type 0 where
  put delete : SampleKind

unfoldable pub sample_kind_value : SampleKind → ℕ
sample_kind_value put = 0
sample_kind_value delete = 1

pub data QueryTarget : Type 0 where
  best_matching all all_complete : QueryTarget

pub data ConsolidationMode : Type 0 where
  auto no_consolidation monotonic latest : ConsolidationMode

pub data ReplyKeyExpr : Type 0 where
  any matching_query : ReplyKeyExpr
