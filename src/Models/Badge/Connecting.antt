-- ===== src/Models/Badge/Connecting.antt =====
-- The statuses of models/badge.go with which a connection is made.
use ans_sdk_go.Base.{◌≡◌, ◌↔◌, ◌⊎◌, true, arith}
use ans_sdk_go.Models.Badge.{BadgeStatus, active, warning, deprecated, is_valid_for_connection}

abbrev pub IsConnecting : BadgeStatus → Type 0
IsConnecting s = (s ≡ active) ⊎ ((s ≡ warning) ⊎ (s ≡ deprecated))

pub is_valid_for_connection_iff :
    (s : BadgeStatus) → (is_valid_for_connection s ≡ true) ↔ IsConnecting s
unfolding is_valid_for_connection
is_valid_for_connection_iff s = ground arith
