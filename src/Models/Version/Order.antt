-- ===== src/Models/Version/Order.antt =====
-- `Compare` is the lexicographic order of the three components.
use ans_sdk_go.Base.{◌<◌, ◌≡◌, ◌↔◌, ◌⊎◌, true, arith}
use ans_sdk_go.Models.Version.{Version, Comparison, less, same, greater, compare, is_less}

-- Exchanging the versions turns the result round.
abbrev pub opposite : Comparison → Comparison
opposite less = greater
opposite same = same
opposite greater = less

-- A version is lower at its first component that differs.
abbrev pub IsLower : Version → Version → Type 0
IsLower v w =
    (v.major < w.major)
    ⊎ ((v.major ≡ w.major) × ((v.minor < w.minor) ⊎ ((v.minor ≡ w.minor) × (v.patch < w.patch))))

-- `Compare` answers -1 exactly if the first component that differs is lower, 0 exactly if the
-- versions are equal, and turns round when they are exchanged.
pub compare_lem :
    (v w : Version)
    → ((compare v w ≡ less) ↔ IsLower v w)
      × ((compare v w ≡ same) ↔ (v ≡ w))
      × (compare w v ≡ opposite (compare v w))
unfolding compare
compare_lem v w = (
  ((λ h. ground arith), (λ h. ground arith)),
  ((λ h. ground arith), (λ h. ground arith)),
  ground arith,
)

pub is_less_trans : (u v w : Version) → is_less u v ≡ true → is_less v w ≡ true → is_less u w ≡ true
unfolding is_less
is_less_trans u v w h k = ground arith
