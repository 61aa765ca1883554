-- ===== src/Calculator/Banding.antt =====
-- The banded calculator over all the children of a job.
use cnspec.Calculator
use cnspec.Calculator.{some, Impact, Option, Bool, Score, ℕ, Calculator}
use cnspec.Calculator.Banded
use cnspec.Calculator.Banded.{Bands}
use cnspec.Calculator.Order.{Entry}
use cnspec.Calculator.Load.{added}
use cnspec.Common.{some, refl, Bool, Option, ◌≡◌, List, ℕ}
use cnspec.Common.Order.{fold}

abbrev pub weight_load : Score → Option Impact → ℕ
weight_load s i = s.weight

add_banded : Banded.Banded → Entry → Banded.Banded
add_banded c e = Banded.add c (added e).0 (added e).1

-- The bands that the children of a job fill.
unfoldable pub final_bands : Bool → List Entry → Bands
unfolding add_banded
final_bands flag k = (fold add_banded (Banded.init (Banded.zero_value flag)) k).bands

-- `Init` of a banded calculator keeps the weights of the bands, so a calculator that is used again
-- still counts the failing checks of its first use.
pub init_keeps_bands : (c : Banded.Banded) → (Banded.init c).bands ≡ c.bands
unfolding Banded.init
init_keeps_bands c = refl
