-- ===== src/Compare/Arrays/Longer.antt =====
-- arrayComparison with an expected array that is longer than the actual one.
use apitest.Base.{◌<◌, ◌≡◌, refl, false, String, some, List, ok, map, length, lt→ltb}
use apitest.Json.{Value}
use apitest.Host.{Host}
use apitest.Compare.Types.{CompareResult, Context, Part, failed, too_long}
use apitest.Compare.Arrays.{part_value, array_comparison}

-- The arrays can be printed for the message.
abbrev pub ArePrintable : Host → List Part → List Value → Type 0
ArePrintable host left right =
    (l : String) × (r : String) × (host.marshal_indent (map part_value left) ≡ some l)
    × (host.marshal_indent right ≡ some r)

pub longer_fails :
    (host : Host) (left : List Part) (right : List Value) (curr next : Context)
    → length right < length left
    → ArePrintable host left right
    → (res : CompareResult) × (array_comparison host left right curr next ≡ ok res)
      × (res.equal ≡ false)
unfolding array_comparison
longer_fails host left right curr next lt (l, r, el, er) =
    (failed "" (too_long (length left) (length right) l r), rw (lt→ltb _ _ lt, el, er), refl)
