-- ===== src/Bmap/Rank.antt =====
-- The order in which `truncate` comes to the places of an inode.
use linux.Prelude.{ℕ, ◌+◌, ◌*◌, ◌<◌, ◌≡◌, ap, ap₂, ◌==◌, ltb, if◌then◌else◌, arith}
use linux.Bmap.Tree.{Place, zone, ind, dind, leaf, IsPlace}

abbrev pub rank : Place → ℕ
rank (zone z) = if ltb z 7 then z else if z == 7 then 519 else 520 + 512 * 513
rank (ind i) = 7 + i
rank (leaf i j) = 520 + i * 513 + j
rank (dind i) = 520 + i * 513 + 512

-- Different places come at different times.
pub rank_ne : (p q : Place) → IsPlace p → IsPlace q → rank p ≡ rank q → p ≡ q
rank_ne (zone z) (zone k) h g e = ap zone (ground arith)
rank_ne (zone z) (ind k) h g e = absurd (ground arith)
rank_ne (zone z) (dind k) h g e = absurd (ground arith)
rank_ne (zone z) (leaf k l) h (g, g') e = absurd (ground arith)
rank_ne (ind i) (zone k) h g e = absurd (ground arith)
rank_ne (ind i) (ind k) h g e = ap ind (omega arith)
rank_ne (ind i) (dind k) h g e = absurd (omega arith)
rank_ne (ind i) (leaf k l) h g e = absurd (omega arith)
rank_ne (dind i) (zone k) h g e = absurd (ground arith)
rank_ne (dind i) (ind k) h g e = absurd (omega arith)
rank_ne (dind i) (dind k) h g e = ap dind (omega arith)
rank_ne (dind i) (leaf k l) h (g, g') e = absurd (omega arith)
rank_ne (leaf i j) (zone k) (h, h') g e = absurd (ground arith)
rank_ne (leaf i j) (ind k) h g e = absurd (omega arith)
rank_ne (leaf i j) (dind k) (h, h') g e = absurd (omega arith)
rank_ne (leaf i j) (leaf k l) (h, h') (g, g') e = ap₂ leaf (omega arith) (omega arith)

pub rank-lt : (p : Place) → IsPlace p → rank p < 521 + 512 * 513
rank-lt (zone z) h = ground arith
rank-lt (ind i) h = omega arith
rank-lt (dind i) h = omega arith
rank-lt (leaf i j) (h, h') = omega arith
