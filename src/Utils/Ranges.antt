-- ===== src/Utils/Ranges.antt =====
-- The ranges of the standard library, which src/download/manager.rs and src/torrent/magnet.rs collect.
use codecrafters_bittorrent.Prelude.{ℕ, zero, suc, ◌+◌, ◌≡◌, refl, List, [], ◌∷◌, arith, length}

-- The `n` numbers from `start` on.
unfoldable pub range_from : ℕ → ℕ → List ℕ
range_from start zero = []
range_from start (suc n) = start ∷ range_from (start + 1) n

pub length-range_from : (start n : ℕ) → length (range_from start n) ≡ n
unfolding range_from
length-range_from start zero = refl
length-range_from start (suc n) = omega (arith, length-range_from (start + 1) n)
