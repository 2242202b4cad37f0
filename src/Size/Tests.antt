-- ===== src/Size/Tests.antt =====
-- The theorems on sizes at concrete texts.
use mercuryc.Base.{some, ◌≡◌, refl, codes, arith}
use mercuryc.Size.{parse_byte_size}
use mercuryc.Size.Proofs.{parse_byte_size_lem}

parse_byte_size_example : parse_byte_size (codes "10kB") ≡ some 10240
unfolding mercuryc.Strconv.format_uint
parse_byte_size_example = parse_byte_size_lem 10 0 b'k' (omega arith) refl
