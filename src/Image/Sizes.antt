-- ===== src/Image/Sizes.antt =====
-- pkg/image/image.go: the size of an ext4 image.
use vessel.Prelude.{ℕ, zero, suc, refl, ◌+◌, ◌*◌, ◌%◌, ◌^◌, ◌≤◌, ◌<◌, ◌≡◌, arith}
use vessel.Prelude.Int.{ℤ, pos, negsuc}
use vessel.Image.{is_negative, in_mib, extra_or_default, ext4_bytes}

-- the headroom in MiB that a caller asks for, and 32 where that is none or negative
abbrev pub headroom : ℤ → ℕ
headroom (pos zero) = 32
headroom (pos (suc n)) = suc n
headroom (negsuc n) = 32

extra_or_default-headroom : (extra : ℤ) → extra_or_default extra ≡ headroom extra
unfolding extra_or_default
extra_or_default-headroom (pos zero) = refl
extra_or_default-headroom (pos (suc n)) = ground arith
extra_or_default-headroom (negsuc n) = refl

-- For less than 2 ^ 62 bytes of content and less than 2 ^ 41 MiB of headroom, the image has whole MiB,
-- at least 32 of them, its size is a positive int64, and it holds the content, the headroom (32 MiB
-- where none is asked for) and 15 MiB more.
pub ext4_bytes-fits :
    (used : ℕ) (extra : ℤ)
    → used < 2 ^ 62
    → headroom extra < 2 ^ 41
    → (ext4_bytes used extra % 2 ^ 20 ≡ 0)
      × (32 * 2 ^ 20 ≤ ext4_bytes used extra)
      × (ext4_bytes used extra < 2 ^ 63)
      × (used + (headroom extra + 15) * 2 ^ 20 ≤ ext4_bytes used extra)
unfolding ext4_bytes in_mib is_negative
ext4_bytes-fits used extra small modest = (
  ground (arith, small, modest, extra_or_default-headroom extra),
  ground (arith, small, modest, extra_or_default-headroom extra),
  ground (arith, small, modest, extra_or_default-headroom extra),
  ground (arith, small, modest, extra_or_default-headroom extra),
)
