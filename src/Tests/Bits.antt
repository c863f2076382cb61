-- ===== src/Tests/Bits.antt =====
-- kernel/lib/bitmap.c and include/bitmap.h on an array whose only bits are 0 and 33.
use koowaldah.Base.{◌+◌, ◌/◌, update, ◌≡◌, refl, some}
use koowaldah.Bitmap.{Bitmap, test_bit, bitmap_seek_unset, bitmap_zero, bitmap_fill, bitmap_size}

abbrev bits : Bitmap
bits = update (update (λ _. 0) 0 1) 1 2

first_unset : bitmap_seek_unset bits 40 ≡ some 1
unfolding bitmap_seek_unset test_bit
first_unset = refl

-- The remaining eight bits go to the first word.
zeroed : bitmap_zero 40 bits 1 ≡ 2
unfolding bitmap_zero
zeroed = refl

-- For 64 bits the third word is changed, which is not in the bitmap.
beyond : bitmap_fill (λ w. w + 5) 64 bits (bitmap_size 64 / 4) ≡ 5
unfolding bitmap_fill bitmap_size
beyond = refl
