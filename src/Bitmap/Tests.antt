-- ===== src/Bitmap/Tests.antt =====
-- Runs of the bitmap's functions, and their theorems at concrete bitmaps.
use tinykernel.Base.{
  ◌+◌, ◌≤◌, ◌≡◌, refl, inr, true, false, none, some, arith, ◌==◌, ltb, if◌then◌else◌, not, ◌||◌,
  table, table-entry, ok, panic,
}
use tinykernel.Bitmap.{
  Bitmap, bit_is_set, bitmap_init, bitmap_scan_test, bitmap_set, skip_full_bytes, skip_set_bits,
  scan_run, bitmap_scan,
}
use tinykernel.Bitmap.Access.{HasBytes, Wrote, bitmap_set-Wrote, bitmap_init-test}
use tinykernel.Bitmap.Scan.{
  ScanOutcome, bitmap_scan-FirstFit, bitmap_scan_in_range, bitmap_scan_past_end,
}
use tinykernel.Bitmap.Scan.First.{FirstFree}
use tinykernel.Bitmap.Scan.Run.{FreeRun}

-- Two bytes, 11111111 and 01001011 from bit 7 down to bit 0, and a byte of ones behind them.
abbrev two_bytes : Bitmap
two_bytes = record { btmp_bytes_len = 2; bits = λ i. if i == 1 then 0x4b else 0xff }

-- One byte with its last bit clear, and zeros behind it.
abbrev last_free : Bitmap
last_free = record { btmp_bytes_len = 1; bits = λ i. if i == 0 then 0x7f else 0 }

scan_finds_two : bitmap_scan two_bytes 2 ≡ ok (some 12)
unfolding bitmap_scan skip_full_bytes skip_set_bits scan_run bitmap_scan_test bit_is_set
scan_finds_two = refl

scan_finds_no_three : bitmap_scan two_bytes 3 ≡ ok none
unfolding bitmap_scan skip_full_bytes skip_set_bits scan_run bitmap_scan_test bit_is_set
scan_finds_no_three = refl

scan_stops_when_full : bitmap_scan (record two_bytes { btmp_bytes_len = 1 }) 1 ≡ panic
unfolding bitmap_scan skip_full_bytes
scan_stops_when_full = refl

two_bytes-HasBytes : HasBytes two_bytes
two_bytes-HasBytes i = ground arith

last_free-HasBytes : HasBytes last_free
last_free-HasBytes i = ground arith

bitmap_set-Wrote_instance :
    (b' : Bitmap) × (bitmap_set two_bytes 10 1 ≡ ok b') × Wrote two_bytes 10 true b'
bitmap_set-Wrote_instance = bitmap_set-Wrote two_bytes 10 two_bytes-HasBytes 1 (omega arith)

bitmap_init-test_example : bitmap_scan_test (bitmap_init two_bytes) 11 ≡ false
bitmap_init-test_example = bitmap_init-test two_bytes 11

bitmap_scan-FirstFit_example : ScanOutcome two_bytes 2
bitmap_scan-FirstFit_example =
    bitmap_scan-FirstFit two_bytes (omega arith) 2 (omega arith) (omega arith) two_bytes-HasBytes

bitmap_scan_in_range_example : FreeRun two_bytes 12 2 × (12 + 2 ≤ 16)
unfolding bitmap_scan skip_full_bytes skip_set_bits scan_run bitmap_scan_test bit_is_set
bitmap_scan_in_range_example =
    bitmap_scan_in_range two_bytes two_bytes-HasBytes (omega arith) 2 (omega arith) (omega arith)
      (inr refl) 12 refl

last_free-FirstFree : FirstFree last_free 7
unfolding bitmap_scan_test bit_is_set table
last_free-FirstFree = record {
  in_range = omega arith;
  clear = refl;
  set_before = λ j lt. table-entry (bitmap_scan_test last_free) 7 refl j lt;
}

last_free-table : table (λ j. ltb j 7 || not (bitmap_scan_test last_free j)) 9 ≡ true
unfolding bitmap_scan_test bit_is_set table
last_free-table = refl

last_free_run : FreeRun last_free 7 2
last_free_run j lo hi =
    ground (
      arith,
      table-entry (λ j. ltb j 7 || not (bitmap_scan_test last_free j)) 9 last_free-table j hi,
    )

bitmap_scan_past_end_example : bitmap_scan last_free 2 ≡ ok (some 7)
bitmap_scan_past_end_example =
    bitmap_scan_past_end last_free last_free-HasBytes (omega arith) 2 7 last_free-FirstFree
      last_free_run refl
